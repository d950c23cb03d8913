-- ===== src/Lib.antt =====
-- Notary Platform: discovery, the sweep, the proof bridge, the replay engine and the release gate.
--
-- The platform collects evidence about the decisions of automated systems. Envelopes are validated
-- and ingested as resources; records of decisions are assembled from resources, with an identity and
-- the context in force at the time of the decision. A sweep plans jobs over
-- the decision evidence records of an organization, evaluators assess the records, assessments
-- become candidates, reviewers decide about candidates, and the proof bridge says which candidates
-- may be promoted to proof. The replay engine runs an agent again on the recorded responses of a
-- sealed snapshot; the release gate replays the scenarios of a policy and certifies a release whose
-- scenarios pass. Files are named by the module that models them:
--
--   Prelude, Dict, Value  Python's tests, comprehensions, texts, insertion-ordered dicts with text
--     keys, and the dynamic values of dict[str, Any].
--   Records/*  the dataclasses of src/notary_platform/sweep/models.py, sweep/jobs.py and
--     discovery/models.py with their defaults (`blank`), `__post_init__` (`post_init`), `to_dict` and
--     `from_dict`. `from_dict` returns none on a dict that holds a value of another type.
--   Storage/*  `MemoryStorage` of src/notary_platform/storage.py for these records: create and update
--     return the new storage, get returns an option, list keeps the insertion order.
--   Protocol/Digest, Validation  dep/canonical.py, dep/errors.py and dep/validation.py.
--   Discovery/Ingress  discovery/ingress.py. Each child module has the theorems of its parent.
--   Discovery/Identity, Context  discovery/identity.py and discovery/context.py; a comparison of two
--     times gives none where Python raises.
--   Discovery/Assembly  discovery/evidence_records.py, which composes the two;
--     Discovery/Suggestions the advisory suggestions and their collection.
--   Certificates  certificates.py: what is signed, the signature and its verification.
--   Snapshots  snapshot.py: seals, the rounds of the root hash, and the verification of a snapshot.
--   Sweep/Budget, Runner, Planner, Registry, Worker  sweep/budgets.py, runner.py, planner.py,
--     registry.py and sweep_worker/main.py. Each operation takes the clock's reading and the
--     storage, and returns what the source returns with the storage after it.
--   Sweep/Evidence, Sufficiency, Evaluators  sweep/evaluators/*.py and sweep/sufficiency.py.
--   Sweep/Candidates  sweep/candidates.py: assembly of candidates, and their review. The assembly gives
--     none where an outcome in the details is no text, as `from_dict` does.
--   Sweep/Bridge  sweep/bridge.py: eligibility, with the authority by review or by delegation, and
--     where asking for it raises.
--   Sweep/Promotion  `promote` of sweep/bridge.py on the collections of `MemoryStorage` that it writes
--     (records, incidents, snapshots, evidence): Bundle seals the evidence, Promote composes
--     `create_from_sdk_snapshot` and `create_incident_from_vr` of services/services.py with it.
--   Replay/Cassette, Replay/Snapshot  replay_engine/cassette.py, replay.py and mutation.py. An agent
--     is a tree: it decides, raises, or looks a call up and goes on with the answer.
--   Services/Replayability  `ReplayabilityService` of services/services.py: status, score and flags.
--   Services/Actions  `ActionEligibilityService` and the part of `KnownLimitationService` that it uses,
--     in services/services.py.
--   Services/Labels  `LabelProvenanceService`; Services/Replays `ReplayService.run_replay`;
--     Services/Mutations `MutationService.run_mutation`, all of services/services.py, on the
--     collections of Sweep/Promotion with the labels beside them.
--   Services/Gate  the records and collections of the release gate (models.py, storage.py);
--     Services/Gate/Run and Check its operations in services/services.py, each with the storage that a result
--     or an exception leaves, and the exit code of release_gate_cli.py.
--   Examples  one organization's data and one replay, with the theorems applied to them.
--
-- Bounds. Numbers are natural numbers; the budget's times are whole microseconds, where the source
-- compares floats, and a determinism score is counted in twentieths. Every loop of
-- the sources runs over a list and is structural recursion. There is fuel in two
-- places. Prelude.Text.show prints a number, which has at most as many digits as units, so its
-- successor is enough. Snapshots.root_of has as much as there are hashes, and each round over two or
-- more leaves fewer.
--
-- Parameters. The draws of uuid4 and of the clock, `str` of values and of a dataclass, str.strip,
-- str.lower, str.upper, float, the text of a score's percentage and of a list, SHA-256, str.split,
-- the characters of a text and
-- datetime.fromisoformat are arguments of the definitions that use them.
-- Further parameters are the canonical JSON text and the hash of an envelope, the verdict of its JSON
-- schema and the registered types, str.startswith and str.replace in the namespaces, HMAC, SHA-256
-- and KMS, and, of the release gate, the replay of one scenario by the agent chosen for it. A replay takes
-- the answer of the configured runner and of the replay engine, the test of a fix that of the engine; an example gives it Replay/Snapshot's.
--
-- The promotion takes the SHA-256 of a text and the digest of a dict's canonical JSON, str.lower and
-- str.replace, and its draws and times, all in `BridgeTexts`.
--
-- Not modelled. `get_lineage` of sweep/bridge.py, a view over the collections, the
-- sweep's manifests, the other ways to create a record, the certificate of mitigation
-- and the promotion of scenarios (services/services.py), discovery/sources.py and profiling.py, the dict
-- forms of snapshots, and the SQL storage are left out so far. The
-- API routers, the setup engine, the demo data, the SDKs
-- and the infrastructure are glue, data, or calls of other libraries.
pub mod Certificates
pub mod Dict
pub mod Discovery
pub mod Examples
pub mod Prelude
pub mod Protocol
pub mod Records
pub mod Replay
pub mod Services
pub mod Snapshots
pub mod Storage
pub mod Sweep
pub mod Value
