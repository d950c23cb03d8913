-- ===== src/Replay/Cassette.antt =====
-- `ResponseCassette` of src/notary_platform/replay_engine/cassette.py. `str.upper`, the hexadecimal
-- SHA-256 of a text and `str` of a recorded value are the fields of `Ops`. A cassette carries the
-- events that it has handed to its callback. The theorems are in the modules below.
pub mod Strict
pub mod Recorded
use notary_platform.Prelude.{
  ℕ, zero, suc, ◌+◌, ◌-◌, String, Bool, true, false, not, ◌&&◌, ◌||◌, ◌==◌, Option, none, some,
  List, [], ◌∷◌, ◌++◌, length, get_elem?, if◌then◌else◌, nonblank, is_some, next, ◌<>◌, keep, map,
  elem,
}
use notary_platform.Dict.{Dict, get, put, values, or_else}
use notary_platform.Value.{Value}

pub record Ops : Type 0 where
  pub upper : String → String
  pub sha256 : String → String
  pub str : Value → String

-- `payload["request"]`: a dict with the keys that it has, or the `str` of anything else. A payload
-- without a request has the empty dict.
pub data Request : Type 0 where
  dict : (method url body : Option String) → Request
  other : (written : String) → Request

-- one element of a snapshot, with the keys of its payload that the replay engine reads
pub record Element : Type 0 where
  pub kind : String
  pub request : Request
  pub response : Value
  pub status : Value
  pub applicant_id : Option String
  pub version : Option String
  pub decision : Option String

pub record Call : Type 0 where
  pub method : String
  pub url : String
  pub body : Option String

pub record Entry : Type 0 where
  pub call : Call
  pub response : Value
  pub status : Value

pub record Answer : Type 0 where
  pub response : Value
  pub status : Value

pub record ReplayExecutionEvent : Type 0 where
  pub step : String
  pub source : String
  pub expected : String
  pub actual : String
  pub status : String
  pub sequence : ℕ

pub record ResponseCassette : Type 0 where
  pub entries : Dict Entry
  pub ordered_entries : List Entry
  pub cursor : ℕ
  pub strict_order : Bool
  pub misses : List Call
  pub has_callback : Bool
  pub event_sequence : ℕ
  pub events : List ReplayExecutionEvent

-- a body counts only where it is not empty
abbrev pub body_part : Option String → String
body_part none = ""
body_part (some body) = if nonblank body then "|" <> body else ""

unfoldable pub call_signature : Ops → Call → String
call_signature ops call =
    ops.sha256 (ops.upper call.method <> "|" <> call.url <> body_part call.body)

unfoldable pub is_call : Element → Bool
unfolding elem
is_call e = elem e.kind ("http" ∷ "tool_call" ∷ "api_response" ∷ [])

abbrev pub call_of : Request → Call
call_of (dict method url body) = record {
  method = or_else method "GET";
  url = or_else url "";
  body = body;
}
call_of (other written) = record { method = "GET"; url = written; body = none }

abbrev pub entry_of : Element → Entry
entry_of e = record { call = call_of e.request; response = e.response; status = e.status }

unfoldable pub recorded_entries : List Element → List Entry
unfolding keep is_call
recorded_entries elements = map entry_of (keep is_call elements)

-- `self._entries`: a later entry with the same signature takes the place of an earlier one
unfoldable pub entries_from : Ops → Dict Entry → List Entry → Dict Entry
unfolding put call_signature
entries_from ops d [] = d
entries_from ops d (e ∷ rest) = entries_from ops (put (call_signature ops e.call) e d) rest

unfoldable pub new_cassette :
    Ops
    → List Element
    → (strict_order has_callback : Bool) → (event_sequence : ℕ) → ResponseCassette
unfolding entries_from recorded_entries
new_cassette ops elements strict_order has_callback event_sequence = record {
  entries = entries_from ops [] (recorded_entries elements);
  ordered_entries = recorded_entries elements;
  cursor = 0;
  strict_order = strict_order;
  misses = [];
  has_callback = has_callback;
  event_sequence = event_sequence;
  events = [];
}

abbrev pub answer_of : Entry → Answer
answer_of e = record { response = e.response; status = e.status }

-- `callback(event)`, and the next sequence number; nothing without a callback
unfoldable pub emit_event :
    (actual status : String) → Ops → Call → ResponseCassette → ResponseCassette
emit_event actual status ops call c =
    if c.has_callback
    then record c {
      event_sequence = suc c.event_sequence;
      events =
          c.events
          ++ (record {
            step = "System/tool response returned from cassette";
            source = "cassette";
            expected = "Match " <> ops.upper call.method <> " " <> call.url;
            actual = actual;
            status = status;
            sequence = c.event_sequence;
          }
              ∷ []);
    }
    else c

unfoldable pub emit_response_event : Ops → Call → Entry → ResponseCassette → ResponseCassette
unfolding emit_event
emit_response_event ops call e c =
    emit_event ("status=" <> ops.str e.status <> "; response returned") "pass" ops call c

unfoldable pub emit_miss_event : Ops → Call → ResponseCassette → ResponseCassette
unfolding emit_event
emit_miss_event ops call c = emit_event "no recorded response" "escalation_required" ops call c

abbrev pub same_body : Option String → Option String → Bool
same_body none none = true
same_body none (some b) = false
same_body (some a) none = false
same_body (some a) (some b) = a == b

unfoldable pub matches : Ops → Entry → Call → Bool
matches ops e call =
    (ops.upper e.call.method == ops.upper call.method && e.call.url == call.url)
    && (same_body call.body e.call.body || (not (is_some call.body) && is_some e.call.body))

unfoldable pub missed : Ops → Call → ResponseCassette → Option Answer × ResponseCassette
unfolding emit_miss_event
missed ops call c = (
  none,
  emit_miss_event ops call
      (record c { misses = c.misses ++ (record call { method = ops.upper call.method } ∷ []) }),
)

unfoldable pub served : Ops → Call → Entry → ResponseCassette → Option Answer × ResponseCassette
unfolding emit_response_event
served ops call e c = (some (answer_of e), emit_response_event ops call e c)

abbrev pub served_if_some :
    Ops → Call → Option Entry → ResponseCassette → Option Answer × ResponseCassette
served_if_some ops call none c = missed ops call c
served_if_some ops call (some e) c = served ops call e c

-- the entry at the cursor, where there is one
abbrev pub strict_found :
    Ops → Call → ResponseCassette → Option Entry → Option Answer × ResponseCassette
strict_found ops call c none = missed ops call c
strict_found ops call c (some e) =
    if matches ops e call
    then served ops call e (record c { cursor = suc c.cursor })
    else missed ops call c

-- the entry with the signature; for a call without a body, else the first with a body that has
-- the method and the url
abbrev pub found_or : Option Entry → Option Entry → Option Entry
found_or none otherwise = otherwise
found_or (some e) otherwise = some e

unfoldable pub entry_for : Ops → Call → Dict Entry → Option Entry
unfolding get next values call_signature
entry_for ops call d = found_or (get (call_signature ops call) d) (
    if is_some call.body
    then none
    else next
        (λ e.
          ops.upper e.call.method == ops.upper call.method
          && (e.call.url == call.url && is_some e.call.body))
        (values d))

unfoldable pub lookup : Ops → Call → ResponseCassette → Option Answer × ResponseCassette
unfolding missed served entry_for
lookup ops call c =
    if c.strict_order
    then strict_found ops call c (get_elem? c.ordered_entries c.cursor)
    else served_if_some ops call (entry_for ops call c.entries) c

unfoldable pub unconsumed_count : ResponseCassette → ℕ
unconsumed_count c = length c.ordered_entries - c.cursor

-- a sequence of lookups, with the answers in order
unfoldable pub lookups :
    Ops → List Call → ResponseCassette → List (Option Answer) × ResponseCassette
unfolding lookup
lookups ops [] c = ([], c)
lookups ops (call ∷ calls) c =
    let (answer, c₁) = lookup ops call c in
    let (answers, c₂) = lookups ops calls c₁ in (answer ∷ answers, c₂)
