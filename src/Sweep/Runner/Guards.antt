-- ===== src/Sweep/Runner/Guards.antt =====
-- The guards of `start_run`, `complete_run` and `cancel_run` of
-- src/notary_platform/sweep/runner.py: whose run it is, and in what status.
use notary_platform.Prelude.{
  String, ◌≡◌, sym, true, false, inl, inr, ap, Bool-cases, Option, none, some, ◌==◌,
}
use mathlib.Core.Path.{subst, subst₂}
use mathlib.Core.Option.{some-injective}
use notary_platform.Dict.{get-put_self}
use notary_platform.Records.Run.{SweepRun}
use notary_platform.Storage.{MemoryStorage, get_sweep_run, update_sweep_run}
use notary_platform.Sweep.Runner.{start_run, complete_run, cancel_run, cancel_found, is_terminal}

module _ (now run_id org_id : String) (s : MemoryStorage) (run : SweepRun)
    (found : get_sweep_run run_id s ≡ some run) where
  -- A run of another organization is neither started, nor completed, nor cancelled: each call
  -- returns nothing and leaves the storage as it was.
  pub foreign_run_untouched :
      (status : String)
      → (run.org_id == org_id) ≡ false
      → (start_run now run_id org_id s ≡ (none, s))
        × (complete_run now run_id org_id status s ≡ (none, s))
        × (cancel_run now run_id org_id s ≡ (none, s))
  unfolding start_run complete_run cancel_run
  foreign_run_untouched status other = (rw (found, other), rw (found, other), rw (found, other))

get_sweep_run-update_sweep_run :
    (run : SweepRun) (s : MemoryStorage) → get_sweep_run run.id (update_sweep_run run s) ≡ some run
unfolding get_sweep_run update_sweep_run
get_sweep_run-update_sweep_run run s = get-put_self run.id run s.sweep_runs

-- What a cancellation that returned a run leaves behind.
record IsCancelled (org_id : String) (s : MemoryStorage) (run : SweepRun) : Type 0 where
  stored : get_sweep_run run.id s ≡ some run
  status : run.status ≡ "cancelled"

cancel_found-IsCancelled :
    (now org_id : String) (s s' : MemoryStorage) (run : SweepRun) (found : Option SweepRun)
    → cancel_found now org_id s found ≡ (some run, s')
    → IsCancelled org_id s' run
cancel_found-IsCancelled now org_id s s' run none e = cc (ap (λ p. p.0) e)
cancel_found-IsCancelled now org_id s s' run (some old) e =
    elim (Bool-cases (old.org_id == org_id)) [
      | inr other ↦ cc (ap (λ p. p.0) (rw other at e))
      | inl own ↦ elim (Bool-cases (is_terminal old.status)) [
        | inl over ↦ cc (ap (λ p. p.0) (rw (own, over) at e))
        | inr open_run ↦
            let e' = rw (own, open_run) at e in
            let old' = record old { status = "cancelled"; completed_at = now } in
            let same : old' ≡ run = some-injective _ _ (ap (λ p. p.0) e') in
            record {
              stored =
                  subst₂ (λ r t. get_sweep_run r.id t ≡ some r) same (ap (λ p. p.1) e')
                    (get_sweep_run-update_sweep_run old' s);
              status = sym (ap (λ r. r.status) same);
            }
      ]
    ]

-- Once a run that carries its own id has been cancelled it can be neither started nor cancelled
-- again: both calls return nothing and leave the storage as it was.
pub cancel_run_final :
    (now later run_id org_id : String) (s s' : MemoryStorage) (run : SweepRun)
    → run.id ≡ run_id
    → cancel_run now run_id org_id s ≡ (some run, s')
    → (start_run later run_id org_id s' ≡ (none, s'))
      × (cancel_run later run_id org_id s' ≡ (none, s'))
unfolding cancel_run start_run
cancel_run_final now later run_id org_id s s' run named done =
    let c = cancel_found-IsCancelled now org_id s s' run (get_sweep_run run_id s) done in
    let stored : get_sweep_run run_id s' ≡ some run =
      subst (λ k. get_sweep_run k s' ≡ some run) named c.stored in
    let queued : (run.status == "queued") ≡ false = ap (λ t. t == "queued") c.status in
    let over : is_terminal run.status ≡ true = ap is_terminal c.status in
    elim (Bool-cases (run.org_id == org_id)) [
      | inl own ↦ (rw (stored, own, queued), rw (stored, own, over))
      | inr other ↦ (rw (stored, other), rw (stored, other))
    ]
