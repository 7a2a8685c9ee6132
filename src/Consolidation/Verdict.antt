-- ===== src/Consolidation/Verdict.antt =====
-- How a run of src/xpd_report_agent/api/memory_consolidation.py ends.
use xpd_report_agent.Prelude.{
  ℕ, zero, suc, ◌+◌, ◌-◌, ◌≤◌, String, ◌≡◌, refl, ◌∙◌, ◌≢◌, ◌⊎◌, inl, inr, Bool, true, false, ◌||◌,
  none, some, List, [], ◌∷◌, arith, eq_refl,
}
use xpd_report_agent.Prelude.Json.{Json}
use xpd_report_agent.Prelude.Dict.{remove, Dict, lookup, insert, lookup-insert, lookup-remove}
use xpd_report_agent.Consolidation.Manager.{
  LastResult, succeeded, already_below_trigger, failed, retrying, Manager, Execution, returned,
  Pause, left, sleep_cancelled, reading_failed, targets_of, exception, cancelled, Run, Ended,
  after_failure, after_attempt, note_failure, run_from, run,
}

-- A verdict on the owner, after at most so many attempts: a success, or a failure with a time before
-- which no task is created for the owner.
abbrev pub Settles : Run → ℕ → Manager → LastResult → Type 0
Settles r most m (succeeded n result) = (n ≤ most) × (lookup r.scope m.retry_after ≡ none)
Settles r most m (already_below_trigger n) = n ≤ most
Settles r most m (failed n error) =
    (n ≤ most) × (lookup r.scope m.retry_after ≡ some (r.monotonic n + r.cooldown))
Settles r most m (retrying n error) = ⊥

abbrev pub HasVerdict : Run → ℕ → Ended → Type 0
HasVerdict r most (m, stopped) =
    (stopped ≡ false)
    × ((v : LastResult) × (lookup r.scope m.last_results ≡ some v) × Settles r most m v)

abbrev self {ℓ} : {V : Type ℓ} (k : String) (v : V) (d : Dict V) → lookup k (insert k v d) ≡ some v
self k v d = lookup-insert k k v d ∙ rw (eq_refl k) refl

gone {ℓ} : {V : Type ℓ} (k : String) (d : Dict V) → lookup k (remove k d) ≡ none
gone k d = lookup-remove k k d ∙ rw (eq_refl k) refl

after_failure-HasVerdict :
    (r : Run) (most attempt : ℕ) (terminal : Bool) (error : String) (m : Manager) (pause : Pause)
    (go_on : Ended)
    → attempt ≤ most
    → ((ts : List Json) × (pause ≡ left ts))
    → ((terminal ≡ true) ⊎ HasVerdict r most go_on)
    → HasVerdict r most (after_failure r attempt terminal error m pause go_on)
unfolding after_failure
after_failure-HasVerdict r most attempt true error m pause go_on le q h =
    (refl, (_, self r.scope _ m.last_results, (le, self r.scope _ m.retry_after)))
after_failure-HasVerdict r most attempt false error m (left []) go_on le q h =
    (refl, (_, self r.scope _ (insert r.scope _ m.last_results), le))
after_failure-HasVerdict r most attempt false error m (left (t ∷ ts)) go_on le q (inl h) =
    absurd (ground arith)
after_failure-HasVerdict r most attempt false error m (left (t ∷ ts)) go_on le q (inr h) = h
after_failure-HasVerdict r most attempt false error m sleep_cancelled go_on le (ts, q) h =
    absurd (ground arith)
after_failure-HasVerdict r most attempt false error m reading_failed go_on le (ts, q) h =
    absurd (ground arith)

after_attempt-HasVerdict :
    (r : Run) (most attempt : ℕ) (is_last : Bool) (e : Execution) (m : Manager) (go_on : Ended)
    → attempt ≤ most
    → e ≢ cancelled
    → ((ts : List Json) × (r.pause attempt ≡ left ts))
    → ((is_last ≡ true) ⊎ HasVerdict r most go_on)
    → HasVerdict r most (after_attempt r attempt is_last e m go_on)
unfolding after_attempt
after_attempt-HasVerdict r most attempt is_last cancelled m go_on le ne q h = absurd (ne refl)
after_attempt-HasVerdict r most attempt is_last (returned result) m go_on le ne q h =
    (refl, (_, self r.scope _ m.last_results, (le, gone r.scope m.retry_after)))
after_attempt-HasVerdict r most attempt is_last (exception error unknown) m go_on le ne q (inl h) =
    after_failure-HasVerdict r most attempt (is_last || unknown) error m (r.pause attempt) go_on le
      q (inl (rw h refl))
after_attempt-HasVerdict r most attempt is_last (exception error unknown) m go_on le ne q (inr h) =
    after_failure-HasVerdict r most attempt (is_last || unknown) error m (r.pause attempt) go_on le
      q (inr h)

run_from-HasVerdict :
    (r : Run) (most attempt further : ℕ) (targets : List Json) (m : Manager)
    → ((n : ℕ) (ts : List Json) → r.execute n ts ≢ cancelled)
    → ((n : ℕ) → (ts : List Json) × (r.pause n ≡ left ts))
    → attempt + further ≤ most
    → HasVerdict r most (run_from r attempt further targets m)
unfolding run_from
run_from-HasVerdict r most attempt zero targets m ne quiet le =
    after_attempt-HasVerdict r most attempt true (r.execute attempt targets) m (m, false)
      (omega arith) (ne attempt targets) (quiet attempt) (inl refl)
run_from-HasVerdict r most attempt (suc further) targets m ne quiet le =
    let e = r.execute attempt targets in
    let after = targets_of (r.pause attempt) in
    let noted = note_failure r attempt e m in
    after_attempt-HasVerdict r most attempt false e m (run_from r (attempt + 1) further after noted)
      (omega arith) (ne attempt targets) (quiet attempt)
      (inr (run_from-HasVerdict r most (attempt + 1) further after noted ne quiet (omega arith)))

-- A consolidation of at least one attempt that is not cancelled, neither in the executor nor in the
-- sleep between two attempts, and that can read the memories after a sleep, comes to a verdict on its
-- owner within the configured attempts: a success, after which no cooldown is set or the memories
-- were found below their trigger, or a failure with its cooldown; it is not left as retrying.
pub run-HasVerdict :
    (r : Run) (targets : List Json) (m : Manager)
    → 1 ≤ r.attempts
    → ((n : ℕ) (ts : List Json) → r.execute n ts ≢ cancelled)
    → ((n : ℕ) → (ts : List Json) × (r.pause n ≡ left ts))
    → HasVerdict r r.attempts (run r targets m)
unfolding run
run-HasVerdict r targets m some_attempt ne quiet =
    run_from-HasVerdict r r.attempts 1 (r.attempts - 1) targets m ne quiet (omega arith)
