-- ===== src/AgentRuns/Calls/Listing.antt =====
-- `list_resumable` of src/xpd_report_agent/api/agent_runs.py.
use mathlib.Core.List.{Perm}
use xpd_report_agent.Prelude.{
  ◌∙◌, sym, ap, not, ℕ, String, ◌≡◌, refl, true, false, Option, List, [], ◌∷◌, arith, filter,
  eq_iff, ◌+◌, Bool, ◌&&◌, ◌||◌, none, some, ltb, str_eq,
}
use xpd_report_agent.Prelude.Dict.{Dict, values}
use xpd_report_agent.Prelude.Sort.{sort, IsSorted, sort-perm, sort-IsSorted}
use xpd_report_agent.Prelude.Text.{text_le, text_le-total}
use xpd_report_agent.AgentRuns.Run.{
  epoch_start, run_retry_attempt_count, owned, Status, Result, Run, Status, pending, running,
  waiting_input, succeeded, failed, other, epoch_start, is_resumable, is_running,
  run_retry_attempt_count, owned, Entry, run, junk, ok, bind_elim, guard, value_error,
}
use xpd_report_agent.AgentRuns.File.{File, load}
use xpd_report_agent.AgentRuns.Store.{
  resumable, resumable_runs, created_le, list_resumable, too_few, checked_scope,
}

-- The runs among the values of the file.
abbrev pub runs_of : List Entry → List Run
runs_of [] = []
runs_of (run r ∷ es) = r ∷ runs_of es
runs_of (junk v ∷ es) = runs_of es

resumable_runs-filter :
    (m : Option ℕ) (s : Option String) (es : List Entry)
    → resumable_runs m s es ≡ filter (resumable m s) (runs_of es)
unfolding resumable_runs
resumable_runs-filter m s [] = refl
resumable_runs-filter m s (run r ∷ es) = ground (arith, resumable_runs-filter m s es)
resumable_runs-filter m s (junk v ∷ es) = resumable_runs-filter m s es

-- Whether a run may go on: a running one always, a pending one while its attempts since the last
-- retry of a user are fewer than the limit.
abbrev pub may_go_on : Option ℕ → Run → Status → Bool
may_go_on m r running = true
may_go_on none r pending = true
may_go_on (some m) r pending = ltb r.attempt_count (epoch_start r.checkpoint + m)
may_go_on m r _ = false

abbrev pub belongs : Option String → Run → Bool
belongs none r = true
belongs (some s) r = str_eq r.owner_scope s && not (str_eq r.owner_scope "")

abbrev pub is_listed : Option ℕ → Option String → Run → Bool
is_listed m s r = may_go_on m r r.status && belongs s r

-- Each run is before the next by creation time, and by run id where the times are equal.
abbrev pub InOrder : List Run → Type 0
InOrder [] = Unit
InOrder (r ∷ []) = Unit
InOrder (r ∷ t ∷ rs) =
    (text_le r.created_at t.created_at ≡ true)
    × (r.created_at ≡ t.created_at → text_le r.run_id t.run_id ≡ true)
    × InOrder (t ∷ rs)

IsSorted-InOrder : (rs : List Run) → IsSorted created_le rs → InOrder rs
unfolding created_le
IsSorted-InOrder [] s = tt
IsSorted-InOrder (r ∷ []) s = tt
IsSorted-InOrder (r ∷ t ∷ rs) (le, s) = (
  ground (arith, eq_iff r.created_at t.created_at, text_le-total r.created_at t.created_at),
  (λ e. ground (arith, eq_iff r.created_at t.created_at)),
  IsSorted-InOrder (t ∷ rs) s,
)

owned-belongs :
    (s : Option String) (r : Run) → (elim s [ none ↦ true | some t ↦ owned r t ]) ≡ belongs s r
unfolding owned
owned-belongs none r = refl
owned-belongs (some s) r = ground arith

limit-may_go_on :
    (m : Option ℕ) (r : Run) (t : Status) (b : Bool)
    → not (too_few m) ≡ true
    → (is_resumable t
        && (is_running t || elim m [ none ↦ true | some n ↦ ltb (run_retry_attempt_count r) n ])
        && b)
      ≡ (may_go_on m r t && b)
unfolding run_retry_attempt_count
limit-may_go_on none r pending b h = refl
limit-may_go_on (some n) r pending b h = ground arith
limit-may_go_on none r running b h = refl
limit-may_go_on (some n) r running b h = refl
limit-may_go_on none r waiting_input b h = refl
limit-may_go_on (some n) r waiting_input b h = refl
limit-may_go_on none r succeeded b h = refl
limit-may_go_on (some n) r succeeded b h = refl
limit-may_go_on none r failed b h = refl
limit-may_go_on (some n) r failed b h = refl
limit-may_go_on none r (other s) b h = refl
limit-may_go_on (some n) r (other s) b h = refl

resumable-is_listed :
    (m : Option ℕ) (s : Option String) (r : Run)
    → not (too_few m) ≡ true
    → resumable m s r ≡ is_listed m s r
unfolding resumable
resumable-is_listed m s r h = rw (owned-belongs s r) (limit-may_go_on m r r.status (belongs s r) h)

filter-eq {ℓ} :
    {A : Type ℓ} (p q : A → Bool) (xs : List A) → ((x : A) → p x ≡ q x) → filter p xs ≡ filter q xs
filter-eq p q [] h = refl
filter-eq p q (x ∷ xs) h = ground (arith, h x, filter-eq p q xs h)

created_le-total : (a b : Run) → created_le a b ≡ false → created_le b a ≡ true
unfolding created_le
created_le-total a b h = ground (
  arith,
  eq_iff a.created_at b.created_at,
  eq_iff b.created_at a.created_at,
  text_le-total a.created_at b.created_at,
  text_le-total a.run_id b.run_id,
)

guarded : (b : Bool) {u : Unit {0}} → guard b value_error ≡ ok u → b ≡ true
guarded true h = refl
guarded false h = absurd (ground arith)

ok_inj : {a b : List Run} → ◌≡◌ {A = Result (List Run)} (ok a) (ok b) → a ≡ b
ok_inj h = cc

-- If the file can be loaded, the list that `list_resumable` returns holds just these stored runs, each
-- as often as the file: the running ones, and the pending ones with attempts left in their retry
-- epoch or where no limit is given; of the owner only, if one is given. It is in order of creation
-- time, and of run id where the times are equal.
pub list_resumable_lem :
    (m : Option ℕ) (s : Option String) (f : File) {runs : Dict Entry} {rs : List Run}
    → load f ≡ ok runs
    → list_resumable m s f ≡ ok rs
    → Perm rs (filter (is_listed m s) (runs_of (values runs))) × InOrder rs
unfolding list_resumable
list_resumable_lem m s f {runs} {rs} l h =
    bind_elim (guard (not (too_few m)) value_error) _ h λ _ few h1.
      bind_elim (checked_scope s) _ h1 λ _ _ h2. bind_elim (load f) _ h2 λ d l' h3.
        let e1 : d ≡ runs = ground arith in
        let e2 : sort created_le (filter (resumable m s) (runs_of (values d))) ≡ rs =
          ap (sort created_le) (sym (resumable_runs-filter m s (values d))) ∙ ok_inj h3 in
        let e3 =
          filter-eq (resumable m s) (is_listed m s) (runs_of (values d))
            (λ r. resumable-is_listed m s r (guarded _ few)) in
        rw (← e1, ← e3, ← e2)
          (sort-perm created_le _, IsSorted-InOrder _ (sort-IsSorted created_le created_le-total _))
