-- ===== src/AgentRuns/History/Lookup.antt =====
-- The run that the file holds under an id, and what an effect does to it.
use mathlib.Core.Path.{subst}
use xpd_report_agent.Prelude.{
  ◌∙◌, sym, ap, String, ◌≡◌, refl, ◌⊎◌, inl, inr, true, Option, none, some, arith, str_eq, eq_iff,
  Bool-cases, if◌then◌else◌,
}
use xpd_report_agent.Prelude.Dict.{Dict, lookup, insert, lookup-insert}
use xpd_report_agent.AgentRuns.Run.{Run, Entry, run, junk, Result, ok, err, owned}
use xpd_report_agent.AgentRuns.File.{File, load, stored}
use xpd_report_agent.AgentRuns.Store.{owned_run}
use xpd_report_agent.AgentRuns.Effects.{Effect, same, moved, added, IsFree}

abbrev pub entry_run : Option Entry → Option Run
entry_run none = none
entry_run (some (junk v)) = none
entry_run (some (run r)) = some r

abbrev pub run_in : Result (Dict Entry) → String → Option Run
run_in (err x) id = none
run_in (ok runs) id = entry_run (lookup id runs)

-- The run under an id.
unfoldable pub run_at : File → String → Option Run
run_at f id = run_in (load f) id

entry_run-some : (o : Option Entry) {r : Run} → entry_run o ≡ some r → o ≡ some (run r)
entry_run-some o h = ground arith

owned_run-some :
    (runs : Dict Entry) (id scope : String) {r : Run}
    → owned_run runs id scope ≡ some r
    → (lookup id runs ≡ some (run r)) × (owned r scope ≡ true)
unfolding owned_run
owned_run-some runs id scope h = ground arith

pub run_at-stored :
    (runs : Dict Entry) (j id : String) (r : Run)
    → run_at (stored (insert j (run r) runs)) id
      ≡ (if str_eq j id then some r else entry_run (lookup id runs))
unfolding run_at load
run_at-stored runs j id r = rw lookup-insert (ground arith)

lookup-run_at :
    (f : File) (runs : Dict Entry) (id : String) {r : Run}
    → load f ≡ ok runs
    → run_at f id ≡ some r
    → lookup id runs ≡ some (run r)
unfolding run_at
lookup-run_at f runs id q h = entry_run-some (lookup id runs) (ap (λ m. run_in m id) (sym q) ∙ h)

module _ (runs : Dict Entry) (j id : String) where
  -- A write under `j`, where the id is `j` or another.
  moved_at :
      (P : Run → Run → Type 0) (s : String) (x x' r : Run)
      → lookup id runs ≡ some (run r)
      → lookup j runs ≡ some (run x)
      → owned x s ≡ true
      → P x x'
      → (r' : Run) × (run_at (stored (insert j (run x') runs)) id ≡ some r')
        × ((r' ≡ r) ⊎ (P r r' × (owned r s ≡ true)))
  moved_at P s x x' r h k o p = elim (Bool-cases (str_eq j id)) [
    | inl b ↦
        let e : x ≡ r = ground (arith, eq_iff j id) in
        (x', rw (run_at-stored runs j id x', b), inr (subst (λ y. P y x') e p, rw (← e) o))
    | inr b ↦ (r, rw (run_at-stored runs j id x', b, h), inl refl)
  ]

  added_at :
      (x r : Run)
      → lookup id runs ≡ some (run r)
      → IsFree j runs
      → run_at (stored (insert j (run x) runs)) id ≡ some r
  added_at x r h free = elim (Bool-cases (str_eq j id)) [
    | inl b ↦ absurd (free r (rw ((eq_iff j id).0 b) h))
    | inr b ↦ rw (run_at-stored runs j id x, b, h)
  ]

-- After a call a stored run is what it was, or the owner's call has moved it.
pub Effect-run_at :
    {P : Run → Run → Type 0} {N : Run → Type 0} {scope : String} {f f' : File} (id : String)
    (r : Run)
    → Effect P N scope f f'
    → run_at f id ≡ some r
    → (r' : Run) × (run_at f' id ≡ some r') × ((r' ≡ r) ⊎ (P r r' × (owned r scope ≡ true)))
Effect-run_at id r same h = (r, h, inl refl)
Effect-run_at {P = P} {scope = s} {f = f} id r (moved j runs x x' q o p) h =
    let (k, b) = owned_run-some runs j s o in
    moved_at runs j id P s x x' r (lookup-run_at f runs id q h) k b p
Effect-run_at {f = f} id r (added j runs x q free n) h =
    (r, added_at runs j id x r (lookup-run_at f runs id q h) free, inl refl)

pub run_at-load :
    (f : File) (runs : Dict Entry) (id : String)
    → load f ≡ ok runs
    → run_at f id ≡ entry_run (lookup id runs)
unfolding run_at
run_at-load f runs id q = ap (λ m. run_in m id) q

-- A property of all stored runs, after a write of one run that has it.
insert-All :
    (Q : Run → Type 0) (f : File) (runs : Dict Entry) (j : String) (x : Run)
    → load f ≡ ok runs
    → Q x
    → ((id : String) (r : Run) → run_at f id ≡ some r → Q r)
    → (id : String) (r : Run) → run_at (stored (insert j (run x) runs)) id ≡ some r
    → Q r
insert-All Q f runs j x q qx h = λ id r g.
    let g' = sym (run_at-stored runs j id x) ∙ g in
    elim (Bool-cases (str_eq j id)) [
      | inl b ↦ let e : x ≡ r = ground arith in subst Q e qx
      | inr b ↦
          let e : entry_run (lookup id runs) ≡ some r = ground arith in
          h id r (run_at-load f runs id q ∙ e)
    ]

-- A property of all stored runs that every move keeps, and every new run has, holds after a call.
pub Effect-All :
    (Q : Run → Type 0) {scope : String} {f f' : File}
    → Effect (λ r r'. Q r → Q r') Q scope f f'
    → ((id : String) (r : Run) → run_at f id ≡ some r → Q r)
    → (id : String) (r : Run) → run_at f' id ≡ some r
    → Q r
Effect-All Q same h = h
Effect-All Q {scope = s} {f = f} (moved j runs x x' q o p) h =
    let e = (owned_run-some runs j s o).0 in
    let qx : Q x = h j x (run_at-load f runs j q ∙ ap entry_run e) in
    insert-All Q f runs j x' q (p qx) h
Effect-All Q {f = f} (added j runs x q free n) h = insert-All Q f runs j x q n h

pub owned_run-run_at :
    (f : File) (runs : Dict Entry) (id scope : String) {r : Run}
    → load f ≡ ok runs
    → owned_run runs id scope ≡ some r
    → (run_at f id ≡ some r) × (owned r scope ≡ true)
owned_run-run_at f runs id scope q o =
    let (e, b) = owned_run-some runs id scope o in (run_at-load f runs id q ∙ ap entry_run e, b)
