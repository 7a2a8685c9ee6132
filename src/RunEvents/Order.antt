-- ===== src/RunEvents/Order.antt =====
-- The order and the bounds of the event buffer (src/xpd_report_agent/api/sessions.py).
use mathlib.Core.Path.{subst}
use xpd_report_agent.Prelude.{
  leb-false, length-drop, drop, All, ℕ, zero, suc, ◌+◌, ◌-◌, ◌≤◌, ◌<◌, String, ◌≡◌, refl, ap, ◌∙◌,
  inl, inr, false, Option, none, some, List, [], ◌∷◌, ◌++◌, arith, ltb, leb, str_eq, eq_refl,
  if◌then◌else◌, Bool-cases, Option-cases, length,
}
use mathlib.Core.Option.{some_inj}
use xpd_report_agent.Prelude.Json.{Fields}
use xpd_report_agent.Prelude.Dict.{Dict, lookup, insert, lookup-insert}
use xpd_report_agent.RunEvents.Buffer.{
  Event, Buffer, max_runs, max_events, max_sse_event_id, entries_of, is_new, with_run, find_key,
  trimmed, publish_unless, publish,
}

-- The ids grow, from `low` on and below `next`.
abbrev pub AreAscending : ℕ → ℕ → List Event → Type 0
AreAscending low next [] = Unit
AreAscending low next (e ∷ es) = (low ≤ e.id) × (e.id < next) × AreAscending (suc e.id) next es

abbrev pub IsKept : ℕ → List Event → Type 0
IsKept next es = AreAscending 0 next es × (length es ≤ max_events)

-- At most so many runs, each with at most so many events, whose ids grow and are below the next one.
pub record IsBounded (b : Buffer) : Type 0 where
  pub few : length b.runs ≤ max_runs
  pub kept : All (λ r. IsKept b.next_event_id r.1) b.runs

low-weaken :
    (low low' next : ℕ) (es : List Event)
    → low' ≤ low
    → AreAscending low next es
    → AreAscending low' next es
low-weaken low low' next [] h a = tt
low-weaken low low' next (e ∷ es) h (p, q, a) = (omega arith, q, a)

next-weaken :
    (low next next' : ℕ) (es : List Event)
    → next ≤ next'
    → AreAscending low next es
    → AreAscending low next' es
next-weaken low next next' [] h a = tt
next-weaken low next next' (e ∷ es) h (p, q, a) =
    (p, omega arith, next-weaken (suc e.id) next next' es h a)

AreAscending-append :
    (low next : ℕ) (es : List Event) (e : Event)
    → low ≤ next
    → e.id ≡ next
    → AreAscending low next es
    → AreAscending low (next + 1) (es ++ e ∷ [])
AreAscending-append low next [] e h i a = (omega (arith, i), omega (arith, i), tt)
AreAscending-append low next (d ∷ es) e h i (p, q, a) =
    (p, omega arith, AreAscending-append (suc d.id) next es e (omega arith) i a)

AreAscending-drop :
    (n low next : ℕ) (es : List Event)
    → AreAscending low next es
    → AreAscending low next (drop n es)
AreAscending-drop zero low next es a = a
AreAscending-drop (suc n) low next [] a = tt
AreAscending-drop (suc n) low next (e ∷ es) (p, q, a) =
    low-weaken (suc e.id) low next (drop n es) (omega arith)
      (AreAscending-drop n (suc e.id) next es a)

trimmed-IsKept : (next : ℕ) (es : List Event) → AreAscending 0 next es → IsKept next (trimmed es)
unfolding trimmed
trimmed-IsKept next es a = elim (Bool-cases (ltb max_events (length es))) [
  | inl b ↦ rw b (
    AreAscending-drop (length es - max_events) 0 next es a,
    omega (arith, length-drop (length es - max_events) es),
  )
  | inr b ↦ rw b (a, ground arith)
]

module _ {ℓ κ} {V : Type ℓ} (P : V → Type κ) where
  All-insert :
      (k : String) (v : V) (d : Dict V) → P v → All (λ r. P r.1) d → All (λ r. P r.1) (insert k v d)
  unfolding insert
  All-insert k v [] p h = (p, tt)
  All-insert k v ((j, w) ∷ d) p (q, h) = elim (Bool-cases (str_eq j k)) [
    | inl b ↦ rw b (p, h)
    | inr b ↦ rw b (q, All-insert k v d p h)
  ]

  All-lookup : (k : String) (d : Dict V) {v : V} → lookup k d ≡ some v → All (λ r. P r.1) d → P v
  unfolding lookup
  All-lookup k [] e h = absurd (ground arith)
  All-lookup k ((j, w) ∷ d) e (q, h) = elim (Bool-cases (str_eq j k)) [
    | inl b ↦ subst P (some_inj.0 (rw b at e)) q
    | inr b ↦ All-lookup k d (rw b at e) h
  ]

  All-drop : (n : ℕ) (d : Dict V) → All (λ r. P r.1) d → All (λ r. P r.1) (drop n d)
  All-drop zero d h = h
  All-drop (suc n) [] h = tt
  All-drop (suc n) (r ∷ d) (q, h) = All-drop n d h

module _ {ℓ} {V : Type ℓ} where
  length-insert :
      (k : String) (v : V) (d : Dict V)
      → length (insert k v d) ≡ (if is_new (lookup k d) then suc (length d) else length d)
  unfolding insert lookup
  length-insert k v [] = refl
  length-insert k v ((j, w) ∷ d) = ground (arith, length-insert k v d)

abbrev Fits : ℕ → Dict (List Event) → Type 0
Fits next runs = (length runs ≤ max_runs) × All (λ r. IsKept next r.1) runs

abbrev made_room : Dict (List Event) → Dict (List Event)
made_room runs = if leb max_runs (length runs) then drop 1 runs else runs

made_room-Fits :
    (next : ℕ) (runs : Dict (List Event))
    → Fits next runs
    → (length (made_room runs) < max_runs) × All (λ r. IsKept next r.1) (made_room runs)
made_room-Fits next runs (few, kept) = elim (Bool-cases (leb max_runs (length runs))) [
  | inl b ↦ rw b (omega (arith, length-drop 1 runs, few), All-drop (IsKept next) 1 runs kept)
  | inr b ↦ rw b (leb-false max_runs (length runs) b, kept)
]

length-insert-le :
    (k : String) (es : List Event) (d : Dict (List Event)) → length (insert k es d) ≤ suc (length d)
length-insert-le k es d = ground (arith, length-insert k es d)

length-insert_there :
    (k : String) (es : List Event) (d : Dict (List Event))
    → is_new (lookup k d) ≡ false
    → length (insert k es d) ≡ length d
length-insert_there k es d h =
    length-insert k es d ∙ ap (λ b. if b then suc (length d) else length d) h

with_run-Fits :
    (run_id : String) (next : ℕ) (runs : Dict (List Event))
    → Fits next runs
    → Fits next (with_run run_id runs)
unfolding with_run
with_run-Fits run_id next runs fits = elim (Bool-cases (is_new (lookup run_id runs))) [
  | inl b ↦
      let (room, kept) = made_room-Fits next runs fits in
      rw b (
        omega (arith, length-insert-le run_id [] (made_room runs), room),
        All-insert (IsKept next) run_id [] (made_room runs) (tt, omega arith) kept,
      )
  | inr b ↦ rw b fits
]

with_run-there :
    (run_id : String) (runs : Dict (List Event))
    → is_new (lookup run_id (with_run run_id runs)) ≡ false
unfolding with_run
with_run-there run_id runs = elim (Bool-cases (is_new (lookup run_id runs))) [
  | inl b ↦
      rw b (ap is_new (lookup-insert run_id run_id [] (made_room runs)) ∙ rw (eq_refl run_id) refl)
  | inr b ↦ rw b b
]

entries-IsKept :
    (run_id : String) (next : ℕ) (runs : Dict (List Event))
    → All (λ r. IsKept next r.1) runs
    → IsKept next (entries_of (lookup run_id runs))
entries-IsKept run_id next runs kept = elim (Option-cases (lookup run_id runs)) [
  | inl e ↦ rw e (tt, omega arith)
  | inr (es, e) ↦ rw e (All-lookup (IsKept next) run_id runs e kept)
]

All-next :
    (next : ℕ) (runs : Dict (List Event))
    → All (λ r. IsKept next r.1) runs
    → All (λ r. IsKept (next + 1) r.1) runs
All-next next [] h = tt
All-next next (r ∷ runs) ((a, n), h) =
    ((next-weaken 0 next (next + 1) r.1 (omega arith) a, n), All-next next runs h)

publish_unless-IsBounded :
    (run_id event : String) (payload : Fields) (key : Option String) (runs : Dict (List Event))
    (next : ℕ) (found : Option ℕ)
    → is_new (lookup run_id runs) ≡ false
    → Fits next runs
    → IsBounded (publish_unless run_id event payload key runs next found).1
unfolding publish_unless
publish_unless-IsBounded run_id event payload key runs next (some id) there (few, kept) = record {
  few = few;
  kept = kept;
}
publish_unless-IsBounded run_id event payload key runs next none there (few, kept) =
    let es = entries_of (lookup run_id runs) in
    let e : Event = record { id = next; event = event; payload = payload; dedupe_key = key } in
    let new = trimmed (es ++ e ∷ []) in
    elim (Bool-cases (ltb max_sse_event_id next)) [
      | inl b ↦ rw b (record { few = few; kept = kept })
      | inr b ↦ rw b (record {
        few = omega (arith, length-insert_there run_id new runs there, few);
        kept =
            All-insert (IsKept (next + 1)) run_id new runs
              (trimmed-IsKept (next + 1) (es ++ e ∷ []) (
                AreAscending-append 0 next es e (omega arith) refl
                  (entries-IsKept run_id next runs kept).0))
              (All-next next runs kept);
      })
    ]

-- The arguments of a call of `_publish_agent_run_event`
pub record Published : Type 0 where
  pub run_id : String
  pub event : String
  pub payload : Fields
  pub dedupe_key : Option String

unfoldable pub publish_all : List Published → Buffer → Buffer
publish_all [] b = b
publish_all (p ∷ ps) b = publish_all ps (publish p.run_id p.event p.payload p.dedupe_key b).1

publish-IsBounded :
    (run_id event : String) (payload : Fields) (key : Option String) (b : Buffer)
    → IsBounded b
    → IsBounded (publish run_id event payload key b).1
unfolding publish
publish-IsBounded run_id event payload key b h =
    let runs = with_run run_id b.runs in
    publish_unless-IsBounded run_id event payload key runs b.next_event_id
      (find_key key (entries_of (lookup run_id runs))) (with_run-there run_id b.runs)
      (with_run-Fits run_id b.next_event_id b.runs (h.few, h.kept))

-- Through any calls that publish an event, repeated ones and ones that fail for want of an id
-- included: the buffer holds at most 512 runs and at most 2000 events of each, the ids of a run's
-- events grow, and they are all below the next id.
pub publish_all-IsBounded :
    (ps : List Published) (b : Buffer) → IsBounded b → IsBounded (publish_all ps b)
unfolding publish_all
publish_all-IsBounded [] b h = h
publish_all-IsBounded (p ∷ ps) b h =
    publish_all-IsBounded ps (publish p.run_id p.event p.payload p.dedupe_key b).1
      (publish-IsBounded p.run_id p.event p.payload p.dedupe_key b h)
