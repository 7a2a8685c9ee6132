-- ===== src/Capacity/Limit.antt =====
-- What `_AgentCapacity` of src/xpd_report_agent/api/agent_capacity.py keeps, whatever its tasks do.
use xpd_report_agent.Prelude.{
  ℕ, zero, suc, ◌+◌, ◌≤◌, ◌≡◌, refl, ◌⊎◌, inl, inr, Bool, true, not, ◌||◌, Option, none, some, List,
  [], ◌∷◌, arith, ltb, ◌==◌, if◌then◌else◌, Bool-cases, Option-cases, length, filter,
}
use mathlib.Core.Path.{subst}
use mathlib.Core.Option.{some_inj}
use xpd_report_agent.Prelude.Result.{ok}
use xpd_report_agent.Capacity.Slots.{
  Phase, queued, holding, gone, is_queued, is_holding, LoopState, fresh_state, state_for_loop,
  Event, begin, acquire, cancel, release, change, acquired, cancelled, released, step, steps,
}

-- How much a task counts towards a phase.
abbrev weight : (Phase → Bool) → Phase → ℕ
weight q t = if q t then 1 else 0

abbrev pub number_of : (Phase → Bool) → List Phase → ℕ
number_of p ts = length (filter p ts)

-- The counters are those of the tasks, and the permits that are not free are held.
abbrev pub IsBalanced : LoopState → Type 0
IsBalanced s =
    (s.waiting ≡ number_of is_queued s.tasks)
    × (s.active ≡ number_of is_holding s.tasks)
    × (s.free + s.active ≡ s.limit)

change-number_of :
    (q from : Phase → Bool) (to : Phase) (n : ℕ) (ts : List Phase) {us : List Phase} (b : ℕ)
    → ((t : Phase) → from t ≡ true → weight q t ≡ b)
    → change from to n ts ≡ some us
    → number_of q us + b ≡ number_of q ts + weight q to
unfolding change
change-number_of q from to n [] b h e = cc
change-number_of q from to zero (t ∷ ts) b h e = elim (Bool-cases (from t)) [
  | inl f ↦
      subst (λ us. number_of q us + b ≡ number_of q (t ∷ ts) + weight q to) (some_inj.0 (rw f at e))
        (ground (arith, h t f))
  | inr f ↦ absurd (let e' = rw f at e in ground arith)
]
change-number_of q from to (suc n) (t ∷ ts) b h e = elim (Option-cases (change from to n ts)) [
  | inl f ↦ absurd (let e' = rw f at e in ground arith)
  | inr (vs, f) ↦
      subst (λ us. number_of q us + b ≡ number_of q (t ∷ ts) + weight q to) (some_inj.0 (rw f at e))
        (ground (arith, change-number_of q from to n ts b h f))
]

queued-holding : (t : Phase) → is_queued t ≡ true → weight is_holding t ≡ 0
queued-holding queued h = refl
queued-holding holding h = absurd (ground arith)
queued-holding gone h = refl

holding-queued : (t : Phase) → is_holding t ≡ true → weight is_queued t ≡ 0
holding-queued queued h = absurd (ground arith)
holding-queued holding h = refl
holding-queued gone h = refl

one : (q : Phase → Bool) (t : Phase) → q t ≡ true → weight q t ≡ 1
one q t h = rw h refl

acquired-IsBalanced :
    (s : LoopState) (o : Option (List Phase)) (n : ℕ) {s' : LoopState}
    → change is_queued holding n s.tasks ≡ o
    → acquired s o ≡ some s'
    → IsBalanced s
    → IsBalanced s'
unfolding acquired
acquired-IsBalanced s none n c h b = cc
acquired-IsBalanced s (some tasks) n c h (w, a, f) =
    let u = change-number_of is_queued is_queued holding n s.tasks 1 (one is_queued) c in
    let v = change-number_of is_holding is_queued holding n s.tasks 0 queued-holding c in
    elim (Bool-cases (ltb 0 s.free)) [
      | inr l ↦ absurd (let h' = rw l at h in ground arith)
      | inl l ↦ subst IsBalanced (some_inj.0 (rw l at h)) (ground arith, ground arith, ground arith)
    ]

cancelled-IsBalanced :
    (s : LoopState) (o : Option (List Phase)) (n : ℕ) {s' : LoopState}
    → change is_queued gone n s.tasks ≡ o
    → cancelled s o ≡ some s'
    → IsBalanced s
    → IsBalanced s'
unfolding cancelled
cancelled-IsBalanced s none n c h b = cc
cancelled-IsBalanced s (some tasks) n c h (w, a, f) =
    let u = change-number_of is_queued is_queued gone n s.tasks 1 (one is_queued) c in
    let v = change-number_of is_holding is_queued gone n s.tasks 0 queued-holding c in
    subst IsBalanced (some_inj.0 h) (ground arith, ground arith, ground arith)

released-IsBalanced :
    (s : LoopState) (o : Option (List Phase)) (n : ℕ) {s' : LoopState}
    → change is_holding gone n s.tasks ≡ o
    → released s o ≡ some s'
    → IsBalanced s
    → IsBalanced s'
unfolding released
released-IsBalanced s none n c h b = cc
released-IsBalanced s (some tasks) n c h (w, a, f) =
    let u = change-number_of is_queued is_holding gone n s.tasks 0 holding-queued c in
    let v = change-number_of is_holding is_holding gone n s.tasks 1 (one is_holding) c in
    subst IsBalanced (some_inj.0 h) (ground arith, ground arith, ground arith)

step-IsBalanced :
    (e : Event) (s : LoopState) {s' : LoopState} → step e s ≡ some s' → IsBalanced s → IsBalanced s'
unfolding step
step-IsBalanced begin s h (w, a, f) =
    subst IsBalanced (some_inj.0 h) (ground arith, ground arith, ground arith)
step-IsBalanced (acquire n) s h b =
    acquired-IsBalanced s (change is_queued holding n s.tasks) n refl h b
step-IsBalanced (cancel n) s h b =
    cancelled-IsBalanced s (change is_queued gone n s.tasks) n refl h b
step-IsBalanced (release n) s h b =
    released-IsBalanced s (change is_holding gone n s.tasks) n refl h b

steps-IsBalanced :
    (es : List Event) (s : LoopState) {s' : LoopState}
    → steps es s ≡ some s'
    → IsBalanced s
    → IsBalanced s'
unfolding steps
steps-IsBalanced [] s h b = subst IsBalanced (some_inj.0 h) b
steps-IsBalanced (e ∷ es) s h b = elim (Option-cases (step e s)) [
  | inl f ↦ absurd (let h' = rw (f, steps) at h in ground arith)
  | inr (t, f) ↦ steps-IsBalanced es t (rw (f, steps) at h) (step-IsBalanced e s f b)
]

-- After any possible steps of the calls of `slot` on a loop, entries, cancellations and exits in any
-- order: the counters are those of the calls that wait and that hold a slot, no more hold one than
-- the limit, and where none holds one, every permit is free again.
pub steps_bounded :
    (loop limit : ℕ) (es : List Event) {s : LoopState}
    → steps es (fresh_state loop limit) ≡ some s
    → (s.waiting ≡ number_of is_queued s.tasks)
      × (s.active ≡ number_of is_holding s.tasks)
      × (number_of is_holding s.tasks ≤ s.limit)
      × (number_of is_holding s.tasks ≡ 0 → s.free ≡ s.limit)
unfolding fresh_state
steps_bounded loop limit es h =
    let (w, a, f) = steps-IsBalanced es (fresh_state loop limit) h (refl, refl, omega arith) in
    (w, a, omega arith, λ z. omega arith)

-- A call on another loop is let in only if the old loop is closed and nothing runs or waits on it;
-- the limit then starts anew. On its own loop a call meets the state as it is.
state_for_loop_lem :
    (closed : ℕ → Bool) (loop limit : ℕ) (s : LoopState) {s' : LoopState}
    → state_for_loop closed loop limit (some s) ≡ ok s'
    → ((s.loop ≡ loop) × (s' ≡ s))
      ⊎ ((closed s.loop ≡ true) × (s.active ≡ 0) × (s.waiting ≡ 0) × (s' ≡ fresh_state loop limit))
unfolding state_for_loop
state_for_loop_lem closed loop limit s h = elim (Bool-cases (s.loop == loop)) [
  | inl l ↦ let h' = rw l at h in inl (ground arith, cc)
  | inr l ↦ elim (Bool-cases (closed s.loop)) [
    | inr c ↦ absurd (let h' = rw c at (rw l at h) in ground arith)
    | inl c ↦ elim (Bool-cases (not (s.active == 0) || not (s.waiting == 0))) [
      | inl w ↦ absurd (let h' = rw w at (rw c at (rw l at h)) in ground arith)
      | inr w ↦ let h' = rw w at (rw c at (rw l at h)) in inr (c, ground arith, ground arith, cc)
    ]
  ]
]
