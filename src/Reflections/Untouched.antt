-- ===== src/Reflections/Untouched.antt =====
-- What a step on one job leaves of another (src/xpd_report_agent/api/reflections.py).
use xpd_report_agent.Prelude.{
  ℕ, String, ◌≡◌, refl, ◌∙◌, inl, inr, Bool, true, false, ◌&&◌, Option, none, some, List, [], ◌∷◌,
  arith, str_eq, Bool-cases, Option-cases, length, filter,
}
use xpd_report_agent.Prelude.Dict.{Dict, lookup, lookup-insert, lookup-remove}
use xpd_report_agent.Prelude.Json.{Json}
use xpd_report_agent.Reflections.Queue.{
  Status, pending, running, succeeded, failed, other, is_running, is_failed, is_pending, Job,
  stored, load_jobs, can_auto_run, Request, new_job, may_begin, begun, Failure, failed_with,
  goes_on, succeeded_with, may_retry, retried,
}
use xpd_report_agent.Reflections.Steps.{
  Phase, waiting, executing, is_executing, World, jobs, spawn, spawn_all, spawn_if, task_done,
  write_job, schedule_found, begin_found, fail_found, succeed_found, retry_found,
}

-- How often the executor was called for the job.
abbrev pub calls_of : String → World → ℕ
calls_of id w = length (filter (λ k. str_eq k id) w.calls)

-- Neither the job nor the number of its calls has changed, and no executor has begun on it.
abbrev pub Untouched : String → World → World → Type 0
Untouched id w w' =
    (lookup id (jobs w') ≡ lookup id (jobs w))
    × (is_executing (lookup id w.tasks) ≡ false → is_executing (lookup id w'.tasks) ≡ false)
    × (calls_of id w' ≡ calls_of id w)

-- A failure after which nobody knows what was done.
abbrev pub IsUnknown : Job → Type 0
IsUnknown j = (is_failed j.status ≡ true) × (j.outcome_unknown ≡ true)

pub load-stored : (d : Dict Job) → load_jobs (stored d) ≡ d
unfolding load_jobs
load-stored d = refl

failed-not-pending : (s : Status) → is_failed s ≡ true → is_pending s ≡ false
failed-not-pending pending h = absurd (ground arith)
failed-not-pending running h = refl
failed-not-pending succeeded h = refl
failed-not-pending failed h = refl
failed-not-pending (other t) h = refl

pub failed-not-running : (s : Status) → is_failed s ≡ true → is_running s ≡ false
failed-not-running pending h = refl
failed-not-running running h = absurd (ground arith)
failed-not-running succeeded h = refl
failed-not-running failed h = refl
failed-not-running (other t) h = refl

unknown-can_auto_run : (m : ℕ) (j : Job) → IsUnknown j → can_auto_run m j ≡ false
unfolding can_auto_run
unknown-can_auto_run m j (f, u) =
    let p = failed-not-pending j.status f in let n = failed-not-running j.status f in ground arith

pub unknown-may_begin : (m : ℕ) (j : Job) → IsUnknown j → may_begin m j ≡ false
unfolding may_begin
unknown-may_begin m j (f, u) = ground (arith, unknown-can_auto_run m j (f, u))

pub unknown-may_retry : (j : Job) → IsUnknown j → may_retry j ≡ false
unfolding may_retry
unknown-may_retry j (f, u) = ground arith

spawn-executing :
    (k id : String) (t : Dict Phase)
    → is_executing (lookup id t) ≡ false
    → is_executing (lookup id (spawn k t)) ≡ false
unfolding spawn
spawn-executing k id t h = elim (Option-cases (lookup k t)) [
  | inl e ↦ rw (e, spawn) (ground (arith, lookup-insert k id waiting t))
  | inr (p, e) ↦ rw (e, spawn) h
]

pub spawn_all-executing :
    (ks : List String) (id : String) (t : Dict Phase)
    → is_executing (lookup id t) ≡ false
    → is_executing (lookup id (spawn_all ks t)) ≡ false
unfolding spawn_all
spawn_all-executing [] id t h = h
spawn_all-executing (k ∷ ks) id t h =
    spawn_all-executing ks id (spawn k t) (spawn-executing k id t h)

pub spawn_if-Untouched : (b : Bool) (k id : String) (w : World) → Untouched id w (spawn_if b k w)
unfolding spawn_if
spawn_if-Untouched true k id w = (refl, spawn-executing k id w.tasks, refl)
spawn_if-Untouched false k id w = (refl, λ h. h, refl)

pub task_done-Untouched : (k id : String) (w : World) → Untouched id w (task_done k w)
task_done-Untouched k id w = (refl, λ h. ground (arith, lookup-remove k id w.tasks), refl)

write_job-Untouched :
    (k id : String) (j : Job) (w : World) → str_eq k id ≡ false → Untouched id w (write_job k j w)
unfolding load_jobs
write_job-Untouched k id j w b = (ground (arith, lookup-insert k id j (jobs w)), λ h. h, refl)

Untouched-trans :
    (id : String) (u v w : World) → Untouched id u v → Untouched id v w → Untouched id u w
Untouched-trans id u v w (a, b, c) (a', b', c') = (a' ∙ a, λ h. b' (b h), c' ∙ c)

module _ (m : ℕ) (disk : Bool) (k id : String) (w : World) (differ : str_eq k id ≡ false) where
  pub begin_other : (o : Option Job) → Untouched id w (begin_found m disk k o w)
  unfolding begin_found
  begin_other none = task_done-Untouched k id w
  begin_other (some j) = elim (Bool-cases (may_begin m j && disk)) [
    | inr b ↦ rw b (task_done-Untouched k id w)
    | inl b ↦
        let (a, _, _) = write_job-Untouched k id (begun j) w differ in
        rw b (a, λ h. ground (arith, lookup-insert k id executing w.tasks), ground arith)
  ]

  pub fail_other : (e : Failure) (o : Option Job) → Untouched id w (fail_found m disk e k o w)
  unfolding fail_found
  fail_other e none = task_done-Untouched k id w
  fail_other e (some j) =
      let written = write_job-Untouched k id (failed_with e j) w differ in
      elim (Bool-cases disk) [
        | inr b ↦ rw b (task_done-Untouched k id w)
        | inl b ↦ elim (Bool-cases (goes_on m e j)) [
          | inl g ↦
              rw b (rw g (written.0, λ h. ground (arith, lookup-insert k id waiting w.tasks), refl))
          | inr g ↦ rw b (
              rw g (
                Untouched-trans id w (write_job k (failed_with e j) w) _ written
                  (task_done-Untouched k id (write_job k (failed_with e j) w))))
        ]
      ]

  pub succeed_other :
      (utc_now : String) (result : Json) (o : Option Job)
      → Untouched id w (succeed_found disk utc_now result k o w)
  unfolding succeed_found
  succeed_other utc_now result none = task_done-Untouched k id w
  succeed_other utc_now result (some j) =
      let after = write_job k (succeeded_with utc_now result j) w in
      elim (Bool-cases disk) [
        | inr b ↦ rw b (task_done-Untouched k id w)
        | inl b ↦ rw b (
            Untouched-trans id w after _
              (write_job-Untouched k id (succeeded_with utc_now result j) w differ)
              (task_done-Untouched k id after))
      ]

  pub retry_other : (o : Option Job) → Untouched id w (retry_found disk k o w)
  unfolding retry_found
  retry_other none = (refl, λ h. h, refl)
  retry_other (some j) =
      let after = write_job k (retried j) w in
      elim (Bool-cases (may_retry j && disk)) [
        | inr b ↦ rw b (refl, λ h. h, refl)
        | inl b ↦ rw b (
            Untouched-trans id w after _ (write_job-Untouched k id (retried j) w differ)
              (spawn_if-Untouched true k id after))
      ]

  pub schedule_other :
      (q : Request) (turn_end : ℕ) (o : Option Job)
      → Untouched id w (schedule_found m disk q turn_end k o w)
  unfolding schedule_found
  schedule_other q turn_end (some j) = spawn_if-Untouched (can_auto_run m j) k id w
  schedule_other q turn_end none =
      let after = write_job k (new_job q turn_end) w in
      elim (Bool-cases disk) [
        | inr b ↦ rw b (refl, λ h. h, refl)
        | inl b ↦ rw b (
            Untouched-trans id w after _ (write_job-Untouched k id (new_job q turn_end) w differ)
              (spawn_if-Untouched (can_auto_run m (new_job q turn_end)) k id after))
      ]
