-- ===== src/Reflections/Attempts.antt =====
-- The attempts of the jobs (src/xpd_report_agent/api/reflections.py).
use xpd_report_agent.Prelude.{
  any, All, ℕ, ◌≤◌, String, ◌≡◌, refl, inl, inr, Bool, true, not, ◌&&◌, ◌||◌, Option, none, some,
  List, [], ◌∷◌, arith, ◌==◌, str_eq, Bool-cases, length, filter,
}
use xpd_report_agent.Prelude.Dict.{Dict, lookup, All-lookup, All-insert}
use xpd_report_agent.Reflections.Queue.{
  Job, load_jobs, can_auto_run, Request, new_job, may_begin, begun, Failure, failed_with, goes_on,
  succeeded_with, closed, may_retry, retried, is_running,
}
use xpd_report_agent.Prelude.Json.{Json}
use xpd_report_agent.Reflections.Steps.{
  World, jobs, is_waiting, is_executing, spawn_if, write_job, schedule_found, begin_found,
  fail_found, succeed_found, retry_found, close_all, resume_pending, delete_for_session, Event,
  schedule, begin, fail, succeed, retry, resume, delete, step, steps,
}

module _ (m : ℕ) where
  abbrev pub IsWithin : String × Job → Type 0
  IsWithin e = e.1.attempt_count ≤ m

  abbrev pub AllWithin : World → Type 0
  AllWithin w = All IsWithin (jobs w)

  write-AllWithin :
      (k : String) (j : Job) (w : World)
      → AllWithin w
      → j.attempt_count ≤ m
      → AllWithin (write_job k j w)
  unfolding load_jobs
  write-AllWithin k j w h b = All-insert IsWithin k j (jobs w) h b

  spawn_if-AllWithin :
      (b : Bool) (k : String) (w : World) → AllWithin w → AllWithin (spawn_if b k w)
  unfolding spawn_if
  spawn_if-AllWithin b k w h = h

  module _ (disk : Bool) (k : String) (w : World) (h : AllWithin w) where
    found-within : {j : Job} → lookup k (jobs w) ≡ some j → j.attempt_count ≤ m
    found-within e = All-lookup IsWithin k (jobs w) h e

    schedule-AllWithin :
        (q : Request) (t : ℕ) (o : Option Job) → AllWithin (schedule_found m disk q t k o w)
    unfolding schedule_found new_job
    schedule-AllWithin q t (some j) = spawn_if-AllWithin (can_auto_run m j) k w h
    schedule-AllWithin q t none = elim (Bool-cases disk) [
      | inr b ↦ rw b h
      | inl b ↦ rw b (
          spawn_if-AllWithin (can_auto_run m (new_job q t)) k (write_job k (new_job q t) w)
            (write-AllWithin k (new_job q t) w h (omega arith)))
    ]

    begin-AllWithin : (o : Option Job) → AllWithin (begin_found m disk k o w)
    unfolding begin_found begun may_begin
    begin-AllWithin none = h
    begin-AllWithin (some j) = elim (Bool-cases (may_begin m j && disk)) [
      | inr b ↦ rw b h
      | inl b ↦ rw b (write-AllWithin k (begun j) w h (ground arith))
    ]

    fail-AllWithin :
        (e : Failure) (o : Option Job)
        → lookup k (jobs w) ≡ o
        → AllWithin (fail_found m disk e k o w)
    unfolding fail_found failed_with
    fail-AllWithin e none q = h
    fail-AllWithin e (some j) q =
        let written = write-AllWithin k (failed_with e j) w h (found-within q) in
        elim (Bool-cases disk) [
          | inr b ↦ rw b h
          | inl b ↦ elim (Bool-cases (goes_on m e j)) [
            | inl g ↦ rw b (rw g written)
            | inr g ↦ rw b (rw g written)
          ]
        ]

    succeed-AllWithin :
        (t : String) (r : Json) (o : Option Job)
        → lookup k (jobs w) ≡ o
        → AllWithin (succeed_found disk t r k o w)
    unfolding succeed_found succeeded_with
    succeed-AllWithin t r none q = h
    succeed-AllWithin t r (some j) q = elim (Bool-cases disk) [
      | inr b ↦ rw b h
      | inl b ↦ rw b (write-AllWithin k (succeeded_with t r j) w h (found-within q))
    ]

    retry-AllWithin : (o : Option Job) → AllWithin (retry_found disk k o w)
    unfolding retry_found retried
    retry-AllWithin none = h
    retry-AllWithin (some j) = elim (Bool-cases (may_retry j && disk)) [
      | inr b ↦ rw b h
      | inl b ↦ rw b (
          spawn_if-AllWithin true k (write_job k (retried j) w)
            (write-AllWithin k (retried j) w h (omega arith)))
    ]

  close_all-AllWithin : (d : Dict Job) → All IsWithin d → All IsWithin (close_all d)
  unfolding close_all closed
  close_all-AllWithin [] h = tt
  close_all-AllWithin ((k, j) ∷ d) (h, hs) = elim (Bool-cases (is_running j.status)) [
    | inl b ↦ rw b (h, close_all-AllWithin d hs)
    | inr b ↦ rw b (h, close_all-AllWithin d hs)
  ]

  filter-AllWithin :
      (p : String × Job → Bool) (d : Dict Job) → All IsWithin d → All IsWithin (filter p d)
  filter-AllWithin p [] h = tt
  filter-AllWithin p (e ∷ d) (h, hs) = elim (Bool-cases (p e)) [
    | inl b ↦ rw b (h, filter-AllWithin p d hs)
    | inr b ↦ rw b (filter-AllWithin p d hs)
  ]

  step-AllWithin :
      (digest : String → ℕ → String) (e : Bool × Event) (w : World)
      → AllWithin w
      → AllWithin (step digest m e w)
  unfolding step resume_pending delete_for_session load_jobs
  step-AllWithin digest (disk, schedule q t) w h =
      let k = digest q.session_id t in
      elim (Bool-cases (t == 0)) [
        | inl b ↦ rw b h
        | inr b ↦ rw b (schedule-AllWithin disk k w h q t (lookup k (jobs w)))
      ]
  step-AllWithin digest (disk, begin k) w h = elim (Bool-cases (is_waiting (lookup k w.tasks))) [
    | inl b ↦ rw b (begin-AllWithin disk k w h (lookup k (jobs w)))
    | inr b ↦ rw b h
  ]
  step-AllWithin digest (disk, fail e k) w h = elim (Bool-cases (is_executing (lookup k w.tasks))) [
    | inl b ↦ rw b (fail-AllWithin disk k w h e (lookup k (jobs w)) refl)
    | inr b ↦ rw b h
  ]
  step-AllWithin digest (disk, succeed t r k) w h =
      elim (Bool-cases (is_executing (lookup k w.tasks))) [
        | inl b ↦ rw b (succeed-AllWithin disk k w h t r (lookup k (jobs w)) refl)
        | inr b ↦ rw b h
      ]
  step-AllWithin digest (disk, retry k) w h = retry-AllWithin disk k w h (lookup k (jobs w))
  step-AllWithin digest (disk, resume) w h =
      let changed = any (λ e. is_running e.1.status) (jobs w) in
      elim (Bool-cases (changed && not disk)) [
        | inl b ↦ rw b h
        | inr b ↦ elim (Bool-cases changed) [
          | inl c ↦ rw b (rw c (close_all-AllWithin (jobs w) h))
          | inr c ↦ rw b (rw c h)
        ]
      ]
  step-AllWithin digest (disk, delete session) w h =
      let p : String × Job → Bool = λ e. not (str_eq e.1.session_id session) in
      elim (Bool-cases (length (filter p (jobs w)) == length (jobs w) || not disk)) [
        | inl b ↦ rw b h
        | inr b ↦ rw b (filter-AllWithin p (jobs w) h)
      ]

  -- If no job has more attempts than the maximum, none has after any calls and steps of tasks, in
  -- any order, with writes that fail included.
  pub steps-AllWithin :
      (digest : String → ℕ → String) (es : List (Bool × Event)) (w : World)
      → AllWithin w
      → AllWithin (steps digest m es w)
  unfolding steps
  steps-AllWithin digest [] w h = h
  steps-AllWithin digest (e ∷ es) w h =
      steps-AllWithin digest es (step digest m e w) (step-AllWithin digest e w h)
