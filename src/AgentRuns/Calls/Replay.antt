-- ===== src/AgentRuns/Calls/Replay.antt =====
-- `resume_with_input` and `replay_input` of src/xpd_report_agent/api/agent_runs.py: a repeated
-- answer returns the run and changes nothing, another answer under the same key is a conflict.
use mathlib.Core.Path.{ap}
use xpd_report_agent.Prelude.{
  if◌then◌else◌, ◌∙◌, String, ◌≡◌, ◌≢◌, refl, Bool, true, false, Option, some, arith, str_eq,
  eq_iff, eq_refl,
}
use xpd_report_agent.Prelude.Json.{Json, ℤ}
use xpd_report_agent.AgentRuns.Run.{
  bind_elim, Run, ok, err, ◌>>=◌, idempotency_conflict, value_error, guard,
}
use xpd_report_agent.AgentRuns.Validate.{
  json_clone-eq, Codec, validate_identity, validate_idempotency_key, validate_identity-eq,
  validate_idempotency_key-eq, answer_digest, json_clone,
}
use xpd_report_agent.AgentRuns.File.{File, Env, load}
use xpd_report_agent.AgentRuns.Store.{
  owned_run, resume_found, resume_with_input, replay_input, is_list, nonnegative,
}
use xpd_report_agent.AgentRuns.Calls.Answer.{Accepted, Outcome, found-Outcome}

-- A call that returns a run went through its checks.
pub resume_with_input-Outcome :
    (c : Codec) (e : Env) (key reply : String) (n : ℤ) (ids : Json) (id scope : String) (f : File)
    {r : Run} {b : Bool} {f' : File} {hash text : String}
    → answer_digest c reply ≡ ok (hash, text)
    → resume_with_input c e key reply n ids id scope f ≡ ok ((some r, b), f')
    → Outcome key hash id scope f r b f'
unfolding resume_with_input
resume_with_input-Outcome c e key reply n ids id scope f {hash = hash} {text = text} a h =
    bind_elim (validate_identity scope) _ h λ s p h1.
      bind_elim (validate_idempotency_key (some key)) _ h1 λ k p' h2.
        bind_elim (answer_digest c reply) _ h2 λ d a' h3.
          bind_elim (json_clone ids) _ h3 λ ids' _ h4.
            bind_elim (guard (is_list ids') value_error) _ h4 λ _ _ h5.
              bind_elim (load f) _ h5 λ runs l h6.
                let e1 : d ≡ (hash, text) = ground arith in
                found-Outcome e key hash text id scope (nonnegative n) ids' f runs
                  (owned_run runs id scope) l refl
                  (rw (validate_identity-eq scope p, validate_idempotency_key-eq key p', e1) at h6)

-- The checks that a call passed.
record Passed (key scope : String) (ids : Json) : Type 0 where
  identity : validate_identity scope ≡ ok scope
  valid_key : validate_idempotency_key (some key) ≡ ok key
  list : json_clone ids ≡ ok ids
  is_array : is_list ids ≡ true

resume_with_input-Passed :
    (c : Codec) (e : Env) (key reply : String) (n : ℤ) (ids : Json) (id scope : String) (f : File)
    {v : (Option Run × Bool) × File}
    → resume_with_input c e key reply n ids id scope f ≡ ok v
    → Passed key scope ids
unfolding resume_with_input
resume_with_input-Passed c e key reply n ids id scope f h =
    bind_elim (validate_identity scope) _ h λ s p h1.
      bind_elim (validate_idempotency_key (some key)) _ h1 λ k p' h2.
        bind_elim (answer_digest c reply) _ h2 λ d a' h3.
          bind_elim (json_clone ids) _ h3 λ ids' i h4.
            bind_elim (guard (is_list ids') value_error) _ h4 λ _ g _. record {
              identity = p ∙ ap ok (validate_identity-eq scope p);
              valid_key = p' ∙ ap ok (validate_idempotency_key-eq key p');
              list = i ∙ ap ok (json_clone-eq ids i);
              is_array = let e1 = json_clone-eq ids i in ground arith;
            }

module _ (c : Codec) (e : Env) (key reply id scope : String) (n : ℤ) (ids : Json) (f : File)
    {r : Run} {hash hash' text' : String} (a : answer_digest c reply ≡ ok (hash', text'))
    (q : Accepted key hash id scope r f) where
  resume-Accepted :
      Passed key scope ids
      → resume_with_input c e key reply n ids id scope f
        ≡ (if str_eq hash hash' then ok ((some r, false), f) else err idempotency_conflict)
  unfolding resume_with_input resume_found
  resume-Accepted p = rw p.identity (
      rw p.valid_key (
        rw a (
          rw p.list (
            rw p.is_array (
              rw q.loaded
                (rw q.found (rw (q.answered.found, resume_found) (rw q.answered.same))))))))

  replay-Accepted :
      Passed key scope ids
      → replay_input c key reply id scope f
        ≡ (if str_eq hash hash' then ok (some r) else err idempotency_conflict)
  unfolding replay_input
  replay-Accepted p = rw p.identity (
      rw p.valid_key
        (rw a (rw q.loaded (rw (q.found, ◌>>=◌) (rw q.answered.found (rw q.answered.same))))))

module _ (c : Codec) (e : Env) (key reply : String) (n : ℤ) (ids : Json) (id scope : String)
    (f : File) {r : Run} {b : Bool} {f' : File} {hash text : String}
    (a : answer_digest c reply ≡ ok (hash, text))
    (h : resume_with_input c e key reply n ids id scope f ≡ ok ((some r, b), f')) where
  -- A call of `resume_with_input` that returned a run can be repeated: on the file that it left, the
  -- same key, answer and artifact ids return the same run, not accepted anew, and change nothing;
  -- and `replay_input` returns the run.
  pub resume_with_input_again :
      (e' : Env) (n' : ℤ)
      → (resume_with_input c e' key reply n' ids id scope f' ≡ ok ((some r, false), f'))
        × (replay_input c key reply id scope f' ≡ ok (some r))
  resume_with_input_again e' n' =
      let p = resume_with_input-Passed c e key reply n ids id scope f h in
      let o = resume_with_input-Outcome c e key reply n ids id scope f a h in
      (
        resume-Accepted c e' key reply id scope n' ids f' a o.accepted p ∙ rw eq_refl,
        replay-Accepted c e' key reply id scope n' ids f' a o.accepted p ∙ rw eq_refl,
      )

  -- Another answer under the key of an accepted one is a conflict, to `resume_with_input` and to
  -- `replay_input`.
  pub resume_with_input_conflict :
      (e' : Env) (n' : ℤ) (reply' : String) {hash' text' : String}
      → answer_digest c reply' ≡ ok (hash', text')
      → hash' ≢ hash
      → (resume_with_input c e' key reply' n' ids id scope f' ≡ err idempotency_conflict)
        × (replay_input c key reply' id scope f' ≡ err idempotency_conflict)
  resume_with_input_conflict e' n' reply' {hash' = hash'} a' d =
      let p = resume_with_input-Passed c e key reply n ids id scope f h in
      let o = resume_with_input-Outcome c e key reply n ids id scope f a h in
      let b : str_eq hash hash' ≡ false = ground (arith, eq_iff hash hash') in
      (
        resume-Accepted c e' key reply' id scope n' ids f' a' o.accepted p ∙ rw b,
        replay-Accepted c e' key reply' id scope n' ids f' a' o.accepted p ∙ rw b,
      )
