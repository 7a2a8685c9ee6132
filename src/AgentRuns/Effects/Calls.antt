-- ===== src/AgentRuns/Effects/Calls.antt =====
-- The effect of each writing operation of src/xpd_report_agent/api/agent_runs.py.
use xpd_report_agent.Prelude.{
  ℕ, String, ◌≡◌, refl, inl, inr, true, Option, none, some, str_eq, Option-cases, Bool-cases,
}
use xpd_report_agent.Prelude.Dict.{Dict, lookup}
use xpd_report_agent.Prelude.Json.{ℤ, Json}
use xpd_report_agent.AgentRuns.Run.{
  value_error, Run, Entry, run, junk, Result, ok, guard, is_pending,
}
use xpd_report_agent.AgentRuns.Validate.{
  json_clone-eq, json_clone, answer_digest, validate_idempotency_key-eq, validate_idempotency_key,
  validate_identity-eq, Codec, validate_identity,
}
use xpd_report_agent.AgentRuns.File.{File, Env, load}
use xpd_report_agent.AgentRuns.Updates.{receipt_of, resume_update, started}
use xpd_report_agent.AgentRuns.Store.{
  check_request, Checked, Request, owned_run, new_run, create_found, create_or_get, update_owned,
  resume_found, is_list, nonnegative, update_found, claim_found, claim_pending, resume_with_input,
}
use xpd_report_agent.AgentRuns.Operations.{after}
use xpd_report_agent.AgentRuns.Effects.{
  Effect, same, moved, added, after-save, bind-Effect, found-Effect,
}

module _ {P : Run → Run → Type 0} {N : Run → Type 0} (e : Env) where
  pub update_owned-Effect :
      (update : Run → Result Run) (id scope : String) (f : File)
      → ((r r' : Run) → update r ≡ ok r' → P r (record r' { updated_at = e.clock 1 }))
      → Effect P N scope f (after f (update_owned e update id scope f))
  unfolding update_owned update_found
  update_owned-Effect update id scope f h =
      found-Effect id scope (update_found e update id f) (λ runs. same)
        λ runs r q o.
          bind-Effect (update r) _ λ r' u. after-save e _ _ (moved id runs r _ q o (h r r' u))

  pub claim_pending-Effect :
      (id scope : String) (f : File)
      → ((r : Run)
          → is_pending r.status ≡ true
          → P r (record (started e r) { updated_at = e.clock 0 }))
      → Effect P N scope f (after f (claim_pending e id scope f))
  unfolding claim_pending claim_found
  claim_pending-Effect id scope f h =
      found-Effect id scope (claim_found e id f) (λ runs. same)
        λ runs r q o. elim (Bool-cases (is_pending r.status)) [
          | inl u ↦ rw (u, after) (after-save e _ _ (moved id runs r _ q o (h r u)))
          | inr u ↦ rw (u, after) same
        ]

  resume_found-Effect :
      (key hash reply : String) (baseline : ℕ) (ids : Json) (id scope : String) (f : File)
      (runs : Dict Entry) (r : Run)
      → load f ≡ ok runs
      → owned_run runs id scope ≡ some r
      → ((r' : Run)
          → resume_update e key hash reply baseline ids r ≡ ok r'
          → P r (record r' { updated_at = e.clock 1 }))
      → Effect P N scope f (after f (resume_found e key hash reply baseline ids id f runs (some r)))
  unfolding resume_found
  resume_found-Effect key hash reply baseline ids id scope f runs r q o h =
      elim (Option-cases (receipt_of r key)) [
        | inr (receipt, p) ↦ elim (Bool-cases (str_eq receipt.answer_hash hash)) [
          | inl b ↦ rw (p, after) (rw b same)
          | inr b ↦ rw (p, after) (rw b same)
        ]
        | inl p ↦
            rw (p, after)
              (bind-Effect (resume_update e key hash reply baseline ids r) _
                λ r' u. after-save e _ _ (moved id runs r _ q o (h r' u)))
      ]

  pub resume_with_input-Effect :
      (c : Codec) (key reply : String) (baseline : ℤ) (ids : Json) (id scope : String) (f : File)
      → ((hash normalized : String) (n : ℕ) (r r' : Run)
          → resume_update e key hash normalized n ids r ≡ ok r'
          → P r (record r' { updated_at = e.clock 1 }))
      → Effect P N scope f (after f (resume_with_input c e key reply baseline ids id scope f))
  unfolding resume_with_input resume_found
  resume_with_input-Effect c key reply baseline ids id scope f h =
      bind-Effect (validate_identity scope) _ λ s p. rw (validate_identity-eq scope p) (
        bind-Effect (validate_idempotency_key (some key)) _ λ k p'.
          rw (validate_idempotency_key-eq key p') (
            bind-Effect (answer_digest c reply) _ λ d _. bind-Effect (json_clone ids) _ λ ids' i.
              rw (json_clone-eq ids i) (
                bind-Effect (guard (is_list ids) value_error) _ λ _ _.
                  bind-Effect (load f) _ λ runs q. elim (Option-cases (owned_run runs id scope)) [
                    | inl o ↦ rw (o, after) same
                    | inr (r, o) ↦
                        rw (o, after)
                          (resume_found-Effect key d.0 d.1 (nonnegative baseline) ids id scope f
                            runs r q o (h d.0 d.1 (nonnegative baseline) r))
                  ])))

  create_found-Effect :
      {scope : String} (id : String) (r : Run) (f : File) (runs : Dict Entry) (o : Option Entry)
      → load f ≡ ok runs
      → lookup id runs ≡ o
      → N r
      → Effect P N scope f (after f (create_found e id r f runs o))
  unfolding create_found
  create_found-Effect id r f runs none q o n = after-save e _ _ (added id runs r q (λ x p. cc) n)
  create_found-Effect id r f runs (some (junk v)) q o n =
      after-save e _ _ (added id runs r q (λ x p. cc) n)
  create_found-Effect id r f runs (some (run x)) q o n =
      elim (Bool-cases (str_eq x.request_hash r.request_hash)) [
        | inl b ↦ rw (b, after) same
        | inr b ↦ rw (b, after) same
      ]

  pub create_or_get-Effect :
      {scope : String} (c : Codec) (q : Request) (f : File)
      → ((k : Checked) → N (new_run e k))
      → Effect P N scope f (after f (create_or_get c e q f))
  unfolding create_or_get
  create_or_get-Effect c q f n = bind-Effect (check_request c q) _ λ k _.
      bind-Effect (load f) _ λ runs l.
        create_found-Effect k.run_id (new_run e k) f runs (lookup k.run_id runs) l refl (n k)
