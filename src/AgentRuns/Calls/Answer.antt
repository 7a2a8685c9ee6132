-- ===== src/AgentRuns/Calls/Answer.antt =====
-- `resume_with_input` and `replay_input` of src/xpd_report_agent/api/agent_runs.py: an answer is
-- accepted once under its key.
use mathlib.Core.Path.{sym, ap, subst}
use xpd_report_agent.Prelude.{
  ◌∙◌, ℕ, String, ◌≡◌, refl, inl, inr, Bool, true, false, Option, none, some, arith, eq_iff,
  eq_refl, Option-cases,
}
use xpd_report_agent.Prelude.Dict.{Dict, insert, lookup-insert}
use xpd_report_agent.Prelude.Json.{Json}
use xpd_report_agent.AgentRuns.Run.{
  Result-cases, pending, waiting_input, Run, Entry, run, ok, owned, run_retry_attempt_count,
  Receipt, Clarification,
}
use xpd_report_agent.AgentRuns.File.{File, Env, load, save, stored, load-stored}
use xpd_report_agent.AgentRuns.Updates.{resume_update, receipt_of, resumed}
use xpd_report_agent.AgentRuns.Store.{owned_run, resume_found}
use xpd_report_agent.AgentRuns.History.Lookup.{run_at, owned_run-run_at}

-- What an accepted answer leaves in the run.
pub record Answered (key hash : String) (r : Run) : Type 0 where
  pub receipt : Receipt
  pub found : receipt_of r key ≡ some receipt
  pub same : receipt.answer_hash ≡ hash

-- What the first acceptance of an answer does.
pub record Resumed (key hash : String) (x r : Run) : Type 0 where
  pub was : x.status ≡ waiting_input
  pub unused : receipt_of x key ≡ none
  pub now : r.status ≡ pending
  pub epoch : run_retry_attempt_count r ≡ 0
  pub attempts : r.attempt_count ≡ x.attempt_count
  pub owner : r.owner_scope ≡ x.owner_scope
  pub answered : Answered key hash r

resumed-Resumed :
    (e : Env) (key hash reply t : String) (n : ℕ) (ids : Json) (c : Clarification) (x : Run)
    → x.status ≡ waiting_input
    → receipt_of x key ≡ none
    → Resumed key hash x (record (resumed e key hash reply n ids c x) { updated_at = t })
unfolding run_retry_attempt_count
resumed-Resumed e key hash reply t n ids c x w u = record {
  was = w;
  unused = u;
  now = refl;
  epoch = omega arith;
  attempts = refl;
  owner = refl;
  answered = record {
    receipt = record {
      clarification_id = c.clarification_id;
      answer_hash = hash;
      accepted_at = e.clock 0;
    };
    found = rw (lookup-insert, eq_refl);
    same = refl;
  };
}

resume_update-Resumed :
    (e : Env) (key hash reply t : String) (n : ℕ) (ids : Json) (x : Run) {r : Run}
    → receipt_of x key ≡ none
    → resume_update e key hash reply n ids x ≡ ok r
    → Resumed key hash x (record r { updated_at = t })
unfolding resume_update
resume_update-Resumed e key hash reply t n ids x {r} u h = elim (Option-cases x.clarification) [
  | inl p ↦ absurd (ground arith)
  | inr (c, p) ↦
      let w : x.status ≡ waiting_input = ground arith in
      let q : resumed e key hash reply n ids c x ≡ r = ground arith in
      subst (λ (y : Run). Resumed key hash x (record y { updated_at = t })) q
        (resumed-Resumed e key hash reply t n ids c x w u)
]

-- What a call that returned a run leaves in the file.
pub record Accepted (key hash id scope : String) (r : Run) (f' : File) : Type 0 where
  pub runs : Dict Entry
  pub loaded : load f' ≡ ok runs
  pub found : owned_run runs id scope ≡ some r
  pub answered : Answered key hash r

owned_run-insert :
    (runs : Dict Entry) (id scope : String) (r : Run)
    → owned r scope ≡ true
    → owned_run (insert id (run r) runs) id scope ≡ some r
unfolding owned_run
owned_run-insert runs id scope r o = ground (arith, lookup-insert id id (run r) runs, eq_refl id)

owned-eq :
    (x r : Run) (scope : String)
    → r.owner_scope ≡ x.owner_scope
    → owned x scope ≡ true
    → owned r scope ≡ true
unfolding owned
owned-eq x r scope e o = rw e o

-- The first acceptance, from the run as it was.
pub record Fresh (key hash id scope : String) (f : File) (r : Run) : Type 0 where
  pub before : Run
  pub held : run_at f id ≡ some before
  pub resumed : Resumed key hash before r

-- What `resume_with_input` does where it returns a run: `b` tells whether the answer is new.
pub record Outcome (key hash id scope : String) (f : File) (r : Run) (b : Bool) (f' : File)
    : Type 0 where
  pub accepted : Accepted key hash id scope r f'
  pub fresh : b ≡ true → Fresh key hash id scope f r
  pub old : b ≡ false → f' ≡ f

module _ (e : Env) (key hash reply id scope : String) (n : ℕ) (ids : Json) (f : File)
    (runs : Dict Entry) (x : Run) where
  replayed-Outcome :
      {r : Run} {b : Bool} {f' : File} (p : Receipt)
      → load f ≡ ok runs
      → owned_run runs id scope ≡ some x
      → receipt_of x key ≡ some p
      → resume_found e key hash reply n ids id f runs (some x) ≡ ok ((some r, b), f')
      → Outcome key hash id scope f r b f'
  unfolding resume_found
  replayed-Outcome {r} {b} {f'} p l o q h =
      let h' = rw (q, resume_found) at h in
      let e1 : x ≡ r = ground arith in
      let e2 : f' ≡ f = ground arith in
      record {
        accepted = record {
          runs = runs;
          loaded = rw e2 l;
          found = o ∙ ap some e1;
          answered = record {
            receipt = p;
            found = ap (λ y. receipt_of y key) (sym e1) ∙ q;
            same = ground (arith, eq_iff p.answer_hash hash);
          };
        };
        fresh = λ t. absurd (ground arith);
        old = λ _. e2;
      }

  saved-Outcome :
      {r y : Run} {b : Bool} {f' : File}
      → load f ≡ ok runs
      → owned_run runs id scope ≡ some x
      → receipt_of x key ≡ none
      → resume_update e key hash reply n ids x ≡ ok y
      → resume_found e key hash reply n ids id f runs (some x) ≡ ok ((some r, b), f')
      → Outcome key hash id scope f r b f'
  unfolding resume_found save
  saved-Outcome {r} {y} {b} {f'} l o u k h =
      let h' = rw k at (rw (u, resume_found) at h) in
      let z : Run = record y { updated_at = e.clock 1 } in
      let e1 : z ≡ r = ground arith in
      let e2 : f' ≡ stored (insert id (run z) runs) = ground arith in
      let d = resume_update-Resumed e key hash reply (e.clock 1) n ids x u k in
      let held = owned_run-run_at f runs id scope l o in
      rw e2 (
        subst (λ w. Outcome key hash id scope f w b (stored (insert id (run z) runs))) e1
          (record {
            accepted = record {
              runs = insert id (run z) runs;
              loaded = load-stored _;
              found = owned_run-insert runs id scope z (owned-eq x z scope d.owner held.1);
              answered = d.answered;
            };
            fresh = λ _. record { before = x; held = held.0; resumed = d };
            old = λ t. absurd (ground arith);
          }))

pub found-Outcome :
    (e : Env) (key hash reply id scope : String) (n : ℕ) (ids : Json) (f : File) (runs : Dict Entry)
    (o : Option Run) {r : Run} {b : Bool} {f' : File}
    → load f ≡ ok runs
    → owned_run runs id scope ≡ o
    → resume_found e key hash reply n ids id f runs o ≡ ok ((some r, b), f')
    → Outcome key hash id scope f r b f'
unfolding resume_found
found-Outcome e key hash reply id scope n ids f runs none l o h = cc
found-Outcome e key hash reply id scope n ids f runs (some x) l o h =
    elim (Option-cases (receipt_of x key)) [
      | inr (p, q) ↦ replayed-Outcome e key hash reply id scope n ids f runs x p l o q h
      | inl q ↦ elim (Result-cases (resume_update e key hash reply n ids x)) [
        | inl (z, k) ↦ let h' = rw k at (rw (q, resume_found) at h) in cc
        | inr (y, k) ↦ saved-Outcome e key hash reply id scope n ids f runs x l o q k h
      ]
    ]
