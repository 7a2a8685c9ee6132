-- ===== src/Clarifications/Sessions.antt =====
-- The registry of src/xpd_report_agent/runtime/hermes_clarify.py as a whole: its invariant, what
-- `expire_session` counts, and what a call of another session leaves alone.
use xpd_report_agent.Prelude.{
  All, ℕ, ◌+◌, String, ◌≡◌, refl, ◌∙◌, ◌≢◌, ◌⊎◌, inl, inr, Bool, true, false, not, ◌&&◌, Option,
  none, some, List, [], ◌∷◌, arith, leb, eq_iff, Bool-cases, length, filter,
}
use xpd_report_agent.Prelude.Dict.{
  lookup, lookup-insert, lookup-remove, All-insert, All-remove, All-lookup,
}
use xpd_report_agent.Clarifications.Answers.{lookup-expire_session, lookup-wait}
use xpd_report_agent.Clarifications.Calls.{
  Call, call_create, call_discard, call_expire_session, call_wait, call_answer, perform,
  perform_all,
}
use xpd_report_agent.Clarifications.Registry.{
  Status, pending, answered, expired, is_pending, is_owned, accept, lapse, PendingClarification,
  Registry, created, create, discard, expire_session, wait_found, wait, Answer, answer_found,
  answer_question,
}

-- A text is there exactly for an answered question, and the event is set exactly for one that is no
-- longer pending.
abbrev pub agrees : Status → Option String → Bool → Bool
agrees pending none ready = not ready
agrees pending (some text) ready = false
agrees answered none ready = false
agrees answered (some text) ready = ready
agrees expired none ready = ready
agrees expired (some text) ready = false

-- The entry stands under its own id, and its fields agree.
abbrev pub Agrees : String × PendingClarification → Type 0
Agrees e = (e.1.clarification_id ≡ e.0) × (agrees e.1.status e.1.answer e.1.ready ≡ true)

lapse-agrees :
    (s : Status) (t : Option String) (r : Bool)
    → agrees s t r ≡ true
    → is_pending s ≡ true
    → agrees expired t true ≡ true
lapse-agrees pending none r h p = refl
lapse-agrees pending (some t) r h p = h
lapse-agrees answered t r h p = absurd (ground arith)
lapse-agrees expired t r h p = absurd (ground arith)

expire_session-Agrees :
    (session owner : String) (d : Registry)
    → All Agrees d
    → All Agrees (expire_session session owner d).0
unfolding expire_session
expire_session-Agrees session owner [] h = tt
expire_session-Agrees session owner ((k, item) ∷ d) ((e, a), hs) =
    let rest = expire_session-Agrees session owner d hs in
    elim (Bool-cases (is_pending item.status && is_owned item session owner)) [
      | inl b ↦ rw b ((e, refl), rest)
      | inr b ↦ rw b ((e, a), rest)
    ]

answer_found-Agrees :
    (a : Answer) (d : Registry) (o : Option PendingClarification)
    → lookup a.clarification_id d ≡ o
    → All Agrees d
    → All Agrees (answer_found a d o).0
unfolding answer_found
answer_found-Agrees a d none h hs = hs
answer_found-Agrees a d (some item) h hs =
    let (same, agree) = All-lookup Agrees a.clarification_id d hs h in
    elim (Bool-cases (is_owned item a.session_id a.owner_scope)) [
      | inr b ↦ rw b hs
      | inl b ↦ elim (Bool-cases (is_pending item.status)) [
        | inr p ↦ rw b (rw p hs)
        | inl p ↦ elim (Bool-cases (leb item.expires_at a.now)) [
          | inl l ↦ rw b (
              rw p (
                rw l (
                  All-insert Agrees a.clarification_id (lapse item) d hs
                    (same, lapse-agrees item.status item.answer item.ready agree p))))
          | inr l ↦ rw b (
              rw p (
                rw l (All-insert Agrees a.clarification_id (accept a.text item) d hs (same, refl))))
        ]
      ]
    ]

wait_found-Agrees :
    (id : String) (d : Registry) (o : Option PendingClarification)
    → All Agrees d
    → All Agrees (wait_found id d o).0
unfolding wait_found
wait_found-Agrees id d none hs = hs
wait_found-Agrees id d (some item) hs = All-remove Agrees id d hs

perform-Agrees : (c : Call) (d : Registry) → All Agrees d → All Agrees (perform c d)
unfolding perform create discard wait answer_question created
perform-Agrees (call_create q) d hs =
    All-insert Agrees (created q).clarification_id (created q) d hs (refl, refl)
perform-Agrees (call_discard j) d hs = All-remove Agrees j d hs
perform-Agrees (call_expire_session session owner) d hs = expire_session-Agrees session owner d hs
perform-Agrees (call_wait j) d hs = wait_found-Agrees j d (lookup j d) hs
perform-Agrees (call_answer a) d hs = answer_found-Agrees a d (lookup a.clarification_id d) refl hs

-- Calls, in any order, keep every stored question under its own id, with an answer exactly if its
-- status is answered, and with its event set exactly if its status is not pending.
pub perform_all-Agrees :
    (cs : List Call) (d : Registry) → All Agrees d → All Agrees (perform_all cs d)
unfolding perform_all
perform_all-Agrees [] d hs = hs
perform_all-Agrees (c ∷ cs) d hs = perform_all-Agrees cs (perform c d) (perform-Agrees c d hs)

-- How many questions of the session are pending.
abbrev pub waiting : String → String → Registry → ℕ
waiting session owner d =
    length (filter (λ e. is_pending e.1.status && is_owned e.1 session owner) d)

abbrev pub waiting_all : Registry → ℕ
waiting_all d = length (filter (λ e. is_pending e.1.status) d)

-- `expire_session` returns how many questions of the session were pending; after it none of them
-- is, and the number of pending questions has fallen by just that.
pub expire_session_lem :
    (session owner : String) (d : Registry)
    → ((expire_session session owner d).1 ≡ waiting session owner d)
      × (waiting session owner (expire_session session owner d).0 ≡ 0)
      × (waiting_all (expire_session session owner d).0 + (expire_session session owner d).1
          ≡ waiting_all d)
unfolding expire_session
expire_session_lem session owner [] = (refl, refl, refl)
expire_session_lem session owner ((k, item) ∷ d) =
    let (a, b, c) = expire_session_lem session owner d in (ground arith, ground arith, ground arith)

-- The call names another question, or it is an answer or an `expire_session` of another owner or
-- session.
abbrev pub Foreign : String → PendingClarification → Call → Type 0
Foreign id item (call_create q) = (created q).clarification_id ≢ id
Foreign id item (call_discard j) = j ≢ id
Foreign id item (call_expire_session session owner) = is_owned item session owner ≡ false
Foreign id item (call_wait j) = j ≢ id
Foreign id item (call_answer a) =
    (a.clarification_id ≢ id) ⊎ (is_owned item a.session_id a.owner_scope ≡ false)

answer_found-isolated :
    (a : Answer) (id : String) (item : PendingClarification) (d : Registry)
    (o : Option PendingClarification)
    → lookup a.clarification_id d ≡ o
    → lookup id d ≡ some item
    → ((a.clarification_id ≢ id) ⊎ (is_owned item a.session_id a.owner_scope ≡ false))
    → lookup id (answer_found a d o).0 ≡ some item
unfolding answer_found
answer_found-isolated a id item d none h e f = e
answer_found-isolated a id item d (some other) h e (inl f) = ground (
  arith,
  eq_iff a.clarification_id id,
  lookup-insert a.clarification_id id (lapse other) d,
  lookup-insert a.clarification_id id (accept a.text other) d,
)
answer_found-isolated a id item d (some other) h e (inr f) = ground (
  arith,
  eq_iff a.clarification_id id,
  lookup-insert a.clarification_id id (lapse other) d,
  lookup-insert a.clarification_id id (accept a.text other) d,
)

-- A question stays as it is under an answer or an `expire_session` of another owner or session, and
-- under an answer, a `wait`, a `discard` or a `create` whose id is another.
pub perform_isolated_session :
    (c : Call) (id : String) (item : PendingClarification) (d : Registry)
    → lookup id d ≡ some item
    → Foreign id item c
    → lookup id (perform c d) ≡ some item
unfolding perform create discard answer_question
perform_isolated_session (call_create q) id item d e f = ground (
  arith,
  eq_iff (created q).clarification_id id,
  lookup-insert (created q).clarification_id id (created q) d,
)
perform_isolated_session (call_discard j) id item d e f =
    ground (arith, eq_iff j id, lookup-remove j id d)
perform_isolated_session (call_expire_session session owner) id item d e f =
    lookup-expire_session session owner id d ∙ rw e (rw f (ground arith))
perform_isolated_session (call_wait j) id item d e f =
    ground (arith, eq_iff j id, lookup-wait j id d)
perform_isolated_session (call_answer a) id item d e f =
    answer_found-isolated a id item d (lookup a.clarification_id d) refl e f
