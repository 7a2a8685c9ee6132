-- ===== src/Clarifications/Answers.antt =====
-- What becomes of one question of src/xpd_report_agent/runtime/hermes_clarify.py: it is answered at
-- most once, and the waiting worker gets that answer.
use xpd_report_agent.Prelude.{
  All, String, ◌≡◌, refl, ◌∙◌, ◌≢◌, Bool, true, not, ◌&&◌, Option, none, some, List, [], ◌∷◌, arith,
  str_eq, eq_iff, eq_refl, if◌then◌else◌,
}
use xpd_report_agent.Prelude.Dict.{lookup, lookup-insert, lookup-remove}
use xpd_report_agent.Clarifications.Calls.{
  Call, call_create, call_discard, call_expire_session, call_wait, call_answer, perform,
  perform_all,
}
use xpd_report_agent.Clarifications.Registry.{
  answered, is_pending, is_open, is_owned, expire, accept, lapse, PendingClarification, Registry,
  created, create, discard, expire_session, outcome, wait_found, wait, reply_answered, Answer,
  answer_found, answer_question,
}

-- What `expire_session` makes of one entry.
abbrev pub expire_owned :
    String → String → Option PendingClarification → Option PendingClarification
expire_owned session owner none = none
expire_owned session owner (some item) =
    if is_pending item.status && is_owned item session owner then some (expire item) else some item

pub lookup-expire_session :
    (session owner id : String) (d : Registry)
    → lookup id (expire_session session owner d).0 ≡ expire_owned session owner (lookup id d)
unfolding expire_session lookup
lookup-expire_session session owner id [] = refl
lookup-expire_session session owner id ((k, item) ∷ d) =
    ground (arith, lookup-expire_session session owner id d)

-- The question is gone or no longer pending.
abbrev pub is_closed : Option PendingClarification → Bool
is_closed none = true
is_closed (some item) = not (is_pending item.status)

expire_owned-closed :
    (session owner : String) (o : Option PendingClarification)
    → is_closed o ≡ true
    → expire_owned session owner o ≡ o
expire_owned-closed session owner none h = refl
expire_owned-closed session owner (some item) h = ground arith

-- The call neither waits for the question, nor discards it, nor makes another under its id.
abbrev pub Spares : String → Call → Type 0
Spares id (call_create q) = (created q).clarification_id ≢ id
Spares id (call_discard j) = j ≢ id
Spares id (call_expire_session session owner) = Unit
Spares id (call_wait j) = j ≢ id
Spares id (call_answer a) = Unit

-- The call makes no question under the id.
abbrev pub Leaves : String → Call → Type 0
Leaves id (call_create q) = (created q).clarification_id ≢ id
Leaves id _ = Unit

wait_found-0 :
    (j : String) (d : Registry) (o : Option PendingClarification)
    → lookup j d ≡ o
    → (id : String) → lookup id (wait_found j d o).0 ≡ (if str_eq j id then none else lookup id d)
unfolding wait_found
wait_found-0 j d none h id = ground (arith, eq_iff j id)
wait_found-0 j d (some item) h id = lookup-remove j id d

pub lookup-wait :
    (j id : String) (d : Registry)
    → lookup id (wait j d).0 ≡ (if str_eq j id then none else lookup id d)
unfolding wait
lookup-wait j id d = wait_found-0 j d (lookup j d) refl id

-- An answer changes at most the entry that it names, and that only if it is pending.
answer_found-stays :
    (a : Answer) (id : String) (d : Registry) (o : Option PendingClarification)
    → lookup a.clarification_id d ≡ o
    → is_closed (lookup id d) ≡ true
    → lookup id (answer_found a d o).0 ≡ lookup id d
unfolding answer_found
answer_found-stays a id d none h c = refl
answer_found-stays a id d (some item) h c = ground (
  arith,
  eq_iff a.clarification_id id,
  lookup-insert a.clarification_id id (lapse item) d,
  lookup-insert a.clarification_id id (accept a.text item) d,
)

answer_question-stays :
    (a : Answer) (id : String) (d : Registry)
    → is_closed (lookup id d) ≡ true
    → lookup id (answer_question a d).0 ≡ lookup id d
unfolding answer_question
answer_question-stays a id d = answer_found-stays a id d (lookup a.clarification_id d) refl

expire_session-stays :
    (session owner id : String) (d : Registry)
    → is_closed (lookup id d) ≡ true
    → lookup id (expire_session session owner d).0 ≡ lookup id d
expire_session-stays session owner id d c =
    lookup-expire_session session owner id d ∙ expire_owned-closed session owner (lookup id d) c

perform-stays :
    (c : Call) (id : String) (d : Registry)
    → is_closed (lookup id d) ≡ true
    → Spares id c
    → lookup id (perform c d) ≡ lookup id d
unfolding perform create discard
perform-stays (call_create q) id d h s = ground (
  arith,
  eq_iff (created q).clarification_id id,
  lookup-insert (created q).clarification_id id (created q) d,
)
perform-stays (call_discard j) id d h s = ground (arith, eq_iff j id, lookup-remove j id d)
perform-stays (call_expire_session session owner) id d h s =
    expire_session-stays session owner id d h
perform-stays (call_wait j) id d h s = ground (arith, eq_iff j id, lookup-wait j id d)
perform-stays (call_answer a) id d h s = answer_question-stays a id d h

perform_all-stays :
    (cs : List Call) (id : String) (d : Registry)
    → is_closed (lookup id d) ≡ true
    → All (Spares id) cs
    → lookup id (perform_all cs d) ≡ lookup id d
unfolding perform_all
perform_all-stays [] id d h s = refl
perform_all-stays (c ∷ cs) id d h (s, ss) =
    let step = perform-stays c id d h s in
    perform_all-stays cs id (perform c d) (rw step h) ss ∙ step

perform-closed :
    (c : Call) (id : String) (d : Registry)
    → is_closed (lookup id d) ≡ true
    → Leaves id c
    → is_closed (lookup id (perform c d)) ≡ true
unfolding perform create discard
perform-closed (call_create q) id d h s = rw (perform-stays (call_create q) id d h s) h
perform-closed (call_discard j) id d h s = ground (arith, lookup-remove j id d)
perform-closed (call_expire_session session owner) id d h s =
    rw (expire_session-stays session owner id d h) h
perform-closed (call_wait j) id d h s = ground (arith, lookup-wait j id d)
perform-closed (call_answer a) id d h s = rw (answer_question-stays a id d h) h

perform_all-closed :
    (cs : List Call) (id : String) (d : Registry)
    → is_closed (lookup id d) ≡ true
    → All (Leaves id) cs
    → is_closed (lookup id (perform_all cs d)) ≡ true
unfolding perform_all
perform_all-closed [] id d h s = h
perform_all-closed (c ∷ cs) id d h (s, ss) =
    perform_all-closed cs id (perform c d) (perform-closed c id d h s) ss

answer_found-accepted :
    (a : Answer) (d : Registry) (o : Option PendingClarification)
    → (answer_found a d o).1 ≡ reply_answered
    → (item : PendingClarification) × (o ≡ some item)
      × (is_open a.now item ≡ true)
      × (item.session_id ≡ a.session_id)
      × (item.owner_scope ≡ a.owner_scope)
      × (lookup a.clarification_id (answer_found a d o).0 ≡ some (accept a.text item))
unfolding answer_found
answer_found-accepted a d none h = cc
answer_found-accepted a d (some item) h = (
  item,
  refl,
  ground arith,
  ground (arith, eq_iff item.session_id a.session_id),
  ground (arith, eq_iff item.owner_scope a.owner_scope),
  ground (
    arith,
    eq_refl a.clarification_id,
    lookup-insert a.clarification_id a.clarification_id (accept a.text item) d,
  ),
)

-- An accepted answer comes from the owner's session, before the question expires, and to a pending
-- question; the registry then holds it as answered, with the text of the answer.
pub answer_question-accepted :
    (a : Answer) (d : Registry)
    → (answer_question a d).1 ≡ reply_answered
    → (item : PendingClarification) × (lookup a.clarification_id d ≡ some item)
      × (is_open a.now item ≡ true)
      × (item.session_id ≡ a.session_id)
      × (item.owner_scope ≡ a.owner_scope)
      × (lookup a.clarification_id (answer_question a d).0 ≡ some (accept a.text item))
unfolding answer_question
answer_question-accepted a d = answer_found-accepted a d (lookup a.clarification_id d)

wait_found-answered :
    (a : Answer) (d : Registry) (item : PendingClarification) (o : Option PendingClarification)
    → o ≡ some (accept a.text item)
    → (wait_found a.clarification_id d o).1 ≡ (answered, some a.text)
unfolding wait_found outcome
wait_found-answered a d item o h = rw h refl

-- After an accepted answer, and any calls that neither wait for that question, nor discard it, nor
-- make another under its id, the worker that waits for the question gets that answer.
pub wait-answer_question :
    (a : Answer) (d : Registry) (cs : List Call)
    → (answer_question a d).1 ≡ reply_answered
    → All (Spares a.clarification_id) cs
    → (wait a.clarification_id (perform_all cs (answer_question a d).0)).1 ≡ (answered, some a.text)
unfolding wait
wait-answer_question a d cs h s =
    let (item, _, _, _, _, e) = answer_question-accepted a d h in
    let d' = (answer_question a d).0 in
    let stays = perform_all-stays cs a.clarification_id d' (rw e refl) s in
    wait_found-answered a (perform_all cs d') item (lookup a.clarification_id (perform_all cs d'))
      (stays ∙ e)

-- After an accepted answer, and any calls that make no question under the same id, no further
-- answer to the question is accepted.
pub answer_question_once :
    (a b : Answer) (d : Registry) (cs : List Call)
    → (answer_question a d).1 ≡ reply_answered
    → a.clarification_id ≡ b.clarification_id
    → All (Leaves a.clarification_id) cs
    → (answer_question b (perform_all cs (answer_question a d).0)).1 ≢ reply_answered
answer_question_once a b d cs h same s again =
    let (item, _, _, _, _, e) = answer_question-accepted a d h in
    let d' = (answer_question a d).0 in
    let closed = perform_all-closed cs a.clarification_id d' (rw e refl) s in
    let (other, f, still, _, _, _) = answer_question-accepted b (perform_all cs d') again in
    ground arith
