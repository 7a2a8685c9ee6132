-- ===== src/AgentRuns/Calls/Create.antt =====
-- `create_or_get` of src/xpd_report_agent/api/agent_runs.py is idempotent under its key.
use xpd_report_agent.Prelude.{
  ap, ◌∙◌, String, ◌≡◌, ◌≢◌, refl, Bool, false, Option, none, some, arith, eq_iff, eq_refl,
}
use xpd_report_agent.Prelude.Dict.{Dict, lookup, insert, lookup-insert}
use xpd_report_agent.AgentRuns.Run.{
  >>=-eq-ok, Run, Entry, run, junk, Result, ok, err, idempotency_conflict,
}
use xpd_report_agent.AgentRuns.Validate.{
  validate_idempotency_key-eq, validate_identity-eq, request_digest, validate_idempotency_key,
  validate_identity, stable_run_id, Codec,
}
use xpd_report_agent.AgentRuns.File.{load-stored, File, Env, load, save}
use xpd_report_agent.AgentRuns.Store.{
  Request, Checked, new_run, check_request, create_found, create_or_get,
}

-- What a successful call leaves: the checked request, and the run under its id with its digest.
pub record Created (c : Codec) (q : Request) (f : File) (r : Run) : Type 0 where
  pub checked : Checked
  pub accepted : check_request c q ≡ ok checked
  pub runs : Dict Entry
  pub loaded : load f ≡ ok runs
  pub found : lookup checked.run_id runs ≡ some (run r)
  pub hash : r.request_hash ≡ checked.request_hash

inserted-Created :
    (c : Codec) (e : Env) (q : Request) (k : Checked) (f : File) (runs : Dict Entry) {r : Run}
    {b : Bool} {f' : File}
    → check_request c q ≡ ok k
    → create_found e k.run_id (new_run e k) f runs none ≡ ok ((r, b), f')
    → Created c q f' r
unfolding create_found save
inserted-Created c e q k f runs a h = record {
  checked = k;
  accepted = a;
  runs = insert k.run_id (run (new_run e k)) runs;
  loaded = ground (arith, load-stored (insert k.run_id (run (new_run e k)) runs));
  found =
      ground (arith, lookup-insert k.run_id k.run_id (run (new_run e k)) runs, eq_refl k.run_id);
  hash = ground arith;
}

create_found-Created :
    (c : Codec) (e : Env) (q : Request) (k : Checked) (f : File) (runs : Dict Entry)
    (o : Option Entry) {r : Run} {b : Bool} {f' : File}
    → check_request c q ≡ ok k
    → load f ≡ ok runs
    → lookup k.run_id runs ≡ o
    → create_found e k.run_id (new_run e k) f runs o ≡ ok ((r, b), f')
    → Created c q f' r
unfolding create_found
create_found-Created c e q k f runs (some (run x)) a l o h = record {
  checked = k;
  accepted = a;
  runs = runs;
  loaded = ground arith;
  found = ground arith;
  hash = ground (arith, eq_iff x.request_hash k.request_hash);
}
create_found-Created c e q k f runs none a l o h = inserted-Created c e q k f runs a h
create_found-Created c e q k f runs (some (junk v)) a l o h = inserted-Created c e q k f runs a h

create_or_get-Created :
    (c : Codec) (e : Env) (q : Request) (f : File) {r : Run} {b : Bool} {f' : File}
    → create_or_get c e q f ≡ ok ((r, b), f')
    → Created c q f' r
unfolding create_or_get
create_or_get-Created c e q f h =
    let (k, a, h') = >>=-eq-ok (check_request c q) _ h in
    let (runs, l, h'') = >>=-eq-ok (load f) _ h' in
    create_found-Created c e q k f runs (lookup k.run_id runs) a l refl h''

abbrev id_of : Result Checked → Result String
id_of (ok k) = ok k.run_id
id_of (err x) = err x

check_request-stable_run_id :
    (c : Codec) (q : Request) {k : Checked}
    → check_request c q ≡ ok k
    → stable_run_id c q.owner_scope q.session_id q.idempotency_key ≡ ok k.run_id
unfolding check_request
check_request-stable_run_id c q h =
    let (scope, p, h1) = >>=-eq-ok (validate_identity q.owner_scope) _ h in
    let (session, p', h2) = >>=-eq-ok (validate_identity q.session_id) _ h1 in
    let (key, p'', h3) = >>=-eq-ok (validate_idempotency_key (some q.idempotency_key)) _ h2 in
    let (caller, _, h4) = >>=-eq-ok (validate_idempotency_key _) _ h3 in
    let (d, _, h5) = >>=-eq-ok (request_digest c q.request) _ h4 in
    let (id, i, h6) = >>=-eq-ok (stable_run_id c scope session key) _ h5 in
    rw
      (
        ← validate_identity-eq q.owner_scope p,
        ← validate_identity-eq q.session_id p',
        ← validate_idempotency_key-eq q.idempotency_key p'',
      )
      (i ∙ ap id_of h6)

check_request-run_id :
    (c : Codec) (q q' : Request) {k k' : Checked}
    → q'.owner_scope ≡ q.owner_scope
    → q'.session_id ≡ q.session_id
    → q'.idempotency_key ≡ q.idempotency_key
    → check_request c q ≡ ok k
    → check_request c q' ≡ ok k'
    → k'.run_id ≡ k.run_id
check_request-run_id c q q' s i n a a' =
    cc (check_request-stable_run_id c q a, check_request-stable_run_id c q' a')

-- A call of `create_or_get` that returned a run, repeated with the same arguments on the file that
-- it left: the same run comes back, marked as not created, and the file does not change.
pub create_or_get-create_or_get :
    (c : Codec) (e e' : Env) (q : Request) (f : File) {r : Run} {b : Bool} {f' : File}
    → create_or_get c e q f ≡ ok ((r, b), f')
    → create_or_get c e' q f' ≡ ok ((r, false), f')
unfolding create_or_get create_found
create_or_get-create_or_get c e e' q f {r} h =
    let d = create_or_get-Created c e q f h in
    rw (d.accepted) (rw (d.loaded) (rw (d.found, d.hash, eq_refl)))

-- After a call that returned a run, a call with the same owner, session and key whose request has
-- another digest is refused as a conflict.
pub create_or_get_conflict :
    (c : Codec) (e e' : Env) (q q' : Request) (f : File) {r : Run} {b : Bool} {f' : File}
    {k' : Checked}
    → create_or_get c e q f ≡ ok ((r, b), f')
    → q'.owner_scope ≡ q.owner_scope
    → q'.session_id ≡ q.session_id
    → q'.idempotency_key ≡ q.idempotency_key
    → check_request c q' ≡ ok k'
    → k'.request_hash ≢ r.request_hash
    → create_or_get c e' q' f' ≡ err idempotency_conflict
unfolding create_or_get create_found
create_or_get_conflict c e e' q q' f {r} {k' = k'} h s i k a n =
    let d = create_or_get-Created c e q f h in
    let same_id = check_request-run_id c q q' s i k d.accepted a in
    rw a (
      rw (d.loaded) (rw (same_id, d.found) (ground (arith, eq_iff r.request_hash k'.request_hash))))
