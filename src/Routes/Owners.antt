-- ===== src/Routes/Owners.antt =====
-- How `node_id_for_session` and `node_id_for_scope` of src/xpd_report_agent/hermes_pool.py agree.
use mathlib.Core.Option.{some_inj}
use xpd_report_agent.Prelude.{
  drop, take, String, ◌≡◌, refl, sym, ap, inl, inr, Bool, true, false, ◌&&◌, some, arith,
  Bool-cases, Option-cases,
}
use xpd_report_agent.Prelude.Text.{chars, chars-of_chars}
use xpd_report_agent.Prelude.Dict.{lookup}
use xpd_report_agent.Prelude.Patterns.{
  owner_scope_from_session_id, is_owner_scope, behind, is_hex_block, is_tail,
}
use xpd_report_agent.Prelude.Result.{ok, ◌>>=◌}
use xpd_report_agent.Routes.Binding.{IsSticky}
use xpd_report_agent.Routes.Store.{
  State, RouteFile, missing, broken, routes, empty_state, load_state, if_any, or_else, owner_of,
  node_id_for_scope, node_id_for_session,
}
use xpd_report_agent.Routes.Sticky.{FileIsSticky}

behind-IsSticky :
    (session_id scope : String) (s : State)
    → owner_scope_from_session_id session_id ≡ some scope
    → IsSticky s
    → or_else (if_any (lookup session_id s.sessions)) (if_any (lookup scope s.scopes))
      ≡ if_any (lookup scope s.scopes)
behind-IsSticky session_id scope s owner st = elim (Option-cases (lookup session_id s.sessions)) [
  | inl e ↦ rw e refl
  | inr (v, e) ↦ let (ne, bound) = st session_id scope v owner e in rw e (rw bound (rw ne refl))
]

and_left : (a b : Bool) → (a && b) ≡ true → a ≡ true
and_left true b h = refl
and_left false b h = h

pub owner_scope-is_owner_scope :
    (session_id : String) {scope : String}
    → owner_scope_from_session_id session_id ≡ some scope
    → is_owner_scope scope ≡ true
unfolding owner_scope_from_session_id is_owner_scope
owner_scope-is_owner_scope session_id {scope} h =
    elim (Option-cases (behind (chars "xpd_") (chars session_id))) [
      | inl e ↦ absurd (let q = rw (e, owner_scope_from_session_id) at h in ground arith)
      | inr (t, e) ↦
          let q = rw (e, owner_scope_from_session_id) at h in
          elim (Bool-cases (is_hex_block 20 t && is_tail (drop 20 t))) [
            | inr b ↦ absurd (let q' = rw b at q in ground arith)
            | inl b ↦
                let q' = rw b at q in
                rw (sym (some_inj.0 q'))
                  (rw (chars-of_chars (take 20 t)) (and_left (is_hex_block 20 t) _ b))
          ]
    ]

read_both :
    (session_id scope : String) (f : RouteFile)
    → FileIsSticky f
    → owner_scope_from_session_id session_id ≡ some scope
    → (do
      s ← load_state f
      ok (or_else (if_any (lookup session_id s.sessions)) (if_any (lookup scope s.scopes))))
      ≡ (do s ← load_state f; ok (if_any (lookup scope s.scopes)))
unfolding load_state empty_state lookup
read_both session_id scope missing st owner = refl
read_both session_id scope broken st owner = refl
read_both session_id scope (routes s) st owner = ap ok (behind-IsSticky session_id scope s owner st)

-- In a file whose sessions follow their owners, a session is routed as its owner is.
node_id_for_session-node_id_for_scope :
    (f : RouteFile) (session_id scope : String)
    → FileIsSticky f
    → owner_scope_from_session_id session_id ≡ some scope
    → node_id_for_session session_id f ≡ node_id_for_scope scope f
unfolding node_id_for_session node_id_for_scope
node_id_for_session-node_id_for_scope f session_id scope st owner =
    rw (owner, owner_of)
      (rw (owner_scope-is_owner_scope session_id owner) (read_both session_id scope f st owner))
