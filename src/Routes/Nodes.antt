-- ===== src/Routes/Nodes.antt =====
-- `configured_hermes_nodes` and `_normalize_origin` of src/xpd_report_agent/hermes_pool.py. `urlsplit`
-- is that of Python's library; it gives `none` where it raises a ValueError, and a missing part is "".
use mathlib.Core.List.{reverse}
use mathlib.Core.Path.{subst}
use Prim.Native.Char.{Char, code}
use xpd_report_agent.Prelude.{
  any, all, String, ◌≡◌, refl, inl, inr, Bool, true, false, not, ◌&&◌, ◌||◌, Option, none, some,
  List, [], ◌∷◌, ◌++◌, arith, leb, ◌==◌, str_eq, eq_iff, eq_refl, if◌then◌else◌, Bool-cases, length,
}
use xpd_report_agent.Prelude.Text.{chars, of_chars, strip}
use xpd_report_agent.Prelude.Patterns.{is_digit}
use xpd_report_agent.Prelude.Result.{ok, err, guard, ◌>>=◌, ◌>>◌, bind_elim}
use xpd_report_agent.Capacity.Slots.{split_commas}
use xpd_report_agent.Routes.Store.{RouteError, value_error, configuration, Routed}
use xpd_report_agent.Routes.Pool.{HermesNode, is_node, are_unique}

pub record SplitUrl : Type 0 where
  pub scheme : String
  pub hostname : String
  pub username : String
  pub password : String
  pub query : String
  pub fragment : String
  pub path : String

-- `s.rstrip("/")` on the reversed text
abbrev drop_slashes : List Char → List Char
drop_slashes [] = []
drop_slashes (c ∷ s) = let rest = drop_slashes s in if code c == b'/' then rest else c ∷ s

abbrev is_empty : String → Bool
is_empty s = str_eq s ""

abbrev parsed_or_raised : Option SplitUrl → Routed SplitUrl
parsed_or_raised none = err value_error
parsed_or_raised (some p) = ok p

unfoldable pub normalize_origin : (String → Option SplitUrl) → String → Routed String
normalize_origin urlsplit value = do
  let origin = of_chars (reverse (drop_slashes (reverse (chars (strip value)))))
  parsed ← parsed_or_raised (urlsplit origin)
  guard
      ((str_eq parsed.scheme "http" || str_eq parsed.scheme "https")
        && not (is_empty parsed.hostname))
      configuration
  guard
      (is_empty parsed.username
        && is_empty parsed.password
        && is_empty parsed.query
        && is_empty parsed.fragment)
      configuration
  guard (is_empty parsed.path || str_eq parsed.path "/") configuration
  ok origin

abbrev is_lower : Char → Bool
is_lower c = is_digit c || (leb b'a' (code c) && leb (code c) b'z')

abbrev first_is_lower : List Char → Bool
first_is_lower [] = false
first_is_lower (c ∷ s) = is_lower c

-- `[a-z0-9](?:[a-z0-9-]{0,61}[a-z0-9])?` in full
unfoldable pub is_node_id : String → Bool
is_node_id s =
    first_is_lower (chars s)
    && first_is_lower (reverse (chars s))
    && all (λ c. is_lower c || code c == b'-') (chars s)
    && leb (length (chars s)) 63

-- `entry.split("=", 1)`, the part before the sign being `part`, reversed; `none` without a sign
unfoldable pub split_equals : List Char → List Char → Option (String × String)
split_equals part [] = none
split_equals part (c ∷ s) =
    let more = split_equals (c ∷ part) s in
    if code c == b'=' then some (of_chars (reverse part), of_chars s) else more

unfoldable pub parse_entry : (String → Option SplitUrl) → String → Routed HermesNode
parse_entry urlsplit raw_entry = elim (split_equals [] (chars (strip raw_entry))) [
  | none ↦ err configuration
  | some (raw_node_id, raw_origin) ↦ do
    guard (is_node_id (strip raw_node_id)) configuration
    origin ← normalize_origin urlsplit raw_origin
    ok (record { node_id = strip raw_node_id; origin = origin })
]

-- The loop over the entries, with `seen_ids` and `seen_origins`.
unfoldable pub parse_entries :
    (String → Option SplitUrl) → List String → List String → List String → Routed (List HermesNode)
parse_entries urlsplit seen_ids seen_origins [] = ok []
parse_entries urlsplit seen_ids seen_origins (raw_entry ∷ entries) = do
  n ← parse_entry urlsplit raw_entry
  guard (not (any (λ s. str_eq n.node_id s) seen_ids)) configuration
  guard (not (any (λ s. str_eq n.origin s) seen_origins)) configuration
  rest ← parse_entries urlsplit (n.node_id ∷ seen_ids) (n.origin ∷ seen_origins) entries
  ok (n ∷ rest)

abbrev text_or : Option String → String → String
text_or none d = d
text_or (some s) d = s

-- The three variables of the environment.
unfoldable pub configured_hermes_nodes :
    (String → Option SplitUrl)
    → Option String
    → Option String
    → Option String
    → Routed (List HermesNode)
configured_hermes_nodes urlsplit nodes host port =
    let configured = strip (text_or nodes "") in
    if is_empty configured
    then (do
      origin ← normalize_origin urlsplit (
          of_chars (
            chars "http://"
            ++ chars (strip (text_or host "127.0.0.1"))
            ++ chars ":"
            ++ chars (strip (text_or port "8642"))))
      ok (record { node_id = "hermes"; origin = origin } ∷ []))
    else parse_entries urlsplit [] [] (split_commas [] (chars configured))

guard_ok :
    {A : Type 0} (b : Bool) (e : RouteError) (m : Routed A) {a : A}
    → (guard b e >> m) ≡ ok a
    → (b ≡ true) × (m ≡ ok a)
guard_ok true e m h = (refl, h)
guard_ok false e m h = cc

ok_nodes : {a b : List HermesNode} → ◌≡◌ {A = Routed (List HermesNode)} (ok a) (ok b) → a ≡ b
ok_nodes h = cc

-- A name that was seen is not among the later nodes.
parse_entries_new :
    (urlsplit : String → Option SplitUrl) (ids origins entries : List String) (k : String)
    {ns : List HermesNode}
    → any (λ s. str_eq k s) ids ≡ true
    → parse_entries urlsplit ids origins entries ≡ ok ns
    → any (is_node k) ns ≡ false
unfolding parse_entries
parse_entries_new urlsplit ids origins [] k seen h =
    subst (λ ns. any (is_node k) ns ≡ false) (ok_nodes h) refl
parse_entries_new urlsplit ids origins (raw ∷ entries) k seen h =
    bind_elim (parse_entry urlsplit raw) _ h (λ n e h1.
      let (new, h2) = guard_ok (not (any (λ s. str_eq n.node_id s) ids)) configuration _ h1 in
      let (_, h3) = guard_ok (not (any (λ s. str_eq n.origin s) origins)) configuration _ h2 in
      bind_elim (parse_entries urlsplit (n.node_id ∷ ids) (n.origin ∷ origins) entries) _ h3
        (λ rest e' h4.
          let later =
            parse_entries_new urlsplit (n.node_id ∷ ids) (n.origin ∷ origins) entries k
              (or_right (str_eq k n.node_id) seen) e' in
          let here = differs n.node_id k ids new seen in
          subst (λ ns. any (is_node k) ns ≡ false) (ok_nodes h4) (rw here later)))
  where
    or_right : (b : Bool) {c : Bool} → c ≡ true → (b || c) ≡ true
    or_right true h = refl
    or_right false h = h

    differs :
        (j k : String) (ids : List String)
        → not (any (λ s. str_eq j s) ids) ≡ true
        → any (λ s. str_eq k s) ids ≡ true
        → str_eq j k ≡ false
    differs j k ids new seen = elim (Bool-cases (str_eq j k)) [
      | inr b ↦ b
      | inl b ↦
          absurd
            (let e : any (λ s. str_eq j s) ids ≡ true = rw ((eq_iff j k).0 b) seen in ground arith)
    ]

parse_entries_unique :
    (urlsplit : String → Option SplitUrl) (ids origins entries : List String) {ns : List HermesNode}
    → parse_entries urlsplit ids origins entries ≡ ok ns
    → are_unique ns ≡ true
unfolding parse_entries are_unique
parse_entries_unique urlsplit ids origins [] h =
    subst (λ ns. are_unique ns ≡ true) (ok_nodes h) refl
parse_entries_unique urlsplit ids origins (raw ∷ entries) h =
    bind_elim (parse_entry urlsplit raw) _ h (λ n e h1.
      let (_, h2) = guard_ok (not (any (λ s. str_eq n.node_id s) ids)) configuration _ h1 in
      let (_, h3) = guard_ok (not (any (λ s. str_eq n.origin s) origins)) configuration _ h2 in
      bind_elim (parse_entries urlsplit (n.node_id ∷ ids) (n.origin ∷ origins) entries) _ h3
        (λ rest e' h4.
          let self : any (λ s. str_eq n.node_id s) (n.node_id ∷ ids) ≡ true =
            rw (eq_refl n.node_id) refl in
          let later =
            parse_entries_new urlsplit (n.node_id ∷ ids) (n.origin ∷ origins) entries n.node_id self
              e' in
          let rest_unique =
            parse_entries_unique urlsplit (n.node_id ∷ ids) (n.origin ∷ origins) entries e' in
          subst (λ ns. are_unique ns ≡ true) (ok_nodes h4) (rw later rest_unique)))

one_unique : (n : HermesNode) → are_unique (n ∷ []) ≡ true
unfolding are_unique
one_unique n = refl

-- The configured nodes have different ids, whatever the environment holds and however the library
-- splits addresses, so that a pool is not refused for its ids.
pub configured_hermes_nodes-are_unique :
    (urlsplit : String → Option SplitUrl) (nodes host port : Option String) {ns : List HermesNode}
    → configured_hermes_nodes urlsplit nodes host port ≡ ok ns
    → are_unique ns ≡ true
unfolding configured_hermes_nodes
configured_hermes_nodes-are_unique urlsplit nodes host port h =
    let configured = strip (text_or nodes "") in
    elim (Bool-cases (is_empty configured)) [
      | inr b ↦ parse_entries_unique urlsplit [] [] (split_commas [] (chars configured)) (rw b at h)
      | inl b ↦
          bind_elim (normalize_origin urlsplit _) _ (rw b at h)
            (λ origin e h1. subst (λ ns. are_unique ns ≡ true) (ok_nodes h1) (one_unique _))
    ]
