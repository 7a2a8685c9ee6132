-- ===== src/Identity/Ownership.antt =====
-- The owner in a session id of src/xpd_report_agent/api/session_service.py.
use Prim.Native.Char.{Char, code}
use mathlib.Core.Path.{subst}
use mathlib.Core.List.{append_assoc}
use mathlib.Core.Logic.{◌↔◌}
use xpd_report_agent.Prelude.{
  any, all, take, drop, take-append, drop-append, take_append_drop, String, ◌≡◌, refl, sym, ap, ◌∙◌,
  true, false, ◌&&◌, Option, none, some, List, [], ◌∷◌, ◌++◌, arith, ◌==◌, eq_iff, if◌then◌else◌,
  length,
}
use xpd_report_agent.Prelude.Text.{
  chars, of_chars, append, chars-of_chars, of_chars-chars, chars-append, len,
}
use xpd_report_agent.Prelude.Patterns.{
  owner_scope_from_session_id, is_owner_scope, is_hex_block, is_hex, is_word, is_words, is_tail,
  behind,
}
use xpd_report_agent.Identity.Scopes.{
  is_rest, new_session_id, session_belongs_to_scope, scope_from_session_id,
}

-- The characters of a new session id.
chars-new_session_id :
    (scope token : String)
    → chars (new_session_id scope token)
      ≡ chars "xpd_" ++ (chars scope ++ (chars "_" ++ chars token))
unfolding new_session_id
chars-new_session_id scope token =
    chars-append "xpd_" (append scope (append "_" token))
    ∙ ap (λ t. chars "xpd_" ++ t) (chars-append scope (append "_" token))
    ∙ ap (λ t. chars "xpd_" ++ (chars scope ++ t)) (chars-append "_" token)

behind-append : (s : List Char) → behind (chars "xpd_") (chars "xpd_" ++ s) ≡ some s
behind-append s = refl

scope-length : (scope : String) → is_owner_scope scope ≡ true → length (chars scope) ≡ 20
unfolding is_owner_scope
scope-length scope h = ground arith

scope-hex : (scope : String) → is_owner_scope scope ≡ true → all is_hex (chars scope) ≡ true
unfolding is_owner_scope
scope-hex scope h = ground arith

-- What follows the prefix: the scope, and the rest behind it.
module _ (scope : String) (rest : List Char) (valid : is_owner_scope scope ≡ true) where
  take-scope : take 20 (chars scope ++ rest) ≡ chars scope
  take-scope = take-append 20 (chars scope) rest (scope-length scope valid)

  drop-scope : drop 20 (chars scope ++ rest) ≡ rest
  drop-scope = drop-append 20 (chars scope) rest (scope-length scope valid)

  block-scope : is_hex_block 20 (chars scope ++ rest) ≡ true
  block-scope = rw take-scope (ground (arith, scope-length scope valid, scope-hex scope valid))

-- The readers of the id, on its characters.
abbrev owner_in : List Char → Option String
owner_in s = elim (behind (chars "xpd_") s) [
  | none ↦ none
  | some t ↦ if is_hex_block 20 t && is_tail (drop 20 t) then some (of_chars (take 20 t)) else none
]

abbrev scope_in : List Char → Option String
scope_in s = elim (behind (chars "xpd_") s) [
  | none ↦ none
  | some t ↦ if is_hex_block 20 t && is_rest (drop 20 t) then some (of_chars (take 20 t)) else none
]

owner_in-chars : (s : String) → owner_scope_from_session_id s ≡ owner_in (chars s)
unfolding owner_scope_from_session_id
owner_in-chars s = refl

scope_in-chars : (s : String) → scope_from_session_id s ≡ scope_in (chars s)
unfolding scope_from_session_id
scope_in-chars s = refl

word-no_break : (c : Char) → is_word c ≡ true → (code c == 10) ≡ false
word-no_break c h = ground arith

words-no_break : (s : List Char) → all is_word s ≡ true → any (λ d. code d == 10) s ≡ false
words-no_break [] h = refl
words-no_break (c ∷ s) h = ground (arith, word-no_break c, words-no_break s)

words-is_rest : (s : List Char) → is_words s ≡ true → is_rest (chars "_" ++ s) ≡ true
words-is_rest [] h = absurd (ground arith)
words-is_rest (c ∷ s) h = ground (arith, words-no_break (c ∷ s))

-- What `session_belongs_to_scope` expects in front.
abbrev front : String → List Char
front scope = chars "xpd_" ++ (chars scope ++ chars "_")

chars-front : (scope : String) → chars (append "xpd_" (append scope "_")) ≡ front scope
chars-front scope =
    chars-append "xpd_" (append scope "_") ∙ ap (λ t. chars "xpd_" ++ t) (chars-append scope "_")

belongs-eq :
    (id scope : String)
    → session_belongs_to_scope id scope ≡ true
    → chars id ≡ front scope ++ drop (length (front scope)) (chars id)
unfolding session_belongs_to_scope
belongs-eq id scope h =
    let expected = append "xpd_" (append scope "_") in
    let n = len expected in
    let e : take n (chars id) ≡ chars expected =
      sym (chars-of_chars (take n (chars id)))
      ∙ ap chars ((eq_iff (of_chars (take n (chars id))) expected).0 h) in
    let same : n ≡ length (front scope) = ap length (chars-front scope) in
    sym (take_append_drop n (chars id))
    ∙ ap (λ t. t ++ drop n (chars id)) (e ∙ chars-front scope)
    ∙ ap (λ k. front scope ++ drop k (chars id)) same

belongs-of_eq :
    (id scope : String) (rest : List Char)
    → chars id ≡ front scope ++ rest
    → session_belongs_to_scope id scope ≡ true
unfolding session_belongs_to_scope
belongs-of_eq id scope rest h =
    let expected = append "xpd_" (append scope "_") in
    (eq_iff (of_chars (take (len expected) (chars id))) expected).1 (
      ap of_chars (
        ap (take (len expected)) (h ∙ ap (λ t. t ++ rest) (sym (chars-front scope)))
        ∙ take-append (len expected) (chars expected) rest refl)
      ∙ of_chars-chars expected)

module _ (scope : String) (token : String) (valid : is_owner_scope scope ≡ true)
    (words : is_words (chars token) ≡ true) where
  abbrev tail_of : List Char
  tail_of = chars "_" ++ chars token

  owner-new_session_id : owner_scope_from_session_id (new_session_id scope token) ≡ some scope
  owner-new_session_id =
      owner_in-chars (new_session_id scope token)
      ∙ ap owner_in (chars-new_session_id scope token)
      ∙ rw (block-scope scope tail_of valid) (
          rw (drop-scope scope tail_of valid)
            (rw words (rw (take-scope scope tail_of valid) (ap some (of_chars-chars scope)))))

  words-rest : is_rest tail_of ≡ true
  words-rest = words-is_rest (chars token) words

  scope-new_session_id : scope_from_session_id (new_session_id scope token) ≡ some scope
  scope-new_session_id =
      scope_in-chars (new_session_id scope token)
      ∙ ap scope_in (chars-new_session_id scope token)
      ∙ rw (block-scope scope tail_of valid) (
          rw (drop-scope scope tail_of valid)
            (rw words-rest (rw (take-scope scope tail_of valid) (ap some (of_chars-chars scope)))))

  belongs-new_session_id :
      (other : String)
      → is_owner_scope other ≡ true
      → session_belongs_to_scope (new_session_id scope token) other ≡ true
      → other ≡ scope
  belongs-new_session_id other h b =
      let id = new_session_id scope token in
      let behind_front = drop (length (front other)) (chars id) in
      let e : chars scope ++ tail_of ≡ (chars other ++ chars "_") ++ behind_front =
        ap (drop 4) (sym (chars-new_session_id scope token) ∙ belongs-eq id other b) in
      let same : chars scope ≡ chars other =
        sym (take-scope scope tail_of valid)
        ∙ ap (take 20) (e ∙ append_assoc (chars other) (chars "_") behind_front)
        ∙ take-scope other (chars "_" ++ behind_front) h in
      sym (of_chars-chars other) ∙ ap of_chars (sym same) ∙ of_chars-chars scope

  own-new_session_id : session_belongs_to_scope (new_session_id scope token) scope ≡ true
  own-new_session_id = belongs-of_eq (new_session_id scope token) scope (chars token) (
      chars-new_session_id scope token
      ∙ ap (λ t. chars "xpd_" ++ t) (sym (append_assoc (chars scope) (chars "_") (chars token))))

  -- A new session id for a valid scope and a token of word characters gives the scope back, to both
  -- of its readers; and to a valid scope the session belongs if and only if it is that one.
  pub new_session_id_owner :
      (other : String)
      → is_owner_scope other ≡ true
      → (owner_scope_from_session_id (new_session_id scope token) ≡ some scope)
        × (scope_from_session_id (new_session_id scope token) ≡ some scope)
        × ((session_belongs_to_scope (new_session_id scope token) other ≡ true) ↔ (other ≡ scope))
  new_session_id_owner other h = (
    owner-new_session_id,
    scope-new_session_id,
    (
      belongs-new_session_id other h,
      λ same.
          subst (λ t. session_belongs_to_scope (new_session_id scope token) t ≡ true) (sym same)
            own-new_session_id,
    ),
  )
