-- ===== src/SqlGuard/Columns.antt =====
-- Duplicate result columns, `find_duplicate_column_names` of
-- src/xpd_report_agent/hermes_plugin/db_query/sql_guard.py. `casefold` is Python's `str.casefold`.
use xpd_report_agent.Prelude.{
  length-append, any, All, ◌≤◌, String, ◌≡◌, refl, sym, ap, ◌∙◌, inl, inr, Bool, false, none, some,
  List, [], ◌∷◌, ◌++◌, map, arith, str_eq, if◌then◌else◌, Bool-cases, Option-cases, length,
}
use xpd_report_agent.Prelude.Dict.{Dict, lookup, insert, lookup-insert}

-- `name in names`
abbrev pub member : String → List String → Bool
member name names = any (str_eq name) names

-- The loop, with `first_spelling`, `duplicate_keys` and `duplicates`
unfoldable pub duplicates_from :
    (String → String) → List String → Dict String → List String → List String → List String
duplicates_from casefold [] first_spelling duplicate_keys duplicates = duplicates
duplicates_from casefold (column ∷ columns) first_spelling duplicate_keys duplicates =
    let key = casefold column in
    elim (lookup key first_spelling) [
      | none ↦
          duplicates_from casefold columns (insert key column first_spelling) duplicate_keys
            duplicates
      | some spelling ↦
          let same = duplicates_from casefold columns first_spelling duplicate_keys duplicates in
          let more =
            duplicates_from casefold columns first_spelling (key ∷ duplicate_keys)
              (duplicates ++ spelling ∷ []) in
          if member key duplicate_keys then same else more
    ]

unfoldable pub find_duplicate_column_names : (String → String) → List String → List String
find_duplicate_column_names casefold columns = duplicates_from casefold columns [] [] []

-- No name stands in the list twice.
abbrev pub AreDistinct : List String → Type 0
AreDistinct [] = Unit
AreDistinct (x ∷ xs) = (member x xs ≡ false) × AreDistinct xs

abbrev AreNew : Dict String → List String → Type 0
AreNew d ks = All (λ k. lookup k d ≡ none) ks

module _ (casefold : String → String) (c : String) (cs : List String) (d : Dict String)
    (keys duplicates : List String) where
  duplicates_from-new :
      lookup (casefold c) d ≡ none
      → duplicates_from casefold (c ∷ cs) d keys duplicates
        ≡ duplicates_from casefold cs (insert (casefold c) c d) keys duplicates
  unfolding duplicates_from
  duplicates_from-new e = rw (e, duplicates_from) refl

  duplicates_from-seen :
      (s : String)
      → lookup (casefold c) d ≡ some s
      → duplicates_from casefold (c ∷ cs) d keys duplicates ≡ (
          if member (casefold c) keys
          then duplicates_from casefold cs d keys duplicates
          else duplicates_from casefold cs d (casefold c ∷ keys) (duplicates ++ s ∷ []))
  unfolding duplicates_from
  duplicates_from-seen s e = rw (e, duplicates_from) refl

duplicates_from-keeps :
    (casefold : String → String) (columns : List String) (d : Dict String)
    (keys duplicates : List String)
    → length duplicates ≤ length (duplicates_from casefold columns d keys duplicates)
unfolding duplicates_from
duplicates_from-keeps casefold [] d keys duplicates = omega arith
duplicates_from-keeps casefold (c ∷ cs) d keys duplicates =
    elim (Option-cases (lookup (casefold c) d)) [
      | inl e ↦
          rw (duplicates_from-new casefold c cs d keys duplicates e)
            (duplicates_from-keeps casefold cs (insert (casefold c) c d) keys duplicates)
      | inr (s, e) ↦ rw (duplicates_from-seen casefold c cs d keys duplicates s e) (
          ground (
            arith,
            length-append duplicates (s ∷ []),
            duplicates_from-keeps casefold cs d keys duplicates,
            duplicates_from-keeps casefold cs d (casefold c ∷ keys) (duplicates ++ s ∷ []),
          ))
    ]

AreNew-insert :
    (k v : String) (d : Dict String) (ks : List String)
    → AreNew (insert k v d) ks
    → AreNew d ks × (member k ks ≡ false)
AreNew-insert k v d [] h = (tt, refl)
AreNew-insert k v d (j ∷ ks) (e, h) =
    let (new, ne) = AreNew-insert k v d ks h in
    elim (Bool-cases (str_eq k j)) [
      | inl b ↦ absurd (ground (arith, lookup-insert k j v d))
      | inr b ↦ ((ground (arith, lookup-insert k j v d), new), rw b ne)
    ]

duplicates_from-none :
    (casefold : String → String) (columns : List String) (d : Dict String)
    → length (duplicates_from casefold columns d [] []) ≡ 0
    → AreNew d (map casefold columns) × AreDistinct (map casefold columns)
unfolding duplicates_from
duplicates_from-none casefold [] d h = (tt, tt)
duplicates_from-none casefold (c ∷ cs) d h = elim (Option-cases (lookup (casefold c) d)) [
  | inl e ↦
      let (new, distinct) =
        duplicates_from-none casefold cs (insert (casefold c) c d)
          (sym (ap length (duplicates_from-new casefold c cs d [] [] e)) ∙ h) in
      let (old, ne) = AreNew-insert (casefold c) c d (map casefold cs) new in
      ((e, old), (ne, distinct))
  | inr (s, e) ↦ absurd (
      omega (
        arith,
        sym (ap length (duplicates_from-seen casefold c cs d [] [] s e)) ∙ h,
        duplicates_from-keeps casefold cs d (casefold c ∷ []) (s ∷ []),
      ))
]

-- Where no duplicate is found, the columns have distinct names without regard to case.
pub find_duplicate_column_names-none :
    (casefold : String → String) (columns : List String)
    → find_duplicate_column_names casefold columns ≡ []
    → AreDistinct (map casefold columns)
unfolding find_duplicate_column_names
find_duplicate_column_names-none casefold columns h =
    (duplicates_from-none casefold columns [] (ap length h)).1
