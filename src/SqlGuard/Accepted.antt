-- ===== src/SqlGuard/Accepted.antt =====
-- What an accepted query may do (src/xpd_report_agent/hermes_plugin/db_query/sql_guard.py).
use xpd_report_agent.Prelude.{
  All, ℕ, suc, String, ◌≡◌, refl, sym, ap, ◌∙◌, ◌⊎◌, inl, inr, Bool, true, false, not, ◌||◌, Option,
  none, some, List, [], ◌∷◌, map, arith, ◌==◌, str_eq, eq_iff, Bool-cases, length, filter,
}
use xpd_report_agent.Prelude.Text.{strip, text_le}
use xpd_report_agent.Prelude.Result.{Outcome, ok, guard, ◌>>◌, bind_elim}
use xpd_report_agent.Prelude.Sort.{sort, place}
use xpd_report_agent.SqlGuard.Columns.{member, AreDistinct, find_duplicate_column_names-none}
use xpd_report_agent.SqlGuard.Statement.{
  empty_sql, Statement, Table, Reason, forbidden_node_types, forbidden_functions,
  has_select_wildcard, find_forbidden_functions, has_user_variable_assignment,
  has_mysql_executable_comment, projected_column_names, members, used_names, is_foreign,
  check_tables,
}
use xpd_report_agent.SqlGuard.Validate.{
  Context, Accepted, parsed, none_of, first_as, check_statement, validate_sql,
}

-- A table without a name, or one that is written without a database or with the configured one and
-- whose name is a table of the schema or a CTE name of the statement. The test is by name: a table
-- that is written with the database also counts as a CTE of that name.
abbrev pub IsNamedAllowed : Context → Statement → Table → Type 0
IsNamedAllowed w t u =
    (str_eq u.name "" ≡ true)
    ⊎ ((is_foreign w.database u ≡ false)
        × (member u.name t.cte_names || member u.name w.allowed_tables ≡ true))

-- What the guard tests of a statement, each by what the parser finds in it
pub record PassesGuard (w : Context) (t : Statement) : Type 0 where
  pub selects : t.finds "Select" ≡ true
  pub only_reads : All (λ name. t.finds name ≡ false) (forbidden_node_types w.has_class)
  pub no_lock : t.finds "Lock" ≡ false
  pub no_hint : t.finds "Hint" ≡ false
  pub no_into : t.finds "Into" ≡ false
  pub no_executable_comment : has_mysql_executable_comment t ≡ false
  pub no_assignment : has_user_variable_assignment t ≡ false
  pub no_wildcard : has_select_wildcard t ≡ false
  pub safe_functions :
      All (λ name. member (w.lower name) forbidden_functions ≡ false) t.function_names
  pub distinct_columns : AreDistinct (map w.casefold (projected_column_names t))
  pub named_tables : All (IsNamedAllowed w t) t.tables

filter-none {ℓ} :
    {A : Type ℓ} (p : A → Bool) (xs : List A) → length (filter p xs) ≡ 0 → All (λ x. p x ≡ false) xs
filter-none p [] h = tt
filter-none p (x ∷ xs) h = elim (Bool-cases (p x)) [
  | inl b ↦ absurd (ground (arith, b))
  | inr b ↦ (b, filter-none p xs (rw b at h))
]

length-map {ℓ κ} :
    {A : Type ℓ} {B : Type κ} (f : A → B) (xs : List A) → length (map f xs) ≡ length xs
length-map f [] = refl
length-map f (x ∷ xs) = omega (arith, length-map f xs)

All-map {ℓ κ μ} :
    {A : Type ℓ} {B : Type κ} (f : A → B) (P : B → Type μ) (xs : List A)
    → All P (map f xs)
    → All (λ x. P (f x)) xs
All-map f P [] h = tt
All-map f P (x ∷ xs) (a, h) = (a, All-map f P xs h)

All-member :
    (p : String → Bool) (x : String) (xs : List String)
    → member x xs ≡ true
    → All (λ y. p y ≡ false) xs
    → p x ≡ false
All-member p x [] m h = absurd (ground arith)
All-member p x (y ∷ ys) m (a, h) = elim (Bool-cases (str_eq x y)) [
  | inl b ↦ ap p ((eq_iff x y).0 b) ∙ a
  | inr b ↦ All-member p x ys (rw b at m) h
]

length-place {ℓ} :
    {A : Type ℓ} (le : A → A → Bool) (x : A) (ys : List A)
    → length (place le x ys) ≡ suc (length ys)
unfolding place
length-place le x [] = refl
length-place le x (y ∷ ys) = ground (arith, length-place le x ys)

length-sort {ℓ} : {A : Type ℓ} (le : A → A → Bool) (xs : List A) → length (sort le xs) ≡ length xs
unfolding sort
length-sort le [] = refl
length-sort le (x ∷ xs) = omega (arith, length-place le x (sort le xs), length-sort le xs)

-- A test that fails on the set fails on the list.
members-none :
    (p : String → Bool) (seen xs : List String)
    → All (λ y. p y ≡ false) seen
    → length (filter p (members seen xs)) ≡ 0
    → All (λ x. p x ≡ false) xs
unfolding members
members-none p seen [] s h = tt
members-none p seen (x ∷ xs) s h = elim (Bool-cases (member x seen)) [
  | inl b ↦ (All-member p x seen b s, members-none p seen xs s (rw b at h))
  | inr b ↦ elim (Bool-cases (p x)) [
    | inl c ↦ absurd (ground (arith, rw (b, c) at h))
    | inr c ↦ (c, members-none p (x ∷ seen) xs (c, s) (rw (b, c) at h))
  ]
]

used-IsNamedAllowed :
    (w : Context) (t : Statement) (us : List Table)
    → All (λ u. is_foreign w.database u ≡ false) us
    → All (λ name. not (member name w.allowed_tables) ≡ false) (used_names t.cte_names us)
    → All (IsNamedAllowed w t) us
unfolding used_names
used-IsNamedAllowed w t [] f h = tt
used-IsNamedAllowed w t (u ∷ us) (b, f) h = elim (Bool-cases (str_eq u.name "")) [
  | inl n ↦ (inl n, used-IsNamedAllowed w t us f (rw n at h))
  | inr n ↦ elim (Bool-cases (member u.name t.cte_names)) [
    | inl c ↦ (inr (b, rw c refl), used-IsNamedAllowed w t us f (rw (n, c) at h))
    | inr c ↦
        let (a, rest) = (rw (n, c) at h) in
        (inr (b, ground (arith, a)), used-IsNamedAllowed w t us f rest)
  ]
]

is_zero : (n : ℕ) → (not (n == 0)) ≡ false → n ≡ 0
is_zero n h = ground arith

tables-IsNamedAllowed :
    (w : Context) (t : Statement) {used : List String}
    → check_tables w.allowed_tables w.database t ≡ ok used
    → All (IsNamedAllowed w t) t.tables
unfolding check_tables
tables-IsNamedAllowed w t h =
    let used = members [] (used_names t.cte_names t.tables) in
    let unknown = filter (λ name. not (member name w.allowed_tables)) used in
    let invalid = filter (is_foreign w.database) t.tables in
    elim (Bool-cases (not (length (map (λ u. u.sql) invalid) == 0))) [
      | inl b ↦ absurd (ground (arith, rw b at h))
      | inr b ↦ elim (Bool-cases (not (length (sort text_le unknown) == 0))) [
        | inl c ↦ absurd (ground (arith, rw (b, c) at h))
        | inr c ↦
            used-IsNamedAllowed w t t.tables
              (filter-none (is_foreign w.database) t.tables
                (sym (length-map (λ u. u.sql) invalid) ∙ is_zero _ b))
              (members-none (λ name. not (member name w.allowed_tables)) []
                (used_names t.cte_names t.tables) tt
                (sym (length-sort text_le unknown) ∙ is_zero _ c))
      ]
    ]

guard_elim :
    (b : Bool) (e : Reason) (rest : Outcome Reason (Unit {0}))
    → (guard b e >> rest) ≡ ok tt
    → (b ≡ true) × (rest ≡ ok tt)
guard_elim true e rest h = (refl, h)
guard_elim false e rest h = absurd (ground arith)

first_elim :
    (reason : String → Reason) (xs : List String) (rest : Outcome Reason (Unit {0}))
    → (first_as reason xs >> rest) ≡ ok tt
    → (length xs ≡ 0) × (rest ≡ ok tt)
first_elim reason [] rest h = (refl, h)
first_elim reason (x ∷ xs) rest h = absurd (ground arith)

none_elim : (xs : List String) (reason : Reason) → none_of xs reason ≡ ok tt → xs ≡ []
none_elim [] reason h = refl
none_elim (x ∷ xs) reason h = absurd (ground arith)

un_not : (b : Bool) → not b ≡ true → b ≡ false
un_not true h = absurd (ground arith)
un_not false h = refl

statement-PassesGuard :
    (w : Context) (t : Statement)
    → check_statement w t ≡ ok tt
    → All (IsNamedAllowed w t) t.tables
    → PassesGuard w t
unfolding check_statement find_forbidden_functions
statement-PassesGuard w t h allowed =
    let (reads, h1) = first_elim _ (filter t.finds (forbidden_node_types w.has_class)) _ h in
    let (selects, h2) = guard_elim (t.finds "Select") _ _ h1 in
    let (lock, h3) = guard_elim (not (t.finds "Lock")) _ _ h2 in
    let (hint, h4) = guard_elim (not (t.finds "Hint")) _ _ h3 in
    let (comment, h5) = guard_elim (not (has_mysql_executable_comment t)) _ _ h4 in
    let (into, h6) = guard_elim (not (t.finds "Into")) _ _ h5 in
    let (assignment, h7) = guard_elim (not (has_user_variable_assignment t)) _ _ h6 in
    let (wildcard, h8) = guard_elim (not (has_select_wildcard t)) _ _ h7 in
    let (functions, h9) = first_elim _ (find_forbidden_functions w.lower t) _ h8 in
    record {
      selects = selects;
      only_reads = filter-none t.finds _ reads;
      no_lock = un_not _ lock;
      no_hint = un_not _ hint;
      no_into = un_not _ into;
      no_executable_comment = un_not _ comment;
      no_assignment = un_not _ assignment;
      no_wildcard = un_not _ wildcard;
      safe_functions =
          All-map w.lower (λ name. member name forbidden_functions ≡ false) t.function_names
            (filter-none _ (map w.lower t.function_names) functions);
      distinct_columns =
          find_duplicate_column_names-none w.casefold (projected_column_names t) (none_elim _ _ h9);
      named_tables = allowed;
    }

parsed-eq : (o : Option (List Statement)) {t : Statement} → parsed o ≡ ok t → o ≡ some (t ∷ [])
parsed-eq none h = absurd (ground arith)
parsed-eq (some []) h = absurd (ground arith)
parsed-eq (some (t ∷ [])) h = ground arith
parsed-eq (some (t ∷ u ∷ us)) h = absurd (ground arith)

-- A query that validate_sql accepts is one statement, as the parser reads the text without its outer
-- spaces. In this statement the parser finds a SELECT, none of the operations, locks, hints, clauses,
-- assignments, wildcards and functions that are forbidden, and columns of distinct names. Each table
-- that it finds either has no name, or is written without a database or with the configured one, and
-- its name is then a table of the schema or the name of some CTE of the statement.
pub validate_sql-PassesGuard :
    (w : Context) (sql : String) {a : Accepted}
    → validate_sql w sql ≡ ok a
    → (t : Statement) × (w.parse (strip sql) ≡ some (t ∷ [])) × PassesGuard w t
unfolding validate_sql
validate_sql-PassesGuard w sql h =
    bind_elim (guard (not (str_eq (strip sql) "")) empty_sql) _ h λ _ _ h1.
      bind_elim (parsed (w.parse (strip sql))) _ h1 λ t e h2.
        bind_elim (check_statement w t) _ h2 λ _ checks h3.
          bind_elim (check_tables w.allowed_tables w.database t) _ h3 λ used tables _.
            (t, parsed-eq _ e, statement-PassesGuard w t checks (tables-IsNamedAllowed w t tables))
