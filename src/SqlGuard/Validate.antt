-- ===== src/SqlGuard/Validate.antt =====
-- `validate_sql` and the wrapping of a query by a limit, of
-- src/xpd_report_agent/hermes_plugin/db_query/sql_guard.py.
use xpd_report_agent.Prelude.{
  ℕ, ◌+◌, String, Bool, not, Option, none, some, List, [], ◌∷◌, ◌==◌, str_eq, if◌then◌else◌, filter,
  min, max,
}
use Prim.Native.Char.{Char, code}
use mathlib.Core.List.{reverse}
use xpd_report_agent.Prelude.Json.{Json, ℤ, pos, negsuc}
use xpd_report_agent.Prelude.Text.{chars, of_chars, strip, append, text_le}
use xpd_report_agent.Prelude.Result.{Outcome, ok, err, guard, ◌>>=◌, ◌>>◌}
use xpd_report_agent.Prelude.Sort.{sort}
use xpd_report_agent.SqlGuard.Columns.{find_duplicate_column_names}
use xpd_report_agent.SqlGuard.Statement.{
  Statement, Reason, empty_sql, parse_error, not_one_statement, not_select, forbidden_operation,
  locking_select, optimizer_hint, executable_comment, select_into, variable_assignment,
  select_wildcard, forbidden_function, duplicate_columns, explain_failed, forbidden_node_types,
  has_select_wildcard, find_forbidden_functions, has_user_variable_assignment,
  has_mysql_executable_comment, projected_column_names, check_tables,
}

-- What the guard reads: sqlglot's classes and its parser (which may raise), Python's `str.lower` and
-- `str.casefold`, the schema, the configured database, and EXPLAIN, which may fail.
pub record Context : Type 0 where
  pub has_class : String → Bool
  pub parse : String → Option (List Statement)
  pub lower : String → String
  pub casefold : String → String
  pub allowed_tables : List String
  pub database : String
  pub explain : String → Option Json

pub record Accepted : Type 0 where
  pub used_tables : List String
  pub normalized_sql : String
  pub explain : Json

abbrev drop_semicolons : List Char → List Char
drop_semicolons [] = []
drop_semicolons (c ∷ s) = let rest = drop_semicolons s in if code c == b';' then rest else c ∷ s

-- `sql.strip().rstrip(";")`
unfoldable pub without_semicolons : String → String
without_semicolons sql = of_chars (reverse (drop_semicolons (reverse (chars (strip sql)))))

-- The one statement of a text
abbrev pub parsed : Option (List Statement) → Outcome Reason Statement
parsed none = err parse_error
parsed (some (t ∷ [])) = ok t
parsed (some _) = err not_one_statement

abbrev pub none_of {ℓ} : {A : Type ℓ} → List A → Reason → Outcome Reason (Unit {0})
none_of [] reason = ok tt
none_of (x ∷ xs) reason = err reason

-- The first of the names, as the reason
abbrev pub first_as : (String → Reason) → List String → Outcome Reason (Unit {0})
first_as reason [] = ok tt
first_as reason (x ∷ xs) = err (reason x)

-- The checks before those of the tables, in order
unfoldable pub check_statement : Context → Statement → Outcome Reason (Unit {0})
check_statement w t = do
  first_as forbidden_operation (filter t.finds (forbidden_node_types w.has_class))
  guard (t.finds "Select") not_select
  guard (not (t.finds "Lock")) locking_select
  guard (not (t.finds "Hint")) optimizer_hint
  guard (not (has_mysql_executable_comment t)) executable_comment
  guard (not (t.finds "Into")) select_into
  guard (not (has_user_variable_assignment t)) variable_assignment
  guard (not (has_select_wildcard t)) select_wildcard
  first_as forbidden_function (find_forbidden_functions w.lower t)
  let duplicates = find_duplicate_column_names w.casefold (projected_column_names t)
  none_of duplicates (duplicate_columns duplicates)

abbrev pub plan_of : Option Json → Outcome Reason Json
plan_of none = err explain_failed
plan_of (some plan) = ok plan

unfoldable pub explain_query : Context → String → Outcome Reason Json
explain_query w sql = plan_of (w.explain (append "EXPLAIN " (without_semicolons sql)))

unfoldable pub validate_sql : Context → String → Outcome Reason Accepted
validate_sql w sql = do
  let clean_sql = strip sql
  guard (not (str_eq clean_sql "")) empty_sql
  t ← parsed (w.parse clean_sql)
  check_statement w t
  used_tables ← check_tables w.allowed_tables w.database t
  plan ← explain_query w clean_sql
  ok (record {
    used_tables = sort text_le used_tables;
    normalized_sql = t.normalized_sql;
    explain = plan;
  })

abbrev pub max_rows_cap : ℕ
max_rows_cap = 1000

unfoldable pub clamp_max_rows : ℤ → ℕ
clamp_max_rows (pos max_rows) = max 1 (min max_rows max_rows_cap)
clamp_max_rows (negsuc _) = 1

-- `show` is `str` of a number.
unfoldable pub wrap_with_limit : (ℕ → String) → String → ℤ → String
wrap_with_limit show sql max_rows = append "SELECT * FROM (" (
    append (without_semicolons sql)
      (append ") AS _hermes_mysql_query LIMIT " (show (clamp_max_rows max_rows + 1))))
