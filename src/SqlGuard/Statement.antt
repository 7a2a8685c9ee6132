-- ===== src/SqlGuard/Statement.antt =====
-- What the guard of src/xpd_report_agent/hermes_plugin/db_query/sql_guard.py asks of a parsed
-- statement, and its checks. The parser is sqlglot, a library: a statement is the record of the
-- answers that its tree gives.
use xpd_report_agent.Prelude.{
  any, String, Bool, false, not, ◌&&◌, ◌||◌, List, [], ◌∷◌, map, ◌==◌, str_eq, if◌then◌else◌,
  length, filter,
}
use Prim.Native.Char.{Char, code}
use xpd_report_agent.Prelude.Text.{chars, text_le}
use xpd_report_agent.Prelude.Result.{Outcome, ok, err}
use xpd_report_agent.Prelude.Sort.{sort}
use xpd_report_agent.SqlGuard.Columns.{member}

-- An expression of a SELECT, behind its alias.
pub record Inner : Type 0 where
  pub is_count : Bool
  pub is_star : Bool
  pub is_column : Bool
  pub name : String
  pub finds_star : Bool

-- A projection of the statement: its name, if it has one, and its text.
pub record Label : Type 0 where
  pub alias_or_name : String
  pub sql : String

pub record Table : Type 0 where
  pub name : String
  pub db : String
  pub sql : String

-- `finds` is `tree.find` of a class by its name; a PropertyEQ is kept as whether it assigns a
-- parameter.
pub record Statement : Type 0 where
  pub finds : String → Bool
  pub comments : List String
  pub property_assignments : List Bool
  pub selects : List (List Inner)
  pub function_names : List String
  pub labels : List Label
  pub cte_names : List String
  pub tables : List Table
  pub normalized_sql : String

-- The answers that are no statement to run.
pub data Reason : Type 0 where
  empty_sql parse_error not_one_statement not_select : Reason
  forbidden_operation : String → Reason
  locking_select optimizer_hint executable_comment select_into : Reason
  variable_assignment select_wildcard : Reason
  forbidden_function : String → Reason
  duplicate_columns cross_database unknown_tables : List String → Reason
  explain_failed : Reason

abbrev pub operations : List String
operations =
    "Insert" ∷ "Update" ∷ "Delete" ∷ "Drop" ∷ "Create" ∷ "Alter" ∷ "Command" ∷ "Pragma" ∷ "Attach"
    ∷ "Detach" ∷ "Copy" ∷ []

-- `hasattr(exp, name)` is an argument.
unfoldable pub forbidden_node_types : (String → Bool) → List String
forbidden_node_types has_class = filter has_class operations

abbrev pub forbidden_functions : List String
forbidden_functions =
    "benchmark" ∷ "master_pos_wait" ∷ "sleep" ∷ "source_pos_wait" ∷ "wait_for_executed_gtid_set"
    ∷ "wait_until_sql_thread_after_gtids" ∷ "get_lock" ∷ "release_all_locks" ∷ "release_lock"
    ∷ "load_extension" ∷ "load_file" ∷ "readfile" ∷ "sys_eval" ∷ "sys_exec" ∷ "writefile" ∷ []

abbrev is_wildcard : Inner → Bool
is_wildcard e = not e.is_count && (e.is_star || (e.is_column && str_eq e.name "*") || e.finds_star)

unfoldable pub has_select_wildcard : Statement → Bool
has_select_wildcard t = any (any is_wildcard) t.selects

unfoldable pub find_forbidden_functions : (String → String) → Statement → List String
find_forbidden_functions lower t =
    filter (λ name. member name forbidden_functions) (map lower t.function_names)

unfoldable pub has_user_variable_assignment : Statement → Bool
has_user_variable_assignment t = any (λ is_parameter. is_parameter) t.property_assignments

abbrev starts_with_mark : List Char → Bool
starts_with_mark [] = false
starts_with_mark (c ∷ s) = code c == b'!'

unfoldable pub has_mysql_executable_comment : Statement → Bool
has_mysql_executable_comment t = any (λ comment. starts_with_mark (chars comment)) t.comments

abbrev pub label_of : Label → String
label_of p = if str_eq p.alias_or_name "" then p.sql else p.alias_or_name

unfoldable pub projected_column_names : Statement → List String
projected_column_names t = map label_of t.labels

-- The elements of a list as a set, each at its first place, but those of `seen`.
unfoldable pub members : List String → List String → List String
members seen [] = []
members seen (x ∷ xs) =
    let same = members seen xs in
    let more = x ∷ members (x ∷ seen) xs in if member x seen then same else more

-- The two collections of the loop of `_check_tables`
unfoldable pub used_names : List String → List Table → List String
used_names cte_names [] = []
used_names cte_names (t ∷ ts) =
    let rest = used_names cte_names ts in
    if str_eq t.name "" || member t.name cte_names then rest else t.name ∷ rest

abbrev pub is_foreign : String → Table → Bool
is_foreign database t = not (str_eq t.name "") && not (str_eq t.db "") && not (str_eq t.db database)

-- `allowed_tables` are the tables of the schema.
unfoldable pub check_tables : List String → String → Statement → Outcome Reason (List String)
check_tables allowed_tables database t =
    let used = members [] (used_names t.cte_names t.tables) in
    let unknown = sort text_le (filter (λ name. not (member name allowed_tables)) used) in
    let invalid = map (λ u. u.sql) (filter (is_foreign database) t.tables) in
    if not (length invalid == 0)
    then err (cross_database invalid)
    else if not (length unknown == 0)
    then err (unknown_tables unknown)
    else ok used
