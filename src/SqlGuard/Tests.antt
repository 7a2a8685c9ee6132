-- ===== src/SqlGuard/Tests.antt =====
-- Tests of SqlGuard on a concrete statement.
use xpd_report_agent.Prelude.{String, ◌≡◌, refl, not, some, [], ◌∷◌, ◌==◌, str_eq, if◌then◌else◌}
use xpd_report_agent.Prelude.Json.{Json, pos}
use xpd_report_agent.Prelude.Text.{strip}
use xpd_report_agent.Prelude.Result.{ok, err}
use xpd_report_agent.Prelude.Sort.{sort, place}
use xpd_report_agent.Prelude.Dict.{lookup, insert}
use xpd_report_agent.SqlGuard.Columns.{duplicates_from, find_duplicate_column_names}
use xpd_report_agent.SqlGuard.Statement.{
  Statement, Label, Table, forbidden_node_types, has_select_wildcard, find_forbidden_functions,
  has_user_variable_assignment, has_mysql_executable_comment, projected_column_names, members,
  used_names, check_tables, forbidden_function, duplicate_columns, unknown_tables,
}
use xpd_report_agent.SqlGuard.Validate.{
  Context, Accepted, without_semicolons, check_statement, explain_query, validate_sql,
  clamp_max_rows, wrap_with_limit,
}
use xpd_report_agent.SqlGuard.Accepted.{PassesGuard, validate_sql-PassesGuard}

program : Unit {0}
unfolding strip sort place lookup insert duplicates_from find_duplicate_column_names
    forbidden_node_types has_select_wildcard find_forbidden_functions has_user_variable_assignment
    has_mysql_executable_comment projected_column_names members used_names check_tables
    without_semicolons check_statement explain_query validate_sql clamp_max_rows wrap_with_limit
program = tt

abbrev same : String → String
same s = s

abbrev column : String → Label
column name = record { alias_or_name = name; sql = name }

abbrev table : String → Table
table name = record { name = name; db = ""; sql = name }

-- `select a, b from recent join orders`, where `recent` is defined by the statement
abbrev statement : Statement
statement = record {
  finds = λ name. str_eq name "Select";
  comments = "note" ∷ [];
  property_assignments = [];
  selects = [];
  function_names = "sum" ∷ [];
  labels = column "a" ∷ column "b" ∷ [];
  cte_names = "recent" ∷ [];
  tables = table "recent" ∷ table "orders" ∷ [];
  normalized_sql = "select a, b from recent join orders";
}

abbrev context : Statement → Context
context t = record {
  has_class = λ name. not (str_eq name "Attach");
  parse = λ sql. some (t ∷ []);
  lower = same;
  casefold = same;
  allowed_tables = "orders" ∷ "shops" ∷ [];
  database = "xpd";
  explain = λ sql. some Json.null;
}

abbrev accepted : Accepted
accepted = record {
  used_tables = "orders" ∷ [];
  normalized_sql = statement.normalized_sql;
  explain = Json.null;
}

is_accepted : validate_sql (context statement) " q " ≡ ok accepted
unfolding program
is_accepted = refl

sleeps :
    validate_sql (context (record statement { function_names = "sum" ∷ "sleep" ∷ [] })) "q"
    ≡ err (forbidden_function "sleep")
unfolding program
sleeps = refl

-- A table `xpd.recent` that is not one of the schema is accepted, since a CTE has its name.
shadowed :
    validate_sql
      (context (record statement {
        tables = record { name = "recent"; db = "xpd"; sql = "xpd.recent" } ∷ table "orders" ∷ [];
      }))
      "q"
    ≡ ok accepted
unfolding program
shadowed = refl

twice :
    validate_sql
      (context (record statement { labels = column "a" ∷ column "b" ∷ column "a" ∷ [] }))
      "q"
    ≡ err (duplicate_columns ("a" ∷ []))
unfolding program
twice = refl

unknown :
    validate_sql
      (context (record statement { tables = table "x" ∷ table "c" ∷ table "x" ∷ [] }))
      "q"
    ≡ err (unknown_tables ("c" ∷ "x" ∷ []))
unfolding program
unknown = refl

wrapped :
    wrap_with_limit (λ n. if n == 1001 then "1001" else "") " select 1;; " (pos 5000)
    ≡ "SELECT * FROM (select 1) AS _hermes_mysql_query LIMIT 1001"
unfolding program
wrapped = refl

validate_sql-PassesGuard_example :
    (t : Statement) × ((context statement).parse (strip " q ") ≡ some (t ∷ []))
    × PassesGuard (context statement) t
validate_sql-PassesGuard_example =
    validate_sql-PassesGuard (context statement) " q " {a = accepted} is_accepted
