-- ===== src/JoinGraph/Search.antt =====
-- `build_graph`, `shortest_path` and `find_join_paths` of
-- src/xpd_report_agent/hermes_plugin/db_query/join_graph.py. `graph[table]` is the list of the edges
-- from the table, in the order in which they were appended; the schema is an argument.
use xpd_report_agent.Prelude.{
  any, ℕ, zero, suc, String, Bool, not, List, [], ◌∷◌, ◌++◌, leb, str_eq, if◌then◌else◌, length,
  filter,
}
use Prim.Native.Char.{Char}
use xpd_report_agent.Prelude.Text.{chars, of_chars}

pub record ForeignKey : Type 0 where
  pub from_table : String
  pub from_column : String
  pub to_table : String
  pub to_column : String

pub record Edge : Type 0 where
  pub from_table : String
  pub from_column : String
  pub to_table : String
  pub to_column : String
  pub join_condition : String

-- `f"{table}.{column}"`
abbrev column_of : String → String → List Char
column_of table column = chars table ++ chars "." ++ chars column

unfoldable pub edge_of : ForeignKey → Edge
edge_of fk = record {
  from_table = fk.from_table;
  from_column = fk.from_column;
  to_table = fk.to_table;
  to_column = fk.to_column;
  join_condition =
      of_chars (
        column_of fk.from_table fk.from_column
        ++ chars " = "
        ++ column_of fk.to_table fk.to_column);
}

unfoldable pub reverse_edge_of : ForeignKey → Edge
reverse_edge_of fk = record {
  from_table = fk.to_table;
  from_column = fk.to_column;
  to_table = fk.from_table;
  to_column = fk.from_column;
  join_condition =
      of_chars (
        column_of fk.to_table fk.to_column
        ++ chars " = "
        ++ column_of fk.from_table fk.from_column);
}

-- All edges, in the order in which `build_graph` appends them.
unfoldable pub build_graph : List ForeignKey → List Edge
build_graph [] = []
build_graph (fk ∷ fks) = edge_of fk ∷ reverse_edge_of fk ∷ build_graph fks

-- `graph[table]`
unfoldable pub edges_from : String → List Edge → List Edge
edges_from table g = filter (λ e. str_eq e.from_table table) g

-- A table with the path that led to it, as the queue holds them.
abbrev pub Entry : Type 0
Entry = String × List Edge

pub record State : Type 0 where
  pub visited : List String
  pub queue : List Entry

abbrev pub contains : List String → String → Bool
contains tables t = any (str_eq t) tables

-- The loop over `graph[current]`: the tables visited and the queue after it.
unfoldable pub scan : List Edge → List Edge → List String → List Entry → State
scan path [] visited queue = record { visited = visited; queue = queue }
scan path (e ∷ es) visited queue =
    let same = scan path es visited queue in
    let more = scan path es (e.to_table ∷ visited) (queue ++ ((e.to_table, path ++ e ∷ []) ∷ [])) in
    if contains visited e.to_table then same else more

pub data Result : Type 0 where
  found : List Edge → Result
  unreachable out_of_fuel : Result

-- The tables visited and the queue after one round, in which `current` left the queue.
unfoldable pub expand : List Edge → String → List Edge → List String → List Entry → State
expand g current path visited rest = scan path (edges_from current g) visited rest

-- The `while` loop
unfoldable pub search : List Edge → String → ℕ → List String → List Entry → Result
search g target fuel visited [] = unreachable
search g target zero visited (_ ∷ _) = out_of_fuel
search g target (suc fuel) visited ((current, path) ∷ rest) =
    let next = expand g current path visited rest in
    let more = search g target fuel next.visited next.queue in
    if str_eq current target then found path else more

-- Every round but the first takes a table that one edge has led to.
unfoldable pub shortest_path : List ForeignKey → String → String → Result
shortest_path fks start target =
    let g = build_graph fks in search g target (suc (length g)) (start ∷ []) ((start, []) ∷ [])

-- `list(dict.fromkeys(tables))`, the tables before being `seen`
unfoldable pub distinct : List String → List String → List String
distinct seen [] = []
distinct seen (t ∷ ts) = if contains seen t then distinct seen ts else t ∷ distinct (t ∷ seen) ts

pub record JoinPath : Type 0 where
  pub from : String
  pub to : String
  pub path : Result

-- `src` with each later table
unfoldable pub paths_from : List ForeignKey → String → List String → List JoinPath
paths_from fks src [] = []
paths_from fks src (dst ∷ ts) =
    record { from = src; to = dst; path = shortest_path fks src dst } ∷ paths_from fks src ts

unfoldable pub paths_between : List ForeignKey → List String → List JoinPath
paths_between fks [] = []
paths_between fks (t ∷ ts) = paths_from fks t ts ++ paths_between fks ts

pub data JoinPaths : Type 0 where
  unknown_tables : List String → JoinPaths
  join_paths : List JoinPath → JoinPaths

unfoldable pub find_join_paths : List String → List ForeignKey → List String → JoinPaths
find_join_paths existing fks tables =
    let unknown = filter (λ t. not (contains existing t)) (distinct [] tables) in
    if leb 1 (length unknown)
    then unknown_tables unknown
    else join_paths (paths_between fks (distinct [] tables))
