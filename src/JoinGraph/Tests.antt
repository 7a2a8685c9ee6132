-- ===== src/JoinGraph/Tests.antt =====
-- A small schema for src/xpd_report_agent/hermes_plugin/db_query/join_graph.py.
use xpd_report_agent.Prelude.{String, ◌≡◌, refl, ◌≢◌, List, [], ◌∷◌}
use xpd_report_agent.JoinGraph.Search.{
  ForeignKey, edge_of, reverse_edge_of, build_graph, edges_from, scan, expand, found, unreachable,
  out_of_fuel, search, shortest_path, distinct, unknown_tables, paths_from, paths_between,
  find_join_paths,
}
use xpd_report_agent.JoinGraph.Answer.{IsAnswer, shortest_path-IsAnswer}

program : Unit {0}
unfolding edge_of reverse_edge_of build_graph edges_from scan expand search shortest_path distinct
    paths_from paths_between find_join_paths
program = tt

abbrev key : String → String → ForeignKey
key a b = record { from_table = a; from_column = "id"; to_table = b; to_column = "id" }

abbrev keys : List ForeignKey
keys = key "a" "b" ∷ key "b" "c" ∷ key "c" "d" ∷ key "a" "d" ∷ []

two_edges :
    shortest_path keys "b" "d" ≡ found (reverse_edge_of (key "a" "b") ∷ edge_of (key "a" "d") ∷ [])
unfolding program
two_edges = refl

no_path : shortest_path keys "b" "x" ≡ unreachable
unfolding program
no_path = refl

unknown : find_join_paths ("a" ∷ "b" ∷ []) keys ("a" ∷ "y" ∷ "a" ∷ []) ≡ unknown_tables ("y" ∷ [])
unfolding program
unknown = refl

shortest_path-IsAnswer_example :
    (shortest_path keys "b" "d" ≢ out_of_fuel)
    × IsAnswer (build_graph keys) "b" "d" (shortest_path keys "b" "d")
shortest_path-IsAnswer_example = shortest_path-IsAnswer keys "b" "d"
