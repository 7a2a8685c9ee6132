-- ===== src/JoinGraph/Rounds.antt =====
-- The rounds of `shortest_path` (src/xpd_report_agent/hermes_plugin/db_query/join_graph.py).
use xpd_report_agent.Prelude.{
  any, All, length-filter-le, eq_refl, length-append, ℕ, zero, suc, ◌+◌, ◌≤◌, String, ◌≡◌, ◌≢◌, inl,
  inr, Bool, true, false, not, List, [], ◌∷◌, ◌++◌, arith, str_eq, eq_iff, eq_refl, Bool-cases,
  length, filter,
}
use xpd_report_agent.JoinGraph.Search.{
  ForeignKey, Edge, build_graph, edges_from, Entry, State, contains, scan, out_of_fuel, expand,
  search, shortest_path,
}

-- How many edges lead to a table that was not visited.
abbrev pub unvisited : List Edge → List String → ℕ
unvisited g vs = length (filter (λ e. not (contains vs e.to_table)) g)

unvisited-le :
    (g : List Edge) (vs : List String) (t : String) → unvisited g (t ∷ vs) ≤ unvisited g vs
unvisited-le [] vs t = omega arith
unvisited-le (e ∷ g) vs t = ground (arith, unvisited-le g vs t)

abbrev pub leads_to : String → Edge → Bool
leads_to t e = str_eq e.to_table t

-- A new table takes at least the edge that leads to it.
unvisited-lt :
    (g : List Edge) (vs : List String) (t : String)
    → contains vs t ≡ false
    → any (leads_to t) g ≡ true
    → suc (unvisited g (t ∷ vs)) ≤ unvisited g vs
unvisited-lt [] vs t new h = absurd (ground arith)
unvisited-lt (f ∷ g) vs t new h = elim (Bool-cases (str_eq f.to_table t)) [
  | inl b ↦
      let new' : contains vs f.to_table ≡ false = rw ((eq_iff f.to_table t).0 b) new in
      ground (arith, unvisited-le g vs t)
  | inr b ↦ ground (arith, unvisited-lt g vs t new)
]

-- What is left to do: the tables in the queue and the edges that may add one.
abbrev pub work : List Edge → State → ℕ
work g s = length s.queue + unvisited g s.visited

scan-work :
    (g path es : List Edge) (vs : List String) (queue : List Entry)
    → All (λ e. any (leads_to e.to_table) g ≡ true) es
    → work g (scan path es vs queue) ≤ length queue + unvisited g vs
unfolding scan
scan-work g path [] vs queue h = omega arith
scan-work g path (e ∷ es) vs queue (h, hs) = elim (Bool-cases (contains vs e.to_table)) [
  | inl b ↦ rw b (scan-work g path es vs queue hs)
  | inr b ↦
      let x : List Entry = (e.to_table, path ++ e ∷ []) ∷ [] in
      rw b (
        omega (
          arith,
          scan-work g path es (e.to_table ∷ vs) (queue ++ x) hs,
          length-append queue x,
          unvisited-lt g vs e.to_table b h,
        ))
]

-- The edges that a filter keeps are edges of the graph.
kept-leads :
    (p : Edge → Bool) (g full : List Edge)
    → All (λ e. any (leads_to e.to_table) full ≡ true) g
    → All (λ e. any (leads_to e.to_table) full ≡ true) (filter p g)
kept-leads p [] full h = tt
kept-leads p (e ∷ g) full (h, hs) = elim (Bool-cases (p e)) [
  | inl b ↦ rw b (h, kept-leads p g full hs)
  | inr b ↦ rw b (kept-leads p g full hs)
]

weaken :
    (f : Edge) (full es : List Edge)
    → All (λ e. any (leads_to e.to_table) full ≡ true) es
    → All (λ e. any (leads_to e.to_table) (f ∷ full) ≡ true) es
weaken f full [] h = tt
weaken f full (e ∷ es) (h, hs) = (ground arith, weaken f full es hs)

All-leads : (g : List Edge) → All (λ e. any (leads_to e.to_table) g ≡ true) g
All-leads [] = tt
All-leads (e ∷ g) = (ground (arith, eq_refl e.to_table), weaken e g g (All-leads g))

search_ends :
    (g : List Edge) (target : String) (fuel : ℕ) (visited : List String) (queue : List Entry)
    → length queue + unvisited g visited ≤ fuel
    → search g target fuel visited queue ≢ out_of_fuel
unfolding search expand edges_from
search_ends g target fuel visited [] h e = ground arith
search_ends g target zero visited (x ∷ rest) h e = ground arith
search_ends g target (suc fuel) visited ((current, path) ∷ rest) h e =
    let less =
      scan-work g path (edges_from current g) visited rest
        (kept-leads (λ e. str_eq e.from_table current) g g (All-leads g)) in
    let next = scan path (edges_from current g) visited rest in
    elim (Bool-cases (str_eq current target)) [
      | inl b ↦ let e' = rw b at e in ground arith
      | inr b ↦ search_ends g target fuel next.visited next.queue (omega arith) (rw b at e)
    ]

-- However tables, keys and target are chosen, the loop of `shortest_path` comes to its end: the
-- rounds that the model allows it, one more than there are edges, are enough.
pub shortest_path_ends :
    (fks : List ForeignKey) (start target : String) → shortest_path fks start target ≢ out_of_fuel
unfolding shortest_path
shortest_path_ends fks start target =
    search_ends (build_graph fks) target (suc (length (build_graph fks))) (start ∷ [])
      ((start, []) ∷ [])
      (omega
        (arith, length-filter-le (λ e. not (contains (start ∷ []) e.to_table)) (build_graph fks)))
