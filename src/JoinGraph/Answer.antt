-- ===== src/JoinGraph/Answer.antt =====
-- What `shortest_path` of src/xpd_report_agent/hermes_plugin/db_query/join_graph.py promises.
use xpd_report_agent.Prelude.{
  ℕ, zero, suc, ◌≤◌, String, refl, sym, ap, ◌≢◌, inl, inr, List, [], ◌∷◌, arith, str_eq, eq_iff,
  Bool-cases, length,
}
use mathlib.Core.Path.{subst}
use mathlib.Core.List.Memᴰ
use mathlib.Core.List.Memᴰ.{head}
use xpd_report_agent.JoinGraph.Search.{
  ForeignKey, Edge, build_graph, edges_from, Entry, scan, expand, Result, found, unreachable,
  out_of_fuel, search, shortest_path,
}
use xpd_report_agent.JoinGraph.Rounds.{shortest_path_ends}
use xpd_report_agent.JoinGraph.Walks.{Walk, scan-queue, scan-visited}
use xpd_report_agent.JoinGraph.Shortest.{Inv, onward, Inv-round}

-- The answer is right: a found path leads along the graph from the start to the target, and none
-- has fewer edges; where there is no answer, no path leads there.
abbrev pub IsAnswer : List Edge → String → String → Result → Type 0
IsAnswer g start target (found p) =
    Walk g start p target × ((q : List Edge) → Walk g start q target → length p ≤ length q)
IsAnswer g start target unreachable = (q : List Edge) → Walk g start q target → ⊥
IsAnswer g start target out_of_fuel = Unit

search-IsAnswer :
    (g : List Edge) (start target : String) (fuel : ℕ) (past : List Entry) (vs : List String)
    (queue : List Entry) (k : ℕ)
    → Inv g start target past vs queue k
    → IsAnswer g start target (search g target fuel vs queue)
unfolding search expand
search-IsAnswer g start target fuel past vs [] k inv = λ q w.
    let (x, seen, at_start, short) = inv.source in
    let (y, m, _) =
      onward g start target past vs [] k q x inv seen
        (subst (λ t. Walk g t q target) (sym at_start) w) in
    Memᴰ.not-nil m
search-IsAnswer g start target zero past vs (x ∷ rest) k inv = tt
search-IsAnswer g start target (suc fuel) past vs ((current, path) ∷ rest) k inv =
    elim (Bool-cases (str_eq current target)) [
      | inl b ↦ rw b (
        subst (Walk g start path) ((eq_iff current target).0 b)
            (inv.walks (current, path) (head refl)),
        λ q w.
            let (x, seen, at_start, short) = inv.source in
            let (y, m, below) =
              onward g start target past vs ((current, path) ∷ rest) k q x inv seen
                (subst (λ t. Walk g t q target) (sym at_start) w) in
            elim (Memᴰ.cases_cons m) [
              | inl same ↦ omega (arith, ap (λ z. length z.1) same)
              | inr later ↦ omega (arith, inv.ordered.0 y later)
            ],
      )
      | inr b ↦
          let es = edges_from current g in
          let next = scan path es vs rest in
          rw b (
            search-IsAnswer g start target fuel ((current, path) ∷ past) next.visited next.queue
              (length path)
              (subst
                (λ queue.
                  Inv g start target ((current, path) ∷ past) next.visited queue (length path))
                (sym (scan-queue path es vs rest))
                (Inv-round g start target current path rest past vs k next.visited
                  (scan-visited path es vs rest)
                  (λ same. let h = (eq_iff current target).1 same in ground arith) inv)))
    ]

Inv-start :
    (g : List Edge) (start target : String)
    → Inv g start target [] (start ∷ []) ((start, []) ∷ []) 0
Inv-start g start target = record {
  old = λ x m. absurd (Memᴰ.not-nil m);
  queued = λ x m. rw (Memᴰ.eq_of_singleton m) (omega arith, omega arith);
  ordered = ((λ y m. absurd (Memᴰ.not-nil m)), tt);
  visited =
      λ w h. ((start, []), inr (head refl), sym ((eq_iff w start).0 (ground arith)), omega arith);
  closed = λ x m e n q. absurd (Memᴰ.not-nil m);
  source = ((start, []), inr (head refl), refl, omega arith);
  walks = λ x m. rw (Memᴰ.eq_of_singleton m) refl;
}

-- Whatever the foreign keys, `shortest_path` returns, within one round more than the graph has
-- edges: it finds a path of edges of the graph from the start to the target than which no other has
-- fewer edges, or it returns nothing, and then no path leads from the start to the target.
pub shortest_path-IsAnswer :
    (fks : List ForeignKey) (start target : String)
    → (shortest_path fks start target ≢ out_of_fuel)
      × IsAnswer (build_graph fks) start target (shortest_path fks start target)
unfolding shortest_path
shortest_path-IsAnswer fks start target =
    let g = build_graph fks in
    (
      shortest_path_ends fks start target,
      search-IsAnswer g start target (suc (length g)) [] (start ∷ []) ((start, []) ∷ []) 0
          (Inv-start g start target),
    )
