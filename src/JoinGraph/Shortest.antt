-- ===== src/JoinGraph/Shortest.antt =====
-- The order of the queue of `shortest_path`
-- (src/xpd_report_agent/hermes_plugin/db_query/join_graph.py).
use mathlib.Core.Path.{subst}
use mathlib.Core.List.{Memᴰ}
use mathlib.Core.List.Memᴰ
use mathlib.Core.List.Memᴰ.{head, tail}
use xpd_report_agent.Prelude.{
  length-append, ℕ, suc, ◌+◌, ◌≤◌, String, ◌≡◌, refl, sym, ap, ◌∙◌, ◌≢◌, ◌⊎◌, inl, inr, true, List,
  [], ◌∷◌, ◌++◌, arith, str_eq, eq_iff, length,
}
use xpd_report_agent.JoinGraph.Search.{Edge, edges_from, Entry, contains}
use xpd_report_agent.JoinGraph.Walks.{
  Walk, Walk-snoc, fresh, fresh-added, Reached, scanned-Reached, mem-filter, filter-mem,
}

-- The entry was in the queue: it has left it, or is in it still.
abbrev pub Seen : Entry → List Entry → List Entry → Type 0
Seen x past queue = Memᴰ x past ⊎ Memᴰ x queue

-- The table was in the queue, with a path of at most so many edges.
abbrev pub Known : String → ℕ → List Entry → List Entry → Type 0
Known w n past queue = (x : Entry) × Seen x past queue × (x.0 ≡ w) × (length x.1 ≤ n)

-- The queue is in order of the lengths of its paths.
abbrev pub Ascending : List Entry → Type 0
Ascending [] = Unit
Ascending (x ∷ xs) = ((y : Entry) → Memᴰ y xs → length x.1 ≤ length y.1) × Ascending xs

Ascending-append :
    (n : ℕ) (xs ys : List Entry)
    → Ascending xs
    → ((x : Entry) → Memᴰ x xs → length x.1 ≤ n)
    → ((y : Entry) → Memᴰ y ys → length y.1 ≡ n)
    → Ascending (xs ++ ys)
Ascending-append n [] [] a below same = tt
Ascending-append n [] (y ∷ ys) a below same = (
  (λ z m. omega (arith, same y (head refl), same z (tail m))),
  Ascending-append n [] ys tt (λ x m. absurd (Memᴰ.not-nil m)) (λ z m. same z (tail m)),
)
Ascending-append n (x ∷ xs) ys (least, a) below same = (
  (λ z m. elim (Memᴰ.append_cases xs m) [
    | inl k ↦ least z k
    | inr k ↦ omega (arith, same z k, below x (head refl))
  ]),
  Ascending-append n xs ys a (λ z m. below z (tail m)) same,
)

-- Between two rounds: the entries that have left the queue are `past`, with paths up to `k`.
pub record Inv (g : List Edge) (start target : String) (past : List Entry) (vs : List String)
    (queue : List Entry) (k : ℕ) : Type 0 where
  pub old : (x : Entry) → Memᴰ x past → (length x.1 ≤ k) × (x.0 ≢ target)
  pub queued : (x : Entry) → Memᴰ x queue → (k ≤ length x.1) × (length x.1 ≤ suc k)
  pub ordered : Ascending queue
  pub visited : (w : String) → contains vs w ≡ true → Known w (suc k) past queue
  pub closed :
      (x : Entry)
      → Memᴰ x past
      → (e : Edge) → Memᴰ e g
      → e.from_table ≡ x.0
      → Known e.to_table (suc (length x.1)) past queue
  pub source : Known start 0 past queue
  pub walks : (x : Entry) → Memᴰ x queue → Walk g start x.1 x.0

-- A walk to the target from a table that was in the queue leads on from an entry of the queue.
pub onward :
    (g : List Edge) (start target : String) (past : List Entry) (vs : List String)
    (queue : List Entry) (k : ℕ) (q : List Edge) (x : Entry)
    → Inv g start target past vs queue k
    → Seen x past queue
    → Walk g x.0 q target
    → (y : Entry) × Memᴰ y queue × (length y.1 ≤ length x.1 + length q)
onward g start target past vs queue k q x inv (inr m) w = (x, m, omega arith)
onward g start target past vs queue k [] x inv (inl m) w = absurd ((inv.old x m).1 w)
onward g start target past vs queue k (e ∷ q) x inv (inl m) (n, from, w) =
    let (y, seen, to, short) = inv.closed x m e n from in
    let w' : Walk g y.0 q target = subst (λ t. Walk g t q target) (sym to) w in
    let (z, in_queue, below) = onward g start target past vs queue k q y inv seen w' in
    (z, in_queue, omega arith)

module _ (g : List Edge) (start target current : String) (path : List Edge) (rest : List Entry)
    (past : List Entry) (vs : List String) (k : ℕ) where
  abbrev pub added : List Entry
  added = fresh path (edges_from current g) vs

  moved :
      (w : String) (n m : ℕ)
      → n ≤ m
      → Known w n past ((current, path) ∷ rest)
      → Known w m ((current, path) ∷ past) (rest ++ added)
  moved w n m le (x, inl o, q, s) = (x, inl (tail o), q, omega arith)
  moved w n m le (x, inr i, q, s) = elim (Memᴰ.cases_cons i) [
    | inl same ↦ (x, inl (head same), q, omega arith)
    | inr r ↦ (x, inr (Memᴰ.append_left added r), q, omega arith)
  ]

  length-added : (x : Entry) → Memᴰ x added → length x.1 ≡ suc (length path)
  length-added x m =
      let (e, _, q) = fresh-added path (edges_from current g) vs x m in
      rw q (omega (arith, length-append path (e ∷ [])))

  reached-Known :
      Inv g start target past vs ((current, path) ∷ rest) k
      → (w : String) → Reached path (edges_from current g) vs w
      → Known w (suc (length path)) ((current, path) ∷ past) (rest ++ added)
  reached-Known inv w (inl h) =
      moved w (suc k) (suc (length path)) (omega (arith, inv.queued (current, path) (head refl)))
        (inv.visited w h)
  reached-Known inv w (inr (x, m, q)) =
      (x, inr (Memᴰ.append_right rest m), q, omega (arith, length-added x m))

  from_current : (e : Edge) → Memᴰ e (edges_from current g) → Memᴰ e g × (e.from_table ≡ current)
  unfolding edges_from
  from_current e m =
      let (n, h) = filter-mem (λ e. str_eq e.from_table current) g e m in
      (n, (eq_iff e.from_table current).0 h)

  to_current : (e : Edge) → Memᴰ e g → e.from_table ≡ current → Memᴰ e (edges_from current g)
  unfolding edges_from
  to_current e m q =
      mem-filter (λ e. str_eq e.from_table current) g e m ((eq_iff e.from_table current).1 q)

  pub Inv-round :
      (vs' : List String)
      → ((w : String) → contains vs' w ≡ true → Reached path (edges_from current g) vs w)
      → current ≢ target
      → Inv g start target past vs ((current, path) ∷ rest) k
      → Inv g start target ((current, path) ∷ past) vs' (rest ++ added) (length path)
  Inv-round vs' marks other inv = record {
    old = λ x m. elim (Memᴰ.cases_cons m) [
      | inl q ↦ rw q (omega arith, other)
      | inr o ↦
          (omega (arith, inv.old x o, inv.queued (current, path) (head refl)), (inv.old x o).1)
    ];
    queued = λ x m. elim (Memᴰ.append_cases rest m) [
      | inl r ↦ (
        inv.ordered.0 x r,
        omega (arith, inv.queued x (tail r), inv.queued (current, path) (head refl)),
      )
      | inr a ↦ (omega (arith, length-added x a), omega (arith, length-added x a))
    ];
    ordered =
        Ascending-append (suc (length path)) rest added inv.ordered.1
          (λ x m. omega (arith, inv.queued x (tail m), inv.queued (current, path) (head refl)))
          length-added;
    visited = λ w h. reached-Known inv w (marks w h);
    closed = λ x m e n q. elim (Memᴰ.cases_cons m) [
      | inl s ↦
          let at_current : e.from_table ≡ current = q ∙ ap (λ y. y.0) s in
          rw s (
            reached-Known inv e.to_table
              (scanned-Reached path (edges_from current g) vs e (to_current e n at_current)))
      | inr o ↦ moved e.to_table _ _ (omega arith) (inv.closed x o e n q)
    ];
    source = moved start 0 0 (omega arith) inv.source;
    walks = λ x m. elim (Memᴰ.append_cases rest m) [
      | inl r ↦ inv.walks x (tail r)
      | inr a ↦
          let (e, n, q) = fresh-added path (edges_from current g) vs x a in
          let (i, from) = from_current e n in
          rw q (
            Walk-snoc g start path e
              (subst (Walk g start path) (sym from) (inv.walks (current, path) (head refl))) i)
    ];
  }
