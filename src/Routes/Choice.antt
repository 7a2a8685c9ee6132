-- ===== src/Routes/Choice.antt =====
-- `_select_node` of src/xpd_report_agent/hermes_pool.py: the node that it takes.
use mathlib.Core.Path.{subst}
use xpd_report_agent.Prelude.{
  any, All, ℕ, ◌≤◌, String, ◌≡◌, refl, ◌≢◌, inl, inr, Bool, true, false, ◌||◌, List, [], ◌∷◌, arith,
  ltb, leb, ◌==◌, Bool-cases, filter, min,
}
use xpd_report_agent.Prelude.Dict.{Dict}
use xpd_report_agent.Prelude.Result.{ok}
use xpd_report_agent.Routes.Pool.{HermesNode, assignment_count, least, greatest, pick, choose}

module _ {A : Type 0} (q : A → Bool) where
  All-filter : (P : A → Type 0) (xs : List A) → All P xs → All P (filter q xs)
  All-filter P [] h = tt
  All-filter P (x ∷ xs) (p, ps) = elim (Bool-cases (q x)) [
    | inl b ↦ rw b (p, All-filter P xs ps)
    | inr b ↦ rw b (All-filter P xs ps)
  ]

  filter-All : (xs : List A) → All (λ x. q x ≡ true) (filter q xs)
  filter-All [] = tt
  filter-All (x ∷ xs) = elim (Bool-cases (q x)) [
    | inl b ↦ rw b (b, filter-All xs)
    | inr b ↦ rw b (filter-All xs)
  ]

  All-filter_back :
      (P : A → Type 0) (xs : List A) → All P (filter q xs) → All (λ x. q x ≡ true → P x) xs
  All-filter_back P [] h = tt
  All-filter_back P (x ∷ xs) h = elim (Bool-cases (q x)) [
    | inl b ↦ let (p, ps) = rw b at h in (λ _. p, All-filter_back P xs ps)
    | inr b ↦ (λ t. absurd (ground arith), All-filter_back P xs (rw b at h))
  ]

  any-filter : (xs : List A) → any q xs ≡ true → filter q xs ≢ []
  any-filter [] h e = ground arith
  any-filter (x ∷ xs) h e = elim (Bool-cases (q x)) [
    | inl b ↦ let e' = rw b at e in ground arith
    | inr b ↦ any-filter xs (ground arith) (rw b at e)
  ]

pub All-map :
    {A : Type 0} (P Q : A → Type 0) (xs : List A) → ((x : A) → P x → Q x) → All P xs → All Q xs
All-map P Q [] f h = tt
All-map P Q (x ∷ xs) f (p, ps) = (f x p, All-map P Q xs f ps)

All-zip :
    {A : Type 0} (P Q R : A → Type 0) (xs : List A)
    → ((x : A) → P x → Q x → R x)
    → All P xs
    → All Q xs
    → All R xs
All-zip P Q R [] f h k = tt
All-zip P Q R (x ∷ xs) f (p, ps) (q, qs) = (f x p q, All-zip P Q R xs f ps qs)

or-true : (b : Bool) {c : Bool} → c ≡ true → (b || c) ≡ true
or-true true h = refl
or-true false h = h

module _ (key : HermesNode → ℕ) where
  least-le : (n : HermesNode) (ns : List HermesNode) → All (λ m. least key n ns ≤ key m) (n ∷ ns)
  unfolding least
  least-le n [] = (omega arith, tt)
  least-le n (m ∷ ms) = (
    omega arith,
    All-map (λ x. least key m ms ≤ key x) (λ x. least key n (m ∷ ms) ≤ key x) (m ∷ ms)
        (λ x h. omega arith) (least-le m ms),
  )

  least-any :
      (n : HermesNode) (ns : List HermesNode) → any (λ m. key m == least key n ns) (n ∷ ns) ≡ true
  unfolding least
  least-any n [] = ground arith
  least-any n (m ∷ ms) = elim (Bool-cases (leb (key n) (least key m ms))) [
    | inl b ↦
        let e : key n ≡ min (key n) (least key m ms) = ground arith in
        subst (λ l. ((key n == l) || any (λ x. key x == l) (m ∷ ms)) ≡ true) e (ground arith)
    | inr b ↦
        let e : least key m ms ≡ min (key n) (least key m ms) = ground arith in
        subst (λ l. ((key n == l) || any (λ x. key x == l) (m ∷ ms)) ≡ true) e
          (or-true (key n == least key m ms) (least-any m ms))
  ]

  greatest-All :
      (P : HermesNode → Type 0) (best : HermesNode) (ns : List HermesNode)
      → P best
      → All P ns
      → P (greatest key best ns)
  unfolding greatest
  greatest-All P best [] p h = p
  greatest-All P best (n ∷ ns) p (q, qs) = elim (Bool-cases (ltb (key best) (key n))) [
    | inl b ↦ rw b (greatest-All P n ns q qs)
    | inr b ↦ rw b (greatest-All P best ns p qs)
  ]

  greatest-le :
      (best : HermesNode) (ns : List HermesNode)
      → All (λ m. key m ≤ key (greatest key best ns)) (best ∷ ns)
  unfolding greatest
  greatest-le best [] = (omega arith, tt)
  greatest-le best (n ∷ ns) = elim (Bool-cases (ltb (key best) (key n))) [
    | inl b ↦
        let (h, hs) = greatest-le n ns in
        let e : greatest key n ns ≡ greatest key best (n ∷ ns) = rw b refl in
        subst (λ g. All (λ m. key m ≤ key g) (best ∷ n ∷ ns)) e (ground arith, (h, hs))
    | inr b ↦
        let (h, hs) = greatest-le best ns in
        let e : greatest key best ns ≡ greatest key best (n ∷ ns) = rw b refl in
        subst (λ g. All (λ m. key m ≤ key g) (best ∷ n ∷ ns)) e (h, (ground arith, hs))
  ]

-- A choice from a list that is not empty: it succeeds, takes an element, and one of greatest key.
pick_found :
    (key : HermesNode → ℕ) (xs : List HermesNode)
    → xs ≢ []
    → (n : HermesNode) × (pick key xs ≡ ok n)
      × (((P : HermesNode → Type 0) → All P xs → P n) × All (λ m. key m ≤ key n) xs)
unfolding pick
pick_found key [] h = absurd (h refl)
pick_found key (x ∷ xs) h =
    (greatest key x xs, refl, ((λ P ps. greatest-All key P x xs ps.0 ps.1), greatest-le key x xs))

-- Among one candidate or more `choose` finds a node, one of the least count and then of the greatest
-- digest.
pub choose_lem :
    (digest : String → String → ℕ) (route_key : String) (bindings : Dict String) (n : HermesNode)
    (ns : List HermesNode)
    → (chosen : HermesNode) × (choose digest route_key bindings (n ∷ ns) ≡ ok chosen)
      × (((P : HermesNode → Type 0) → All P (n ∷ ns) → P chosen)
          × All
              (λ m.
                (assignment_count bindings chosen ≤ assignment_count bindings m)
                × (assignment_count bindings m ≡ assignment_count bindings chosen
                    → digest route_key m.node_id ≤ digest route_key chosen.node_id))
              (n ∷ ns))
unfolding choose
choose_lem digest route_key bindings n ns =
    let count = assignment_count bindings in
    let key : HermesNode → ℕ = λ m. digest route_key m.node_id in
    let low = least count n ns in
    let q : HermesNode → Bool = λ m. count m == low in
    let all = n ∷ ns in
    let (chosen, e, (mem, great)) =
      pick_found key (filter q all) (any-filter q all (least-any count n ns)) in
    let fewest : q chosen ≡ true = mem (λ m. q m ≡ true) (filter-All q all) in
    (
      chosen,
      e,
      (
        (λ P ps. mem P (All-filter q P all ps)),
        All-zip (λ m. low ≤ count m) (λ m. q m ≡ true → key m ≤ key chosen) _ all
            (λ m l g. (ground arith, λ same. g (ground arith))) (least-le count n ns)
            (All-filter_back q (λ m. key m ≤ key chosen) all great),
      ),
    )
