-- ===== src/JoinGraph/Walks.antt =====
-- Walks in a join graph, and what one round of `shortest_path`
-- (src/xpd_report_agent/hermes_plugin/db_query/join_graph.py) adds to the queue.
use mathlib.Core.List.{Memᴰ, append_assoc, append-nil}
use mathlib.Core.List.Memᴰ
use mathlib.Core.List.Memᴰ.{head, tail}
use xpd_report_agent.Prelude.{
  String, ◌≡◌, refl, sym, ap, ◌∙◌, ◌⊎◌, inl, inr, Bool, true, false, List, [], ◌∷◌, ◌++◌, str_eq,
  eq_iff, if◌then◌else◌, Bool-cases, filter,
}
use xpd_report_agent.JoinGraph.Search.{Edge, Entry, contains, scan}

-- The edges lead, one after the other, from the first table to the second.
abbrev pub Walk : List Edge → String → List Edge → String → Type 0
Walk g u [] t = u ≡ t
Walk g u (e ∷ p) t = Memᴰ e g × (e.from_table ≡ u) × Walk g e.to_table p t

pub Walk-snoc :
    (g : List Edge) (u : String) (p : List Edge) (e : Edge)
    → Walk g u p e.from_table
    → Memᴰ e g
    → Walk g u (p ++ e ∷ []) e.to_table
Walk-snoc g u [] e h m = (m, sym h, refl)
Walk-snoc g u (f ∷ p) e (n, q, w) m = (n, q, Walk-snoc g f.to_table p e w m)

-- The entries that `scan` adds.
abbrev pub fresh : List Edge → List Edge → List String → List Entry
fresh path [] vs = []
fresh path (e ∷ es) vs =
    let more = fresh path es (e.to_table ∷ vs) in
    let same = fresh path es vs in
    if contains vs e.to_table then same else (e.to_table, path ++ e ∷ []) ∷ more

pub scan-queue :
    (path es : List Edge) (vs : List String) (queue : List Entry)
    → (scan path es vs queue).queue ≡ queue ++ fresh path es vs
unfolding scan
scan-queue path [] vs queue = sym (append-nil queue)
scan-queue path (e ∷ es) vs queue = elim (Bool-cases (contains vs e.to_table)) [
  | inl b ↦ rw b (scan-queue path es vs queue)
  | inr b ↦ rw b (
      scan-queue path es (e.to_table ∷ vs) (queue ++ ((e.to_table, path ++ e ∷ []) ∷ []))
      ∙ append_assoc queue _ _)
]

-- An added entry is one edge longer than the path, by an edge that was scanned.
pub fresh-added :
    (path es : List Edge) (vs : List String) (x : Entry)
    → Memᴰ x (fresh path es vs)
    → (e : Edge) × Memᴰ e es × (x ≡ (e.to_table, path ++ e ∷ []))
fresh-added path [] vs x m = absurd (Memᴰ.not-nil m)
fresh-added path (e ∷ es) vs x m = elim (Bool-cases (contains vs e.to_table)) [
  | inl b ↦ let (f, n, q) = fresh-added path es vs x (rw b at m) in (f, tail n, q)
  | inr b ↦ elim (Memᴰ.cases_cons (rw b at m)) [
    | inl q ↦ (e, head refl, q)
    | inr n ↦ let (f, k, q) = fresh-added path es (e.to_table ∷ vs) x n in (f, tail k, q)
  ]
]

-- The table is marked, or an added entry is for it.
abbrev pub Reached : List Edge → List Edge → List String → String → Type 0
Reached path es vs w =
    (contains vs w ≡ true) ⊎ ((x : Entry) × Memᴰ x (fresh path es vs) × (x.0 ≡ w))

skip :
    (path : List Edge) (e : Edge) (es : List Edge) (vs : List String) (w : String)
    → contains vs e.to_table ≡ true
    → Reached path es vs w
    → Reached path (e ∷ es) vs w
skip path e es vs w b (inl h) = inl h
skip path e es vs w b (inr (x, m, q)) = inr (x, rw b m, q)

added :
    (path : List Edge) (e : Edge) (es : List Edge) (vs : List String) (w : String)
    → contains vs e.to_table ≡ false
    → Reached path es (e.to_table ∷ vs) w
    → Reached path (e ∷ es) vs w
added path e es vs w b (inl h) = elim (Bool-cases (str_eq w e.to_table)) [
  | inl q ↦ inr ((e.to_table, path ++ e ∷ []), rw b (head refl), sym ((eq_iff w e.to_table).0 q))
  | inr q ↦ inl (rw q at h)
]
added path e es vs w b (inr (x, m, q)) = inr (x, rw b (tail m), q)

pub scan-visited :
    (path es : List Edge) (vs : List String) (queue : List Entry) (w : String)
    → contains (scan path es vs queue).visited w ≡ true
    → Reached path es vs w
unfolding scan
scan-visited path [] vs queue w h = inl h
scan-visited path (e ∷ es) vs queue w h = elim (Bool-cases (contains vs e.to_table)) [
  | inl b ↦ skip path e es vs w b (scan-visited path es vs queue w (rw (b, scan) at h))
  | inr b ↦ added path e es vs w b (
      scan-visited path es (e.to_table ∷ vs) (queue ++ ((e.to_table, path ++ e ∷ []) ∷ [])) w
        (rw (b, scan) at h))
]

-- Every scanned edge leads to a table that is marked or added.
pub scanned-Reached :
    (path es : List Edge) (vs : List String) (e : Edge) → Memᴰ e es → Reached path es vs e.to_table
scanned-Reached path [] vs e m = absurd (Memᴰ.not-nil m)
scanned-Reached path (f ∷ es) vs e m = elim (Memᴰ.cases_cons m) [
  | inl q ↦ elim (Bool-cases (contains vs f.to_table)) [
    | inl b ↦ inl (rw q b)
    | inr b ↦ inr ((f.to_table, path ++ f ∷ []), rw b (head refl), ap (λ d. d.to_table) (sym q))
  ]
  | inr n ↦ elim (Bool-cases (contains vs f.to_table)) [
    | inl b ↦ skip path f es vs e.to_table b (scanned-Reached path es vs e n)
    | inr b ↦ added path f es vs e.to_table b (scanned-Reached path es (f.to_table ∷ vs) e n)
  ]
]

pub mem-filter :
    (p : Edge → Bool) (g : List Edge) (e : Edge) → Memᴰ e g → p e ≡ true → Memᴰ e (filter p g)
mem-filter p [] e m h = absurd (Memᴰ.not-nil m)
mem-filter p (f ∷ g) e m h = elim (Memᴰ.cases_cons m) [
  | inl q ↦ let b : p f ≡ true = rw q at h in rw b (head q)
  | inr n ↦ elim (Bool-cases (p f)) [
    | inl b ↦ rw b (tail (mem-filter p g e n h))
    | inr b ↦ rw b (mem-filter p g e n h)
  ]
]

pub filter-mem :
    (p : Edge → Bool) (g : List Edge) (e : Edge) → Memᴰ e (filter p g) → Memᴰ e g × (p e ≡ true)
filter-mem p [] e m = absurd (Memᴰ.not-nil m)
filter-mem p (f ∷ g) e m = elim (Bool-cases (p f)) [
  | inr b ↦ let (n, h) = filter-mem p g e (rw b at m) in (tail n, h)
  | inl b ↦ elim (Memᴰ.cases_cons (rw b at m)) [
    | inl q ↦ (head q, rw q b)
    | inr n ↦ let (k, h) = filter-mem p g e n in (tail k, h)
  ]
]
