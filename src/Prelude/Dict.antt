-- ===== src/Prelude/Dict.antt =====
-- Python's `dict` with string keys: an association list in insertion order. `d[k] = v` overwrites
-- in place or appends at the end, `d.pop(k, None)` and `del d[k]` remove.
use xpd_report_agent.Prelude.Lists.{sum_by, All}
use Prim.Native.Nat.{◌+◌, ◌≤◌, ℕ}
use Prim.Native.String.{String}
use mathlib.Core.Path.{◌≡◌, refl, sym, subst}
use mathlib.Core.Logic.{inl, inr}
use mathlib.Core.Option.{Option, none, some, some_inj}
use mathlib.Core.List.{List, [], ◌∷◌, map}
use native.Mathlib.Omega.{arith}
use text.Mathlib.Text.{◌==◌ as str_eq}
use text.Mathlib.TextEquality.{eq_iff}
use xpd_report_agent.Prelude.Tests.{if◌then◌else◌, Bool-cases}

abbrev pub Dict {ℓ} : Type ℓ → Type ℓ
Dict V = List (String × V)

module _ {ℓ} {V : Type ℓ} where
  -- d.get(k)
  unfoldable pub lookup : String → Dict V → Option V
  lookup k [] = none
  lookup k ((j, v) ∷ d) = if str_eq j k then some v else lookup k d

  -- d[k] = v
  unfoldable pub insert : String → V → Dict V → Dict V
  insert k v [] = (k, v) ∷ []
  insert k v ((j, w) ∷ d) = if str_eq j k then (j, v) ∷ d else (j, w) ∷ insert k v d

  -- d.pop(k, None), del d[k]
  unfoldable pub remove : String → Dict V → Dict V
  remove k [] = []
  remove k ((j, v) ∷ d) = let rest = remove k d in if str_eq j k then rest else (j, v) ∷ rest

  -- d.values()
  abbrev pub values : Dict V → List V
  values = map (λ e. e.1)

  pub lookup-insert :
      (k j : String) (v : V) (d : Dict V)
      → lookup j (insert k v d) ≡ (if str_eq k j then some v else lookup j d)
  unfolding lookup insert
  lookup-insert k j v [] = refl
  lookup-insert k j v ((i, w) ∷ d) =
      ground (arith, eq_iff k j, eq_iff i k, eq_iff i j, lookup-insert k j v d)

  pub lookup-remove :
      (k j : String) (d : Dict V)
      → lookup j (remove k d) ≡ (if str_eq k j then none else lookup j d)
  unfolding lookup remove
  lookup-remove k j [] = ground arith
  lookup-remove k j ((i, w) ∷ d) =
      ground (arith, eq_iff k j, eq_iff i k, eq_iff i j, lookup-remove k j d)

pub ruleset dict_laws = (lookup-insert, lookup-remove)

module _ {ℓ} {V : Type ℓ} where
  pub sum_by-remove :
      (f : String × V → ℕ) (k : String) (d : Dict V)
      → sum_by f (remove k d) ≡ sum_by (λ e. if str_eq e.0 k then 0 else f e) d
  unfolding remove
  sum_by-remove f k [] = refl
  sum_by-remove f k (e ∷ d) = ground (arith, sum_by-remove f k d)

  pub sum_by-remove-le :
      (f : String × V → ℕ) (k : String) (d : Dict V) → sum_by f (remove k d) ≤ sum_by f d
  unfolding remove
  sum_by-remove-le f k [] = omega arith
  sum_by-remove-le f k (e ∷ d) = ground (arith, sum_by-remove-le f k d)

  -- An overwritten entry keeps its place, and a new one is added.
  pub sum_by-insert-le :
      (f : String × V → ℕ) (k : String) (v : V) (d : Dict V)
      → ((j : String) (w : V) → f (j, w) ≤ f (k, w))
      → sum_by f (insert k v d) ≤ sum_by f d + f (k, v)
  unfolding insert
  sum_by-insert-le f k v [] h = omega arith
  sum_by-insert-le f k v ((j, w) ∷ d) h = ground (arith, h j v, sum_by-insert-le f k v d h)

-- What holds of every entry of a dictionary.
module _ {ℓ κ} {V : Type ℓ} (P : String × V → Type κ) where
  pub All-lookup : (k : String) (d : Dict V) {v : V} → All P d → lookup k d ≡ some v → P (k, v)
  unfolding lookup
  All-lookup k [] h e = cc
  All-lookup k ((j, w) ∷ d) {v} (p, ps) e = elim (Bool-cases (str_eq j k)) [
    | inl b ↦ subst P (λ i. ((eq_iff j k).0 b i, some_inj.0 (rw b at e) i)) p
    | inr b ↦ All-lookup k d ps (rw b at e)
  ]

  pub All-insert : (k : String) (v : V) (d : Dict V) → All P d → P (k, v) → All P (insert k v d)
  unfolding insert
  All-insert k v [] ps p = (p, tt)
  All-insert k v ((j, w) ∷ d) (q, qs) p = elim (Bool-cases (str_eq j k)) [
    | inl b ↦ rw b (subst (λ i. P (i, v)) (sym ((eq_iff j k).0 b)) p, qs)
    | inr b ↦ rw b (q, All-insert k v d qs p)
  ]

  pub All-remove : (k : String) (d : Dict V) → All P d → All P (remove k d)
  unfolding remove
  All-remove k [] ps = tt
  All-remove k ((j, w) ∷ d) (q, qs) = elim (Bool-cases (str_eq j k)) [
    | inl b ↦ rw b (All-remove k d qs)
    | inr b ↦ rw b (q, All-remove k d qs)
  ]
