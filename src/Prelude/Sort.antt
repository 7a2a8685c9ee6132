-- ===== src/Prelude/Sort.antt =====
-- A stable insertion sort on a Boolean order, for `list.sort` and `sorted`: the result is a
-- permutation, and in order where the Boolean order is total.
use native.Mathlib.Omega.{arith}
use xpd_report_agent.Prelude.Lists.{sum_by}
use Prim.Native.Nat.{◌+◌, ℕ}
use mathlib.Core.Path.{refl, ◌≡◌}
use mathlib.Core.Logic.{inl, inr}
use mathlib.Core.Bool.{Bool, true, false}
use mathlib.Core.List.{List, [], ◌∷◌, Perm}
use mathlib.Core.List.Perm
use xpd_report_agent.Prelude.Tests.{if◌then◌else◌, Bool-cases}

module _ {ℓ} {A : Type ℓ} where
  unfoldable pub place : (A → A → Bool) → A → List A → List A
  place le x [] = x ∷ []
  place le x (y ∷ ys) = let rest = y ∷ place le x ys in if le x y then x ∷ y ∷ ys else rest

  -- `sorted(xs, key=k)` for `le a b` meaning `k(a) <= k(b)`
  unfoldable pub sort : (A → A → Bool) → List A → List A
  sort le [] = []
  sort le (x ∷ xs) = place le x (sort le xs)

  -- Each element is before the next.
  abbrev pub IsSorted : (A → A → Bool) → List A → Type 0
  IsSorted le [] = Unit
  IsSorted le (x ∷ []) = Unit
  IsSorted le (x ∷ y ∷ ys) = (le x y ≡ true) × IsSorted le (y ∷ ys)

  place-perm : (le : A → A → Bool) (x : A) (ys : List A) → Perm (place le x ys) (x ∷ ys)
  unfolding place
  place-perm le x [] = Perm.refl _
  place-perm le x (y ∷ ys) = elim (Bool-cases (le x y)) [
    | inl b ↦ rw b (Perm.refl _)
    | inr b ↦ rw b (Perm.trans (Perm.cons y (place-perm le x ys)) (Perm.swap x y ys))
  ]

  pub sort-perm : (le : A → A → Bool) (xs : List A) → Perm (sort le xs) xs
  unfolding sort
  sort-perm le [] = Perm.refl _
  sort-perm le (x ∷ xs) = Perm.trans (place-perm le x (sort le xs)) (Perm.cons x (sort-perm le xs))

  sum_by-place :
      (le : A → A → Bool) (f : A → ℕ) (x : A) (ys : List A)
      → sum_by f (place le x ys) ≡ f x + sum_by f ys
  unfolding place
  sum_by-place le f x [] = refl
  sum_by-place le f x (y ∷ ys) = ground (arith, sum_by-place le f x ys)

  pub sum_by-sort :
      (le : A → A → Bool) (f : A → ℕ) (xs : List A) → sum_by f (sort le xs) ≡ sum_by f xs
  unfolding sort
  sum_by-sort le f [] = refl
  sum_by-sort le f (x ∷ xs) = omega (arith, sum_by-place le f x (sort le xs), sum_by-sort le f xs)

  module _ (le : A → A → Bool) (total : (a b : A) → le a b ≡ false → le b a ≡ true) where
    place-IsSorted : (x : A) (ys : List A) → IsSorted le ys → IsSorted le (place le x ys)
    unfolding place
    place-IsSorted x [] s = tt
    place-IsSorted x (y ∷ []) s = elim (Bool-cases (le x y)) [
      | inl b ↦ rw b (b, tt)
      | inr b ↦ rw b (total x y b, tt)
    ]
    place-IsSorted x (y ∷ z ∷ zs) s =
        let rest = place-IsSorted x (z ∷ zs) s.1 in
        elim (Bool-cases (le x y)) [
          | inl b ↦ rw b (b, s)
          | inr b ↦ elim (Bool-cases (le x z)) [
            | inl d ↦ rw (b, d) (total x y b, (d, s.1))
            | inr d ↦ rw (b, d) (s.0, rw d at rest)
          ]
        ]

    pub sort-IsSorted : (xs : List A) → IsSorted le (sort le xs)
    unfolding sort
    sort-IsSorted [] = tt
    sort-IsSorted (x ∷ xs) = place-IsSorted x (sort le xs) (sort-IsSorted xs)
