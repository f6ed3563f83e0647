-- ===== src/Base/Sorting.antt =====
-- Sorting by a number, stable as the sort of an array is, ascending.
use Prim.Native.Nat.{ℕ, ◌≤◌}
use mathlib.Core.Path.{◌≡◌, refl, sym, subst}
use mathlib.Core.Bool.{true, false}
use mathlib.Core.Logic.{inl, inr}
use mathlib.Core.Option.{none, some, some-injective}
use mathlib.Core.List.{List, [], ◌∷◌}
use native.Mathlib.Omega.{arith}
use alive_human.Base.Tests.{ltb, if◌then◌else◌, Bool-cases}
use alive_human.Base.Lists.{All, head?}

module _ {ℓ} {A : Type ℓ} (key : A → ℕ) where
  unfoldable pub insert_by : A → List A → List A
  insert_by x [] = x ∷ []
  insert_by x (y ∷ ys) =
      let rest = insert_by x ys in if ltb (key y) (key x) then y ∷ rest else x ∷ y ∷ ys

  unfoldable pub sort_by : List A → List A
  sort_by [] = []
  sort_by (x ∷ xs) = insert_by x (sort_by xs)

  insert_by-less :
      (x y : A) (ys : List A)
      → ltb (key y) (key x) ≡ true
      → insert_by x (y ∷ ys) ≡ y ∷ insert_by x ys
  unfolding insert_by
  insert_by-less x y ys less = ground arith

  insert_by-more :
      (x y : A) (ys : List A) → ltb (key y) (key x) ≡ false → insert_by x (y ∷ ys) ≡ x ∷ y ∷ ys
  unfolding insert_by
  insert_by-more x y ys more = ground arith

  module _ {κ} (P : A → Type κ) where
    insert_by-All : (x : A) (ys : List A) → P x → All P ys → All P (insert_by x ys)
    unfolding insert_by
    insert_by-All x [] p all = (p, tt)
    insert_by-All x (y ∷ ys) p all = elim (Bool-cases (ltb (key y) (key x))) [
      | inl less ↦ rw less (all.0, insert_by-All x ys p all.1)
      | inr more ↦ rw more (p, all)
    ]

    All-insert_by : (x : A) (ys : List A) → All P (insert_by x ys) → P x × All P ys
    unfolding insert_by
    All-insert_by x [] all = all
    All-insert_by x (y ∷ ys) all = elim (Bool-cases (ltb (key y) (key x))) [
      | inl less ↦
          let (first, rest) = subst (All P) (insert_by-less x y ys less) all in
          let (p, others) = All-insert_by x ys rest in (p, (first, others))
      | inr more ↦ subst (All P) (insert_by-more x y ys more) all
    ]

    pub sort_by-All : (xs : List A) → All P xs → All P (sort_by xs)
    unfolding sort_by
    sort_by-All [] all = tt
    sort_by-All (x ∷ xs) all = insert_by-All x (sort_by xs) all.0 (sort_by-All xs all.1)

    pub All-sort_by : (xs : List A) → All P (sort_by xs) → All P xs
    unfolding sort_by
    All-sort_by [] all = tt
    All-sort_by (x ∷ xs) all =
        let (p, rest) = All-insert_by x (sort_by xs) all in (p, All-sort_by xs rest)

  abbrev pub Sorted : List A → Type ℓ
  Sorted [] = Unit
  Sorted (x ∷ xs) = All (λ y. key x ≤ key y) xs × Sorted xs

  All-weaker : (m n : ℕ) (xs : List A) → m ≤ n → All (λ y. n ≤ key y) xs → All (λ y. m ≤ key y) xs
  All-weaker m n [] less all = tt
  All-weaker m n (x ∷ xs) less all = (omega (arith, all.0), All-weaker m n xs less all.1)

  insert_by-Sorted : (x : A) (ys : List A) → Sorted ys → Sorted (insert_by x ys)
  unfolding insert_by
  insert_by-Sorted x [] sorted = (tt, tt)
  insert_by-Sorted x (y ∷ ys) sorted = elim (Bool-cases (ltb (key y) (key x))) [
    | inl less ↦ subst Sorted (sym (insert_by-less x y ys less)) (
      insert_by-All (λ z. key y ≤ key z) x ys (ground arith) sorted.0,
      insert_by-Sorted x ys sorted.1,
    )
    | inr more ↦
        let first : key x ≤ key y = ground arith in
        subst Sorted (sym (insert_by-more x y ys more))
          ((first, All-weaker (key x) (key y) ys first sorted.0), sorted)
  ]

  pub sort_by-Sorted : (xs : List A) → Sorted (sort_by xs)
  unfolding sort_by
  sort_by-Sorted [] = tt
  sort_by-Sorted (x ∷ xs) = insert_by-Sorted x (sort_by xs) (sort_by-Sorted xs)

  -- The first of a sorted list is least in the list that was sorted.
  pub head_least : (xs : List A) (x : A) → head? (sort_by xs) ≡ some x → All (λ y. key x ≤ key y) xs
  head_least xs x first =
      All-sort_by (λ y. key x ≤ key y) xs (least (sort_by xs) x (sort_by-Sorted xs) first)
    where
      least : (ys : List A) (x : A) → Sorted ys → head? ys ≡ some x → All (λ y. key x ≤ key y) ys
      least [] x sorted first = tt
      least (y ∷ ys) x sorted first =
          let same : y ≡ x = some-injective y x first in
          subst (λ z. All (λ v. key z ≤ key v) (y ∷ ys)) same (omega arith, sorted.0)

  -- Something comes first if there is anything to sort.
  pub head-sort_by : (x : A) (xs : List A) → (y : A) × (head? (sort_by (x ∷ xs)) ≡ some y)
  unfolding sort_by insert_by
  head-sort_by x xs = first x (sort_by xs)
    where
      first : (x : A) (ys : List A) → (y : A) × (head? (insert_by x ys) ≡ some y)
      first x [] = (x, refl)
      first x (y ∷ ys) = elim (Bool-cases (ltb (key y) (key x))) [
        | inl less ↦ (y, ground arith)
        | inr more ↦ (x, ground arith)
      ]

  pub nil_of_head-sort_by : (xs : List A) → head? (sort_by xs) ≡ none → xs ≡ []
  nil_of_head-sort_by [] e = refl
  nil_of_head-sort_by (x ∷ xs) e = let (y, first) = head-sort_by x xs in cc
