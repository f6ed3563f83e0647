-- ===== src/Repository/Sorting.antt =====
-- Order, limit and test of a list of rows: what stays true of the rows that are left.
use text.Mathlib.TextEquality.{eq_iff}
use alive_human.Base.{
  ℕ, zero, suc, ◌≤◌, ◌≡◌, refl, Bool, false, String, List, [], ◌∷◌, Option, none, some, All, str_eq,
  if◌then◌else◌, length, filter, take, arith,
}
use alive_human.Repository.{Distinct}

module _ {Row : Type 0} where
  -- Stable insertion by the order.
  abbrev pub insert_row : (Row → Row → Bool) → Row → List Row → List Row
  insert_row before new [] = new ∷ []
  insert_row before new (r ∷ rs) =
      let rest = insert_row before new rs in if before r new then r ∷ rest else new ∷ r ∷ rs

  abbrev pub sorted : (Row → Row → Bool) → List Row → List Row
  sorted before [] = []
  sorted before (r ∷ rs) = insert_row before r (sorted before rs)

  pub insert_row-All :
      (P : Row → Type 0) (before : Row → Row → Bool) (new : Row) (rs : List Row)
      → P new
      → All P rs
      → All P (insert_row before new rs)
  insert_row-All P before new [] p h = (p, tt)
  insert_row-All P before new (r ∷ rs) p h = ground (arith, insert_row-All P before new rs p h.1)

  pub sorted-All :
      (P : Row → Type 0) (before : Row → Row → Bool) (rs : List Row)
      → All P rs
      → All P (sorted before rs)
  sorted-All P before [] h = tt
  sorted-All P before (r ∷ rs) h =
      insert_row-All P before r (sorted before rs) h.0 (sorted-All P before rs h.1)

  pub take-All : (P : Row → Type 0) (n : ℕ) (rs : List Row) → All P rs → All P (take n rs)
  take-All P zero rs h = tt
  take-All P (suc n) [] h = tt
  take-All P (suc n) (r ∷ rs) h = (h.0, take-All P n rs h.1)

  pub length-take_le : (n : ℕ) (rs : List Row) → length (take n rs) ≤ n
  length-take_le zero rs = omega arith
  length-take_le (suc n) [] = omega arith
  length-take_le (suc n) (r ∷ rs) = omega (arith, length-take_le n rs)

  abbrev pub limited : Option ℕ → List Row → List Row
  limited none rs = rs
  limited (some n) rs = take n rs

  pub limited-All :
      (P : Row → Type 0) (limit : Option ℕ) (rs : List Row) → All P rs → All P (limited limit rs)
  limited-All P none rs h = h
  limited-All P (some n) rs h = take-All P n rs h

  insert_row-ne-nil :
      (before : Row → Row → Bool) (new : Row) (rs : List Row) → insert_row before new rs ≡ [] → ⊥
  insert_row-ne-nil before new [] e = cc
  insert_row-ne-nil before new (r ∷ rs) e = ground arith

  pub taken-nil :
      (before : Row → Row → Bool) (n : ℕ) (rs : List Row) → take (suc n) rs ≡ [] → rs ≡ []
  taken-nil before n [] e = refl
  taken-nil before n (r ∷ rs) e = cc

  pub sorted-nil : (before : Row → Row → Bool) (rs : List Row) → sorted before rs ≡ [] → rs ≡ []
  sorted-nil before [] e = refl
  sorted-nil before (r ∷ rs) e = absurd (insert_row-ne-nil before r (sorted before rs) e)

  pub filter_keeps :
      (P : Row → Type 0) (test : Row → Bool) (rs : List Row) → All P rs → All P (filter test rs)
  filter_keeps P test [] h = tt
  filter_keeps P test (r ∷ rs) h = ground (arith, filter_keeps P test rs h.1)

module _ {Row : Type 0} (id_of : Row → String) where
  pub filter-Distinct :
      (test : Row → Bool) (rs : List Row) → Distinct id_of rs → Distinct id_of (filter test rs)
  filter-Distinct test [] d = tt
  filter-Distinct test (r ∷ rs) d = ground (
    arith,
    filter-Distinct test rs d.1,
    filter_keeps (λ q. str_eq (id_of r) (id_of q) ≡ false) test rs d.0,
  )

  pub insert_row-Distinct :
      (before : Row → Row → Bool) (new : Row) (rs : List Row)
      → All (λ q. str_eq (id_of new) (id_of q) ≡ false) rs
      → Distinct id_of rs
      → Distinct id_of (insert_row before new rs)
  insert_row-Distinct before new [] apart d = (tt, tt)
  insert_row-Distinct before new (r ∷ rs) apart d = ground (
    arith,
    eq_iff (id_of new) (id_of r),
    eq_iff (id_of r) (id_of new),
    insert_row-Distinct before new rs apart.1 d.1,
    insert_row-All (λ q. str_eq (id_of r) (id_of q) ≡ false) before new rs,
  )

  pub sorted-Distinct :
      (before : Row → Row → Bool) (rs : List Row)
      → Distinct id_of rs
      → Distinct id_of (sorted before rs)
  sorted-Distinct before [] d = tt
  sorted-Distinct before (r ∷ rs) d =
      insert_row-Distinct before r (sorted before rs)
        (sorted-All (λ q. str_eq (id_of r) (id_of q) ≡ false) before rs d.0)
        (sorted-Distinct before rs d.1)

  pub take-Distinct : (n : ℕ) (rs : List Row) → Distinct id_of rs → Distinct id_of (take n rs)
  take-Distinct zero rs d = tt
  take-Distinct (suc n) [] d = tt
  take-Distinct (suc n) (r ∷ rs) d =
      (take-All (λ q. str_eq (id_of r) (id_of q) ≡ false) n rs d.0, take-Distinct n rs d.1)

  pub limited-Distinct :
      (limit : Option ℕ) (rs : List Row) → Distinct id_of rs → Distinct id_of (limited limit rs)
  limited-Distinct none rs d = d
  limited-Distinct (some n) rs d = take-Distinct n rs d
