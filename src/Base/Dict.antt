-- ===== src/Base/Dict.antt =====
-- A JavaScript `Map`, a plain object used as one, or a table of rows by primary key: pairs in the
-- order of insertion, where writing to a key that is there keeps its place.
use text.Mathlib.TextEquality.{eq_iff}
use Prim.Native.String.{String}
use mathlib.Core.Path.{◌≡◌, refl, sym, subst}
use mathlib.Core.Bool.{Bool, true, false}
use mathlib.Core.Option.{Option, none, some}
use mathlib.Core.List.{List, [], ◌∷◌, map}
use native.Mathlib.Omega.{arith}
use mathlib.Core.Logic.{inl, inr}
use alive_human.Base.Lists.{All}
use alive_human.Base.Tests.{str_eq, if◌then◌else◌, Bool-cases}

abbrev pub Dict {ℓ} : Type ℓ → Type ℓ
Dict V = List (String × V)

module _ {ℓ} {V : Type ℓ} where
  unfoldable pub lookup : String → Dict V → Option V
  lookup key [] = none
  lookup key (entry ∷ dict) = if str_eq entry.0 key then some entry.1 else lookup key dict

  unfoldable pub insert : String → V → Dict V → Dict V
  insert key value [] = (key, value) ∷ []
  insert key value (entry ∷ dict) =
      let rest = insert key value dict in
      if str_eq entry.0 key then (entry.0, value) ∷ dict else entry ∷ rest

  unfoldable pub delete : String → Dict V → Dict V
  delete key [] = []
  delete key (entry ∷ dict) =
      let rest = delete key dict in if str_eq entry.0 key then rest else entry ∷ rest

  abbrev pub values : Dict V → List V
  values m = map (λ e. e.1) m

  abbrev pub has : String → Dict V → Bool
  has k m = elim (lookup k m) [ none ↦ false | some _ ↦ true ]

  -- Reading any key after a write: the value written under that key, else what was there.
  pub lookup-insert :
      (written read : String) (value : V) (dict : Dict V)
      → lookup read (insert written value dict)
        ≡ (if str_eq written read then some value else lookup read dict)
  unfolding insert lookup
  lookup-insert written read value [] = ground arith
  lookup-insert written read value (entry ∷ dict) = ground (
    arith,
    lookup-insert written read value dict,
    eq_iff entry.0 written,
    eq_iff entry.0 read,
    eq_iff written read,
  )

  pub lookup-insert_self : (k : String) (v : V) (m : Dict V) → lookup k (insert k v m) ≡ some v
  lookup-insert_self k v m = ground (arith, eq_iff k k, lookup-insert k k v m)

  pub lookup-insert_ne :
      (k j : String) (v : V) (m : Dict V)
      → str_eq k j ≡ false
      → lookup j (insert k v m) ≡ lookup j m
  lookup-insert_ne k j v m h = ground (arith, lookup-insert k j v m)

  pub lookup-delete :
      (gone read : String) (dict : Dict V)
      → lookup read (delete gone dict) ≡ (if str_eq gone read then none else lookup read dict)
  unfolding delete lookup
  lookup-delete gone read [] = ground arith
  lookup-delete gone read (entry ∷ dict) = ground (
    arith,
    lookup-delete gone read dict,
    eq_iff entry.0 gone,
    eq_iff entry.0 read,
    eq_iff gone read,
  )

  -- No key stands twice.
  abbrev pub IsUnique : Dict V → Type ℓ
  IsUnique [] = Unit
  IsUnique ((k, v) ∷ m) = (lookup k m ≡ none) × IsUnique m

  pub insert-IsUnique : (k : String) (v : V) (m : Dict V) → IsUnique m → IsUnique (insert k v m)
  unfolding lookup insert
  insert-IsUnique k v [] u = (refl, tt)
  insert-IsUnique k v (e ∷ m) u =
      ground (arith, eq_iff e.0 k, eq_iff k e.0, lookup-insert k e.0 v m, insert-IsUnique k v m u.1)

-- What holds of each entry, under a write, a removal and a look-up.
module _ {ℓ κ} {V : Type ℓ} (P : String × V → Type κ) where
  pub insert-All : (k : String) (v : V) (m : Dict V) → P (k, v) → All P m → All P (insert k v m)
  unfolding insert
  insert-All k v [] p all = (p, tt)
  insert-All k v (e ∷ m) p all = elim (Bool-cases (str_eq e.0 k)) [
    | inl here ↦ rw here (subst (λ key. P (key, v)) (sym ((eq_iff e.0 k).0 here)) p, all.1)
    | inr other ↦ rw other (all.0, insert-All k v m p all.1)
  ]

  pub delete-All : (k : String) (m : Dict V) → All P m → All P (delete k m)
  unfolding delete
  delete-All k [] all = tt
  delete-All k (e ∷ m) all = elim (Bool-cases (str_eq e.0 k)) [
    | inl here ↦ rw here (delete-All k m all.1)
    | inr other ↦ rw other (all.0, delete-All k m all.1)
  ]

  pub lookup-All : (k : String) (v : V) (m : Dict V) → All P m → lookup k m ≡ some v → P (k, v)
  unfolding lookup
  lookup-All k v [] all found = cc
  lookup-All k v (e ∷ m) all found = elim (Bool-cases (str_eq e.0 k)) [
    | inl here ↦
        let key : e.0 ≡ k = (eq_iff e.0 k).0 here in
        let value : e.1 ≡ v = ground (arith, found, here) in
        subst (λ a. P (a, v)) key (subst (λ b. P (e.0, b)) value all.0)
    | inr other ↦ lookup-All k v m all.1 (ground (arith, found, other))
  ]
