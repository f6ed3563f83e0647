-- ===== src/RpcProvider/Counts.antt =====
-- How many addresses are marked healthy, and what a mark changes.
use alive_human.Base.{
  ℕ, zero, suc, ◌+◌, ◌≤◌, ◌<◌, ◌≡◌, ◌≢◌, refl, ap, Bool, true, false, String, List, [], ◌∷◌, arith,
  length, if◌then◌else◌,
}
use alive_human.RpcProvider.{flag, set_flag, all_true}

pub healthy_count : List Bool → ℕ
healthy_count [] = 0
healthy_count (b ∷ bs) = (if b then 1 else 0) + healthy_count bs

pub healthy_count-le : (bs : List Bool) → healthy_count bs ≤ length bs
unfolding healthy_count
healthy_count-le [] = omega arith
healthy_count-le (true ∷ bs) = omega (arith, healthy_count-le bs)
healthy_count-le (false ∷ bs) = omega (arith, healthy_count-le bs)

pub length-set_flag : (bs : List Bool) (i : ℕ) (b : Bool) → length (set_flag bs i b) ≡ length bs
unfolding set_flag
length-set_flag [] i b = refl
length-set_flag (x ∷ bs) zero b = refl
length-set_flag (x ∷ bs) (suc i) b = ap suc (length-set_flag bs i b)

pub healthy_count-set_flag :
    (bs : List Bool) (i : ℕ)
    → flag bs i ≡ true
    → healthy_count bs ≡ suc (healthy_count (set_flag bs i false))
unfolding set_flag flag healthy_count
healthy_count-set_flag [] i on = ground arith
healthy_count-set_flag (true ∷ bs) zero on = omega arith
healthy_count-set_flag (false ∷ bs) zero on = ground arith
healthy_count-set_flag (true ∷ bs) (suc i) on = omega (arith, healthy_count-set_flag bs i on)
healthy_count-set_flag (false ∷ bs) (suc i) on = omega (arith, healthy_count-set_flag bs i on)

pub flag-set_flag :
    (bs : List Bool) (i j : ℕ) (b : Bool) → i ≢ j → flag (set_flag bs i b) j ≡ flag bs j
unfolding set_flag flag
flag-set_flag [] i j b apart = refl
flag-set_flag (x ∷ bs) zero zero b apart = ground arith
flag-set_flag (x ∷ bs) zero (suc j) b apart = refl
flag-set_flag (x ∷ bs) (suc i) zero b apart = refl
flag-set_flag (x ∷ bs) (suc i) (suc j) b apart =
    flag-set_flag bs i j b (λ same. apart (ap suc same))

pub length-all_true : (us : List String) → length (all_true us) ≡ length us
unfolding all_true
length-all_true [] = refl
length-all_true (u ∷ us) = ap suc (length-all_true us)

pub flag-all_true : (us : List String) (i : ℕ) → i < length us → flag (all_true us) i ≡ true
unfolding flag all_true
flag-all_true [] i small = ground arith
flag-all_true (u ∷ us) zero small = refl
flag-all_true (u ∷ us) (suc i) small = flag-all_true us i (omega arith)
