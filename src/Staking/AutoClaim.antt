-- ===== src/Staking/AutoClaim.antt =====
-- The batch of automatic claims.
use alive_human.Base.{
  ℕ, suc, ◌+◌, ◌≡◌, refl, true, false, String, List, [], ◌∷◌, none, some, str_eq, All, arith,
  length, inl, inr, Option-cases, ◌∙◌, ◌⊎◌, ◌*◌, ◌/◌, ok, err,
}
use alive_human.Repository.Rows.{others-All}
use alive_human.Staking.{
  basis_points, time_factor, StakingPosition, StakingError, Numbers, Positions, Result, is_due,
  get_staking_position, calculate_rewards, claim_rewards, claim_each,
  get_positions_for_rewards_processing, process_auto_claim_rewards,
}

Result-cases {ℓ} :
    {A : Type ℓ} (r : Result A) → ((a : A) × (r ≡ ok a)) ⊎ ((e : StakingError) × (r ≡ err e))
Result-cases (ok a) = inl (a, refl)
Result-cases (err e) = inr (e, refl)

module _ (positions : Positions) (numbers : Numbers) where
  -- A claim of one row leaves every other row.
  claim-other :
      (table t : positions.Table) (user id other : String) (now later : ℕ) (q : StakingPosition)
      → str_eq id other ≡ false
      → claim_rewards positions numbers table user id now later ≡ ok (t, q)
      → positions.find_one t other ≡ positions.find_one table other
  unfolding claim_rewards calculate_rewards get_staking_position
  claim-other table t user id other now later q distinct e =
      elim (Option-cases (positions.find_one table id)) [
        | inl missing ↦ absurd (ground arith)
        | inr (p, found) ↦ elim (Option-cases (basis_points numbers p.apy_rate)) [
          | inl bad ↦ absurd (ground arith)
          | inr (rate, r) ↦ elim (Option-cases (time_factor numbers now p.last_claim_time)) [
            | inl bad ↦ absurd (ground arith)
            | inr (time, tf) ↦
                let paid = p.amount * rate * time / 10000 in
                let claimed : StakingPosition = record p {
                  accumulated_rewards = p.accumulated_rewards + paid;
                  last_claim_time = later;
                } in
                ground (
                  arith,
                  positions.find_one-id table id p found,
                  positions.find_one-save table claimed other,
                )
          ]
        ]
      ]

  claim_each-other :
      (clock : ℕ → ℕ) (n : ℕ) (ps : List StakingPosition) (table : positions.Table) (good bad : ℕ)
      (other : String)
      → All (λ p. str_eq p.id other ≡ false) ps
      → positions.find_one (claim_each positions numbers clock n ps table good bad).0 other
        ≡ positions.find_one table other
  unfolding claim_each
  claim_each-other clock n [] table good bad other distinct = refl
  claim_each-other clock n (p ∷ ps) table good bad other distinct =
      elim (Result-cases
        (claim_rewards positions numbers table p.user_id p.id (clock n) (clock (suc n)))) [
          | inl (a, e) ↦
              rw (e, claim_each)
                (claim_each-other clock (suc (suc n)) ps a.0 (suc good) bad other distinct.1
                  ∙ claim-other table a.0 p.user_id p.id other (clock n) (clock (suc n)) a.1
                      distinct.0 e)
          | inr (f, e) ↦
              rw (e, claim_each)
                (claim_each-other clock (suc (suc n)) ps table good (suc bad) other distinct.1)
        ]

module _ (positions : Positions) (numbers : Numbers) where
  claim_each-counts :
      (clock : ℕ → ℕ) (n : ℕ) (ps : List StakingPosition) (table : positions.Table) (good bad : ℕ)
      → (claim_each positions numbers clock n ps table good bad).1
          + (claim_each positions numbers clock n ps table good bad).2
        ≡ good + bad + length ps
  unfolding claim_each
  claim_each-counts clock n [] table good bad = omega arith
  claim_each-counts clock n (p ∷ ps) table good bad =
      elim (Result-cases
        (claim_rewards positions numbers table p.user_id p.id (clock n) (clock (suc n)))) [
          | inl (a, e) ↦
              rw (e, claim_each)
                (claim_each-counts clock (suc (suc n)) ps a.0 (suc good) bad ∙ omega arith)
          | inr (f, e) ↦
              rw (e, claim_each)
                (claim_each-counts clock (suc (suc n)) ps table good (suc bad) ∙ omega arith)
        ]

-- The batch counts each due position once, as a success or a failure, and touches no other row: one
-- that is inactive, without automatic claims, or claimed within the last 24 hours stays as it is.
pub process_auto_claim_rewards_lem :
    (positions : Positions) (numbers : Numbers) (clock : ℕ → ℕ) (table : positions.Table)
    (other : String) (r : StakingPosition)
    → positions.find_one table other ≡ some r
    → is_due (clock 0) r ≡ false
    → let (t, counts) = process_auto_claim_rewards positions numbers clock table in
      (counts.successful + counts.failed ≡ counts.processed) × (positions.find_one t other ≡ some r)
unfolding process_auto_claim_rewards get_positions_for_rewards_processing
process_auto_claim_rewards_lem positions numbers clock table other r found idle =
    let due = get_positions_for_rewards_processing positions table (clock 0) in
    (
      claim_each-counts positions numbers clock 1 due table 0 0 ∙ omega arith,
      claim_each-other positions numbers clock 1 due table 0 0 other (
            others-All positions table (is_due (clock 0)) other r due found idle
              (positions.find-All table (is_due (clock 0)) (λ a b. true) none))
          ∙ found,
    )
