-- ===== src/Staking/Claims.antt =====
-- What a claim pays, whom it pays, and what it leaves alone.
use text.Mathlib.TextEquality.{eq_iff}
use alive_human.Base.{
  ℕ, ◌+◌, ◌*◌, ◌/◌, ◌≡◌, ◌≢◌, false, String, some, str_eq, arith, inl, inr, Option-cases, ok, err,
}
use alive_human.Staking.{
  StakingPosition, Numbers, Positions, unauthorized, active, get_staking_position,
  calculate_rewards, claim_rewards, withdraw_staking_position, basis_points, time_factor,
}

module _ (positions : Positions) (numbers : Numbers) where
  -- A claim by the owner of an active position pays amount * rate * time / 10000, rounded down, for
  -- the time since the last claim. If that is not 0, it is added to the rewards of that row, whose
  -- claim time is set, while its amount, status and owner stay and every other row is as before; if
  -- it is 0, the table is as before.
  pub claim_rewards_lem :
      (table : positions.Table) (user id other : String) (now later rate time : ℕ)
      (p : StakingPosition)
      → positions.find_one table id ≡ some p
      → p.user_id ≡ user
      → p.status ≡ active
      → basis_points numbers p.apy_rate ≡ some rate
      → time_factor numbers now p.last_claim_time ≡ some time
      → let paid = p.amount * rate * time / 10000 in
        let claimed : StakingPosition = record p {
          accumulated_rewards = p.accumulated_rewards + paid;
          last_claim_time = later;
        } in
        (paid ≡ 0 → claim_rewards positions numbers table user id now later ≡ ok (table, p))
        × (paid ≢ 0
            → (t : positions.Table) × (claim_rewards positions numbers table user id now later
                ≡ ok (t, claimed))
              × (positions.find_one t id ≡ some claimed)
              × (str_eq id other ≡ false
                  → positions.find_one t other ≡ positions.find_one table other))
  unfolding claim_rewards calculate_rewards get_staking_position
  claim_rewards_lem table user id other now later rate time p found owner is_on r t =
      let paid = p.amount * rate * time / 10000 in
      let claimed : StakingPosition = record p {
        accumulated_rewards = p.accumulated_rewards + paid;
        last_claim_time = later;
      } in
      let same = positions.find_one-id table id p found in
      (
        λ zero_paid. ground (arith, eq_iff p.user_id user),
        λ nonzero. (
          positions.save table claimed,
          ground (arith, eq_iff p.user_id user),
          ground (arith, positions.find_one-save table claimed id, eq_iff p.id id),
          λ distinct. ground (
            arith,
            positions.find_one-save table claimed other,
            eq_iff p.id other,
            eq_iff id other,
          ),
        ),
      )

  -- Neither a claim nor a withdrawal by anyone but the owner goes through: both end in the same
  -- error, whatever the position's state, and leave the table alone, since an error carries none.
  pub other_user_unauthorized :
      (table : positions.Table) (user id : String) (now later : ℕ) (p : StakingPosition)
      → positions.find_one table id ≡ some p
      → p.user_id ≢ user
      → (claim_rewards positions numbers table user id now later ≡ err unauthorized)
        × (withdraw_staking_position positions table user id now ≡ err unauthorized)
  unfolding claim_rewards withdraw_staking_position get_staking_position
  other_user_unauthorized table user id now later p found distinct =
      (ground (arith, eq_iff p.user_id user), ground (arith, eq_iff p.user_id user))

  -- What a claim that succeeds shows of the row that it returns.
  claim_rewards-ok :
      (table t : positions.Table) (user id : String) (now later : ℕ) (q : StakingPosition)
      → claim_rewards positions numbers table user id now later ≡ ok (t, q)
      → (rate : ℕ) × (positions.find_one t id ≡ some q)
        × (q.user_id ≡ user)
        × (q.status ≡ active)
        × (basis_points numbers q.apy_rate ≡ some rate)
  unfolding claim_rewards calculate_rewards get_staking_position
  claim_rewards-ok table t user id now later q e =
      elim (Option-cases (positions.find_one table id)) [
        | inl missing ↦ absurd (ground arith)
        | inr (p, found) ↦ elim (Option-cases (basis_points numbers p.apy_rate)) [
          | inl bad ↦ absurd (ground (arith))
          | inr (rate, r) ↦ elim (Option-cases (time_factor numbers now p.last_claim_time)) [
            | inl bad ↦ absurd (ground (arith))
            | inr (time, tf) ↦
                let paid = p.amount * rate * time / 10000 in
                let claimed : StakingPosition = record p {
                  accumulated_rewards = p.accumulated_rewards + paid;
                  last_claim_time = later;
                } in
                let same = positions.find_one-id table id p found in
                let saved = positions.find_one-save table claimed id in
                (
                  rate,
                  ground (arith, saved, eq_iff p.id id),
                  ground (arith, eq_iff p.user_id user),
                  ground arith,
                  ground arith,
                )
          ]
        ]
      ]

  -- A second claim at the moment of the first, where no time has passed, pays nothing more: it
  -- succeeds and leaves the table and the rewards as the first claim left them.
  pub claim_rewards_twice :
      (table t : positions.Table) (user id : String) (now later last : ℕ) (q : StakingPosition)
      → ((time : ℕ) → time_factor numbers time time ≡ some 0)
      → claim_rewards positions numbers table user id now later ≡ ok (t, q)
      → q.last_claim_time ≡ later
      → claim_rewards positions numbers t user id later last ≡ ok (t, q)
  claim_rewards_twice table t user id now later last q no_time first set =
      let (rate, found, owner, is_on, r) = claim_rewards-ok table t user id now later q first in
      let timed : time_factor numbers later q.last_claim_time ≡ some 0 = rw set (no_time later) in
      (claim_rewards_lem t user id id later last rate 0 q found owner is_on r timed).0 (omega arith)
