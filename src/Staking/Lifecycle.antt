-- ===== src/Staking/Lifecycle.antt =====
-- The life of a position: created active, withdrawn once, and nothing after that.
use text.Mathlib.TextEquality.{eq_iff}
use alive_human.Base.{
  ℕ, ◌+◌, ◌*◌, ◌≡◌, ◌≢◌, ◌⊎◌, ◌&&◌, refl, Bool, true, String, none, some, ltb, if◌then◌else◌, arith,
  inl, inr, Option-cases, head?, All-head?, nil_of_head?, ◌==◌, ok, err,
}
use alive_human.Staking.{
  StakingPosition, ApyTier, Numbers, Positions, Tiers, claim_inactive, withdraw_inactive, active,
  completed, withdrawn_early, is_early, get_staking_position, get_apy_tier_by_lock_period,
  create_staking_position, calculate_rewards, claim_rewards, withdraw_staking_position,
}

module _ (positions : Positions) (numbers : Numbers) where
  withdrawn : StakingPosition → ℕ → StakingPosition
  withdrawn p now = record p {
    status = if is_early p.end_time now then withdrawn_early else completed;
    withdrawn_at = some now;
  }

  -- The owner of an active position withdraws it: the row gets the time of withdrawal and a status,
  -- early if its end lies in the future and completed if it has none or has passed; its amount and
  -- rewards stay. On the table that this leaves, a claim and a further withdrawal of that row by its
  -- owner are refused as inactive at any time, and its rewards count as 0.
  pub withdraw_is_final :
      (table : positions.Table) (user id : String) (now next last : ℕ) (p : StakingPosition)
      → positions.find_one table id ≡ some p
      → p.user_id ≡ user
      → p.status ≡ active
      → (t : positions.Table) × (q : StakingPosition) × (withdraw_staking_position positions table
            user id now
          ≡ ok (t, q))
        × (positions.find_one t id ≡ some q)
        × (q.status ≡ (if is_early p.end_time now then withdrawn_early else completed))
        × (q.withdrawn_at ≡ some now)
        × (q.amount ≡ p.amount)
        × (q.accumulated_rewards ≡ p.accumulated_rewards)
        × (claim_rewards positions numbers t user id next last ≡ err claim_inactive)
        × (withdraw_staking_position positions t user id next ≡ err withdraw_inactive)
        × (calculate_rewards positions numbers t id next ≡ ok 0)
  unfolding withdrawn withdraw_staking_position claim_rewards calculate_rewards get_staking_position
  withdraw_is_final table user id now next last p found owner is_on =
      let q = withdrawn p now in
      let same = positions.find_one-id table id p found in
      let saved = positions.find_one-save table q id in
      (
        positions.save table q,
        q,
        ground (arith, eq_iff p.user_id user),
        ground (arith, saved, eq_iff p.id id),
        refl,
        refl,
        refl,
        refl,
        ground (arith, saved, eq_iff p.id id, eq_iff p.user_id user),
        ground (arith, saved, eq_iff p.id id, eq_iff p.user_id user),
        ground (arith, saved, eq_iff p.id id),
      )

-- A position made from the tier for its lock period (or, without one, the tier for 0 days) is active
-- at that tier's rate with no rewards, and is stored. Its owner's withdrawal at `later` is early
-- exactly if days of lock were asked for and they have not passed since its creation.
pub create_and_withdraw :
    (positions : Positions) (tiers : Tiers) (tier_table : tiers.Table) (table : positions.Table)
    (id user wallet : String) (amount days : ℕ) (compound claim : Bool) (now later : ℕ)
    (tier : ApyTier)
    → get_apy_tier_by_lock_period tiers tier_table days ≡ ok tier
    → (t : positions.Table) × (p : StakingPosition) × (create_staking_position positions tiers
          tier_table table id user wallet amount days compound claim now
        ≡ ok (t, p))
      × (positions.find_one t id ≡ some p)
      × (p.status ≡ active)
      × (p.apy_rate ≡ tier.apy_rate)
      × (p.accumulated_rewards ≡ 0)
      × ((t' : positions.Table) × (q : StakingPosition) × (withdraw_staking_position positions t
              user id later
            ≡ ok (t', q))
          × (q.status ≡ (
              if ltb 0 days && ltb later (now + days * 86400000)
              then withdrawn_early
              else completed)))
unfolding create_staking_position withdraw_staking_position get_staking_position
create_and_withdraw positions tiers tier_table table id user wallet amount days compound claim now
      later tier chosen =
    let p : StakingPosition = record {
      id = id;
      user_id = user;
      wallet_address = wallet;
      amount = amount;
      lock_period = days * 24 * 60 * 60;
      apy_rate = tier.apy_rate;
      start_time = now;
      end_time = if ltb 0 days then some (now + days * 24 * 60 * 60 * 1000) else none;
      accumulated_rewards = 0;
      last_claim_time = now;
      auto_compound = compound;
      auto_claim_enabled = claim;
      status = active;
      withdrawn_at = none;
      created_at = now;
    } in
    let q : StakingPosition = record p {
      status = if is_early p.end_time later then withdrawn_early else completed;
      withdrawn_at = some later;
    } in
    let saved = positions.find_one-save table p id in
    (
      positions.save table p,
      p,
      ground arith,
      ground (arith, saved, eq_iff id id),
      refl,
      refl,
      refl,
      (
        positions.save (positions.save table p) q,
        q,
        ground (arith, saved, eq_iff id id, eq_iff user user),
        ground arith,
      ),
    )

-- The tier taken for a lock period is an active one: one for that many days, or one for 0 days, and
-- that only if no active tier for that many days is stored under any key.
pub tier_choice :
    (tiers : Tiers) (tier_table : tiers.Table) (days : ℕ) (tier : ApyTier)
    → get_apy_tier_by_lock_period tiers tier_table days ≡ ok tier
    → (tier.is_active ≡ true)
      × ((tier.lock_period_days ≡ days)
          ⊎ ((tier.lock_period_days ≡ 0)
              × ((key : String) (r : ApyTier)
                  → tiers.find_one tier_table key ≡ some r
                  → r.is_active ≡ true
                  → r.lock_period_days ≢ days)))
unfolding get_apy_tier_by_lock_period
tier_choice tiers tier_table days tier e =
    let exact : ApyTier → Bool = λ t. t.lock_period_days == days && t.is_active in
    let default : ApyTier → Bool = λ t. t.is_active && t.lock_period_days == 0 in
    let any : ApyTier → ApyTier → Bool = λ a b. true in
    let rows = tiers.find tier_table exact any (some 1) in
    let others = tiers.find tier_table default any (some 1) in
    elim (Option-cases (head? rows)) [
      | inr (found, hit) ↦
          let passes = All-head? _ rows found (tiers.find-All tier_table exact any (some 1)) hit in
          (ground (arith, passes.0), inl (ground (arith, passes.0)))
      | inl miss ↦ elim (Option-cases (head? others)) [
        | inl nothing ↦ absurd (ground arith)
        | inr (found, hit) ↦
            let passes =
              All-head? _ others found (tiers.find-All tier_table default any (some 1)) hit in
            (
              ground (arith, passes.0),
              inr (
                ground (arith, passes.0),
                λ key r stored is_on same. ground (
                  arith,
                  tiers.find-empty tier_table exact any 0 key r (nil_of_head? rows miss) stored,
                ),
              ),
            )
      ]
    ]
