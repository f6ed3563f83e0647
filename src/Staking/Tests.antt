-- ===== src/Staking/Tests.antt =====
-- The staking theorems on a table of two positions.
use alive_human.Base.{
  str_eq, ◌==◌, if◌then◌else◌, ℕ, ◌+◌, ◌*◌, ◌/◌, ◌≡◌, ◌^◌, refl, true, false, [], ◌∷◌, none, some,
  ok, err,
}
use alive_human.Repository.Table.{table_repository}
use alive_human.Staking.{
  StakingPosition, ApyTier, Numbers, Positions, Tiers, claim_inactive, withdraw_inactive, active,
  withdrawn_early, calculate_rewards, claim_rewards, withdraw_staking_position,
  process_auto_claim_rewards, Processed,
}
use alive_human.Staking.Lifecycle.{withdraw_is_final}

abbrev positions : Positions
positions = table_repository (λ p. p.id)

abbrev tiers : Tiers
tiers = table_repository (λ t. t.id)

abbrev year : ℕ
year = 31536000000

-- Numbers of 18 places, printed as ones; the text of a number is not read but for that of one.
abbrev numbers : Numbers
numbers = record {
  Num = ℕ × ℕ;
  whole = λ n. (n, 1);
  of_rate = λ r. (r, 100);
  times = λ a b. (a.0 * b.0, a.1 * b.1);
  over = λ a b. (a.0 * b.1, a.1 * b.0);
  to_fixed = λ a places. if a.0 == a.1 then "1.000000000000000000" else "0.000000000000000000";
  big_number = λ a. some (a.0 / a.1);
  parse_ether = λ s. if str_eq s "1.000000000000000000" then some (10 ^ 18) else some 0;
}

abbrev locked : StakingPosition
locked = record {
  id = "p1";
  user_id = "ann";
  wallet_address = "0xa";
  amount = 1000;
  lock_period = 2592000;
  apy_rate = 500;
  start_time = 0;
  end_time = some 2592000000;
  accumulated_rewards = 7;
  last_claim_time = 0;
  auto_compound = false;
  auto_claim_enabled = true;
  status = active;
  withdrawn_at = none;
  created_at = 0;
}

abbrev flexible : StakingPosition
flexible = record locked { id = "p2"; user_id = "bob"; end_time = none; auto_claim_enabled = false }

abbrev table : positions.Table
unfolding table_repository
table = (locked ∷ flexible ∷ [], (refl, (refl, tt)))

abbrev paid_position : StakingPosition
paid_position = record locked {
  accumulated_rewards = 7 + 1000 * 500 * 10 ^ 18 / 10000;
  last_claim_time = 31536000005;
}

claimed_table : positions.Table
unfolding table_repository
claimed_table = positions.save table paid_position

withdraw_is_final_example :
    (t : positions.Table) × (q : StakingPosition) × (withdraw_staking_position positions table "ann"
        "p1" 100
      ≡ ok (t, q))
    × (positions.find_one t "p1" ≡ some q)
    × (q.status ≡ withdrawn_early)
    × (q.withdrawn_at ≡ some 100)
    × (q.amount ≡ 1000)
    × (q.accumulated_rewards ≡ 7)
    × (claim_rewards positions numbers t "ann" "p1" 200 201 ≡ err claim_inactive)
    × (withdraw_staking_position positions t "ann" "p1" 200 ≡ err withdraw_inactive)
    × (calculate_rewards positions numbers t "p1" 200 ≡ ok 0)
unfolding table_repository
withdraw_is_final_example =
    withdraw_is_final positions numbers table "ann" "p1" 100 200 201 locked refl refl refl

abbrev monthly : ApyTier
monthly = record {
  id = "t1";
  name = "monthly";
  lock_period_days = 30;
  apy_rate = 500;
  is_active = true;
  priority = 1;
}

abbrev flexible_tier : ApyTier
flexible_tier = record monthly {
  id = "t0";
  name = "flexible";
  lock_period_days = 0;
  apy_rate = 200;
}

abbrev tier_table : tiers.Table
unfolding table_repository
tier_table = (flexible_tier ∷ monthly ∷ [], (refl, (refl, tt)))

abbrev batch : positions.Table × Processed
batch = process_auto_claim_rewards positions numbers (λ n. year + n) table
