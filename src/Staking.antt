-- ===== src/Staking.antt =====
-- packages/backend/src/blockchain/services/staking.service.ts, with its entities. Repositories are
-- those of `Repository`; times are milliseconds read from the clock and given as arguments; an id is
-- the one that the database makes for a new row. An `amount` is the integer that `BigNumber.from`
-- reads from the column, and a rate is in hundredths of a percent, as its column keeps it.
pub mod Claims
pub mod Lifecycle
pub mod AutoClaim
mod Tests
use alive_human.Base.{
  ℕ, suc, ◌+◌, ◌-◌, ◌*◌, ◌/◌, ◌≡◌, Bool, true, false, ◌&&◌, String, List, [], ◌∷◌, Option, none,
  some, ltb, ◌==◌, str_eq, if◌then◌else◌, head?, length, Fallible, ok, err, ◌>>=◌, ◌>>◌, or_error,
  require,
}
use alive_human.Repository.{Repository}

pub data StakingStatus : Type 0 where
  active completed withdrawn_early : StakingStatus

pub record StakingPosition : Type 0 where
  pub id : String
  pub user_id : String
  pub wallet_address : String
  pub amount : ℕ
  pub lock_period : ℕ
  pub apy_rate : ℕ
  pub start_time : ℕ
  pub end_time : Option ℕ
  pub accumulated_rewards : ℕ
  pub last_claim_time : ℕ
  pub auto_compound : Bool
  pub auto_claim_enabled : Bool
  pub status : StakingStatus
  pub withdrawn_at : Option ℕ
  pub created_at : ℕ

pub record ApyTier : Type 0 where
  pub id : String
  pub name : String
  pub lock_period_days : ℕ
  pub apy_rate : ℕ
  pub is_active : Bool
  pub priority : ℕ

pub data StakingError : Type 0 where
  position_not_found no_apy_tier unauthorized claim_inactive withdraw_inactive invalid_number :
      StakingError

abbrev pub Result {ℓ} : Type ℓ → Type ℓ
Result A = Fallible StakingError A

abbrev pub is_active_status : StakingStatus → Bool
is_active_status active = true
is_active_status _ = false

-- JavaScript's numbers, with the number of a whole number and that of a stored rate in hundredths, and what
-- the ethers library makes of numbers and texts; `none` where it throws.
pub record Numbers : Type 1 where
  pub Num : Type 0
  pub whole : ℕ → Num
  pub of_rate : ℕ → Num
  pub times : Num → Num → Num
  pub over : Num → Num → Num
  pub to_fixed : Num → ℕ → String
  pub big_number : Num → Option ℕ
  pub parse_ether : String → Option ℕ

abbrev pub year_ms : ℕ
year_ms = 1000 * 60 * 60 * 24 * 365

-- `BigNumber.from(apyRate * 100)`.
unfoldable pub basis_points : Numbers → ℕ → Option ℕ
basis_points numbers rate =
    numbers.big_number (numbers.times (numbers.of_rate rate) (numbers.whole 100))

-- `parseEther` of the years from the second time to the first, which is not before it, to 18 places.
unfoldable pub time_factor : Numbers → ℕ → ℕ → Option ℕ
time_factor numbers now last =
    let years = numbers.over (numbers.whole (now - last)) (numbers.whole year_ms) in
    numbers.parse_ether (numbers.to_fixed years 18)

abbrev pub Positions : Type 1
Positions = Repository StakingPosition (λ p. p.id)

abbrev pub Tiers : Type 1
Tiers = Repository ApyTier (λ t. t.id)

abbrev any_order {ℓ} : {A : Type ℓ} → A → A → Bool
any_order a b = true

-- `find` where `isActive` holds, by ascending priority.
pub get_apy_tiers : (tiers : Tiers) → tiers.Table → List ApyTier
get_apy_tiers tiers table =
    tiers.find table (λ t. t.is_active) (λ a b. ltb a.priority b.priority) none

pub get_apy_tier_by_lock_period : (tiers : Tiers) → tiers.Table → ℕ → Result ApyTier
get_apy_tier_by_lock_period tiers table days =
    let exact =
      head?
        (tiers.find table (λ t. t.lock_period_days == days && t.is_active) any_order (some 1)) in
    let default =
      head? (tiers.find table (λ t. t.is_active && t.lock_period_days == 0) any_order (some 1)) in
    elim exact [ none ↦ or_error default no_apy_tier | some tier ↦ ok tier ]

-- `position.endTime && now < position.endTime`
abbrev pub is_early : Option ℕ → ℕ → Bool
is_early none now = false
is_early (some end) now = ltb now end

-- Active, with automatic claims, last claimed more than 24 hours ago.
abbrev pub is_due : ℕ → StakingPosition → Bool
is_due now p =
    is_active_status p.status
    && p.auto_claim_enabled
    && ltb (p.last_claim_time + 24 * 60 * 60 * 1000) now

pub record Processed : Type 0 where
  pub processed : ℕ
  pub successful : ℕ
  pub failed : ℕ

module _ (positions : Positions) where
  pub create_staking_position :
      (tiers : Tiers)
      → tiers.Table
      → positions.Table
      → String
      → String
      → String
      → ℕ
      → ℕ
      → Bool
      → Bool
      → ℕ
      → Result (positions.Table × StakingPosition)
  create_staking_position tiers tier_table table id user wallet amount days compound claim now = do
    tier ← get_apy_tier_by_lock_period tiers tier_table days
    let position : StakingPosition = record {
      id = id;
      user_id = user;
      wallet_address = wallet;
      amount = amount;
      lock_period = days * 24 * 60 * 60;
      apy_rate = tier.apy_rate;
      start_time = now;
      end_time = if ltb 0 days then some (now + days * 24 * 60 * 60 * 1000) else none;
      accumulated_rewards = 0;
      last_claim_time = now;
      auto_compound = compound;
      auto_claim_enabled = claim;
      status = active;
      withdrawn_at = none;
      created_at = now;
    }
    ok (positions.save table position, position)

  pub get_user_staking_positions : positions.Table → String → List StakingPosition
  get_user_staking_positions table user =
      positions.find table (λ p. str_eq p.user_id user) (λ a b. ltb b.created_at a.created_at) none

  pub get_wallet_staking_positions : positions.Table → String → List StakingPosition
  get_wallet_staking_positions table wallet =
      positions.find table (λ p. str_eq p.wallet_address wallet)
        (λ a b. ltb b.created_at a.created_at) none

  pub get_staking_position : positions.Table → String → Result StakingPosition
  get_staking_position table id = or_error (positions.find_one table id) position_not_found

  module _ (numbers : Numbers) where
    pub calculate_rewards : positions.Table → String → ℕ → Result ℕ
    calculate_rewards table id now = do
      position ← get_staking_position table id
      if is_active_status position.status
          then (do
            rate ← or_error (basis_points numbers position.apy_rate) invalid_number
            time ← or_error (time_factor numbers now position.last_claim_time) invalid_number
            ok (position.amount * rate * time / 10000))
          else ok 0

    -- The clock reads `now` in `calculateRewards`, and `later` for the new claim time.
    pub claim_rewards :
        positions.Table → String → String → ℕ → ℕ → Result (positions.Table × StakingPosition)
    claim_rewards table user id now later = do
      position ← get_staking_position table id
      require (str_eq position.user_id user) unauthorized
      require (is_active_status position.status) claim_inactive
      rewards ← calculate_rewards table id now
      let claimed : StakingPosition = record position {
        accumulated_rewards = position.accumulated_rewards + rewards;
        last_claim_time = later;
      }
      if rewards == 0 then ok (table, position) else ok (positions.save table claimed, claimed)

  pub withdraw_staking_position :
      positions.Table → String → String → ℕ → Result (positions.Table × StakingPosition)
  withdraw_staking_position table user id now = do
    position ← get_staking_position table id
    require (str_eq position.user_id user) unauthorized
    require (is_active_status position.status) withdraw_inactive
    let withdrawn : StakingPosition = record position {
      status = if is_early position.end_time now then withdrawn_early else completed;
      withdrawn_at = some now;
    }
    ok (positions.save table withdrawn, withdrawn)

  pub get_positions_for_rewards_processing : positions.Table → ℕ → List StakingPosition
  get_positions_for_rewards_processing table now = positions.find table (is_due now) any_order none

  module _ (numbers : Numbers) where
    -- The loop of `processAutoClaimRewards`: the clock at its readings, counted from n.
    pub claim_each :
        (ℕ → ℕ) → ℕ → List StakingPosition → positions.Table → ℕ → ℕ → positions.Table × ℕ × ℕ
    claim_each clock n [] table successful failed = (table, successful, failed)
    claim_each clock n (p ∷ ps) table successful failed =
        elim (claim_rewards numbers table p.user_id p.id (clock n) (clock (suc n))) [
          | ok (table', _) ↦ claim_each clock (suc (suc n)) ps table' (suc successful) failed
          | err e ↦ claim_each clock (suc (suc n)) ps table successful (suc failed)
        ]

    pub process_auto_claim_rewards : (ℕ → ℕ) → positions.Table → positions.Table × Processed
    process_auto_claim_rewards clock table =
        let due = get_positions_for_rewards_processing table (clock 0) in
        let (table', successful, failed) = claim_each clock 1 due table 0 0 in
        (table', record { processed = length due; successful = successful; failed = failed })
