-- ===== src/ProviderHealth.antt =====
-- packages/backend/src/blockchain/hotwallet/services/RPCLoadBalancer.ts: the health that
-- `checkHealth` keeps of one provider. Times are milliseconds.
pub mod Runs
pub mod Balancer
pub mod Choice
mod Tests
use alive_human.Base.{
  ℕ, ◌+◌, ◌-◌, Bool, true, false, not, ◌&&◌, String, List, [], ◌∷◌, Option, none, some, ltb, leb,
  if◌then◌else◌,
}

pub record ProviderHealth : Type 0 where
  pub url : String
  pub is_alive : Bool
  pub last_checked : ℕ
  pub response_time : ℕ
  pub fail_count : ℕ
  pub last_failure : Option ℕ
  pub priority : ℕ

abbrev pub max_fail_count : ℕ
max_fail_count = 3

abbrev pub recovery_threshold : ℕ
recovery_threshold = 2

-- The health that the constructor gives a provider.
abbrev pub new_health : String → ℕ → ℕ → ProviderHealth
new_health url priority now = record {
  url = url;
  is_alive = true;
  last_checked = now;
  response_time = 0;
  fail_count = 0;
  last_failure = none;
  priority = priority;
}

-- How the race of a request for the block number against the timeout ends: with an answer that took
-- some time, or with an error; and when the check is noted.
pub data Probe : Type 0 where
  answered : ℕ → ℕ → Probe
  failed : ℕ → Probe

-- A check of one provider. `failCount` is a count, so `Math.max(0, failCount - 1)` is the
-- subtraction that stops at 0.
pub check : ProviderHealth → Probe → ProviderHealth
check h (answered response_time now) =
    let seen : ProviderHealth = record h { last_checked = now; response_time = response_time } in
    let counted : ProviderHealth = record seen { fail_count = h.fail_count - 1 } in
    if not h.is_alive
    then (if ltb counted.fail_count (max_fail_count - recovery_threshold)
        then record counted { is_alive = true }
        else counted)
    else record seen { fail_count = 0 }
check h (failed now) =
    let counted : ProviderHealth = record h {
      last_checked = now;
      fail_count = h.fail_count + 1;
      last_failure = some now;
    } in
    if h.is_alive && leb max_fail_count counted.fail_count
    then record counted { is_alive = false }
    else counted

pub check_all : ProviderHealth → List Probe → ProviderHealth
check_all h [] = h
check_all h (p ∷ ps) = check_all (check h p) ps
