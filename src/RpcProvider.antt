-- ===== src/RpcProvider.antt =====
-- packages/backend/src/blockchain/services/rpc-provider.service.ts: the endpoints of one network, and
-- the choice of a provider. The service's four objects hold such a record for each network, and no
-- operation on one network touches another.
pub mod Service
pub mod Search
pub mod Counts
pub mod Switches
pub mod Termination
pub mod Addresses
pub mod Retries
mod Tests
use alive_human.Base.Texts.{is_in}
use alive_human.Base.{
  ℕ, zero, suc, Bool, true, false, String, List, [], ◌∷◌, Option, none, some, map, ◌||◌, str_eq,
  if◌then◌else◌,
}

-- A flag that is not there is undefined, which is false.
pub flag : List Bool → ℕ → Bool
flag [] i = false
flag (b ∷ bs) zero = b
flag (b ∷ bs) (suc i) = flag bs i

pub set_flag : List Bool → ℕ → Bool → List Bool
set_flag [] i b = []
set_flag (x ∷ xs) zero b = b ∷ xs
set_flag (x ∷ xs) (suc i) b = x ∷ set_flag xs i b

pub url_at : List String → ℕ → String
url_at [] i = ""
url_at (u ∷ us) zero = u
url_at (u ∷ us) (suc i) = url_at us i

pub all_true : List String → List Bool
all_true us = map (λ u. true) us

-- `rpcUrls`, whether `providerCache` has a provider, `healthCheckResults`, `currentProviderIndex` and
-- `lastSwitch` of a network.
pub record Network : Type 0 where
  pub urls : List String
  pub cached : List Bool
  pub healthy : List Bool
  pub current : ℕ
  pub last_switch : ℕ

-- Duplicates are dropped after the first, and so are empty texts.
pub unique : List String → List String → List String
unique seen [] = []
unique seen (u ∷ us) =
    let drop = str_eq u "" || is_in u seen in
    let rest = unique (if drop then seen else u ∷ seen) us in if drop then rest else u ∷ rest

abbrev pub with_first : Option String → List String → List String
with_first none us = us
with_first (some u) [] = if str_eq u "" then [] else u ∷ []
with_first (some u) (x ∷ us) = (if str_eq u "" then x else u) ∷ us

-- `initializeRpcUrls`, for one network: the first address is that of the environment, if it has one.
pub initialize : Option String → List String → Network
initialize env defaults =
    let urls = unique [] (with_first env defaults) in
    record {
      urls = urls;
      cached = map (λ u. false) urls;
      healthy = all_true urls;
      current = 0;
      last_switch = 0;
    }
