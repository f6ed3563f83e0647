-- ===== src/BatchMinting.antt =====
-- packages/backend/src/blockchain/services/minting.service.ts: the data, the services that it calls
-- and its state. It works on the queue of `MintingQueue`; its operations are in `Batch` and
-- `Requests`. Columns of a record that are never written are left out.
pub mod Batch
pub mod Requests
pub mod Rows
pub mod Groups
pub mod Runs
pub mod Failures
mod Tests
use alive_human.Base.{ℕ, ◌*◌, Bool, false, String, List, Option, none, some, str_eq}
use alive_human.Repository.{Repository}
use alive_human.MintingQueue.{World, Settled}
use alive_human.MintingQueue.Requests.{non_empty}

pub data RecordType : Type 0 where
  first_time annual referral admin other : RecordType

pub record MintingRecord : Type 0 where
  pub id : String
  pub user_id : String
  pub wallet_address : String
  pub record_type : RecordType
  pub transaction_hash : String
  pub amount : String
  pub device_id : String
  pub ip_address : Option String
  pub created_at : ℕ

abbrev pub Records : Type 1
Records = Repository MintingRecord (λ r. r.id)

-- The calls of the token service that send a transaction.
pub data Sent : Type 0 where
  batch_first_time : List String → List String → List (List String) → Sent
  batch_annual : List String → List String → List String → Sent
  first_time_mint : String → String → List String → Sent
  annual_mint : String → String → String → Sent

-- What the service relies on: the proof of the Merkle service for an address, if there is one; the
-- token service's signature for an address and a device, its answer to a call (which may depend on
-- the calls before it, latest first), and that for a new user, which may be without a transaction;
-- and whether the users' service records a minting for an address.
pub record Tokens : Type 0 where
  pub generate_proof : String → Option (List String)
  pub sign : String → String → Settled String
  pub send : List Sent → Sent → Settled String
  pub mint_for_new_user : String → Settled (Option String)
  pub record_token_minting : String → Settled (Unit {0})

pub record Config : Type 0 where
  pub batch_minting_enabled : Bool
  pub batch_mint_max_size : ℕ
  pub batch_minting_interval_ms : ℕ

-- The constructor, from the three variables of the environment and what `parseInt` reads.
pub create : (String → ℕ) → Option String → Option String → Option String → Config
create parse_int enabled size interval = record {
  batch_minting_enabled = elim enabled [ none ↦ false | some e ↦ str_eq e "true" ];
  batch_mint_max_size = elim (non_empty size) [ none ↦ 10 | some s ↦ parse_int s ];
  batch_minting_interval_ms = elim (non_empty interval) [
    | none ↦ 5 * 60 * 1000
    | some s ↦ parse_int s
  ];
}

-- The queue, the table of records, the transactions sent (latest first), and the addresses for which
-- a minting was recorded.
pub record State (T R : Type 0) : Type 0 where
  pub queue : World T
  pub records : R
  pub sent : List Sent
  pub recorded : List String
