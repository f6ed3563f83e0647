-- ===== src/MintingQueue.antt =====
-- packages/backend/src/blockchain/services/user-minting-queue.service.ts and the entity of its rows:
-- the data, the services that it calls, and its state. The operations are in `Requests`,
-- `Processing` and `Batches`. Times are milliseconds; amounts, addresses and hashes are texts.
pub mod Requests
pub mod Processing
pub mod Batches
pub mod Attempts
pub mod Outcomes
pub mod Selection
pub mod Duplicates
mod Tests
use alive_human.Base.{
  ◌≡◌, refl, ◌⊎◌, inl, inr, ℕ, Bool, true, false, String, List, Option, none, some, Fallible,
}
use alive_human.Repository.{Repository}

pub data ItemStatus : Type 0 where
  pending processing completed failed cancelled : ItemStatus

pub data ItemType : Type 0 where
  first_time annual referral other admin : ItemType

pub record Metadata : Type 0 where
  pub amount : Option String
  pub user_agent : Option String

pub record QueueItem : Type 0 where
  pub id : String
  pub user_id : String
  pub wallet_address : String
  pub device_id : Option String
  pub item_type : ItemType
  pub amount : String
  pub status : ItemStatus
  pub transaction_hash : Option String
  pub error_message : Option String
  pub retry_count : ℕ
  pub max_retries : ℕ
  pub ip_address : Option String
  pub metadata : Option Metadata
  pub merkle_proof : Option String
  pub signature : Option String
  pub process_after : Option ℕ
  pub created_at : ℕ
  pub processed_at : Option ℕ
  pub processing_started_at : Option ℕ
  pub completed_at : Option ℕ
  pub priority : ℕ

-- A row that `create` makes with the entity's defaults, before its fields are given.
abbrev pub blank : String → String → String → ItemType → ℕ → QueueItem
blank id user wallet type now = record {
  id = id;
  user_id = user;
  wallet_address = wallet;
  device_id = none;
  item_type = type;
  amount = "0";
  status = pending;
  transaction_hash = none;
  error_message = none;
  retry_count = 0;
  max_retries = 3;
  ip_address = none;
  metadata = none;
  merkle_proof = none;
  signature = none;
  process_after = none;
  created_at = now;
  processed_at = none;
  processing_started_at = none;
  completed_at = none;
  priority = 0;
}

abbrev pub is_pending : ItemStatus → Bool
is_pending pending = true
is_pending _ = false

abbrev pub same_status : ItemStatus → ItemStatus → Bool
same_status pending pending = true
same_status processing processing = true
same_status completed completed = true
same_status failed failed = true
same_status cancelled cancelled = true
same_status _ _ = false

abbrev pub same_type : ItemType → ItemType → Bool
same_type first_time first_time = true
same_type annual annual = true
same_type referral referral = true
same_type other other = true
same_type admin admin = true
same_type _ _ = false

abbrev pub Items : Type 1
Items = Repository QueueItem (λ i. i.id)

-- How a call of another service settles.
pub data Settled {ℓ} (A : Type ℓ) : Type ℓ where
  resolved : A → Settled A
  rejected : String → Settled A

pub Settled-cases {ℓ} :
    {A : Type ℓ} (s : Settled A) → ((a : A) × (s ≡ resolved a)) ⊎ ((e : String) × (s ≡ rejected e))
Settled-cases (resolved a) = inl (a, refl)
Settled-cases (rejected e) = inr (e, refl)

-- The calls of the token service that send a transaction.
pub data MintCall : Type 0 where
  first_time_mint : String → Option String → Option (List String) → MintCall
  annual_mint : String → Option String → Option String → MintCall
  admin_mint : String → String → MintCall

-- What the queue relies on: the token service's answer to a call, which may depend on the calls
-- before it, latest first; `JSON.parse` of the text of a
-- proof, which gives null for null; and `JSON.stringify`.
pub record Services : Type 0 where
  pub mint : List MintCall → MintCall → Settled String
  pub parse_proof : Option String → Settled (Option (List String))
  pub stringify_proof : List String → String
  pub stringify_text : String → String

-- The events that the service emits, with the row's id.
pub data QueueEvent : Type 0 where
  minting_queued minting_completed minting_failed : String → QueueEvent

-- The table, the calls made and the events emitted (latest first), and `isProcessingQueue`.
pub record World (T : Type 0) : Type 0 where
  pub table : T
  pub calls : List MintCall
  pub events : List QueueEvent
  pub is_processing : Bool

pub data QueueError : Type 0 where
  request_not_found : QueueError
  cannot_cancel : ItemStatus → QueueError
  signature_failed : String → QueueError

abbrev pub Result {ℓ} : Type ℓ → Type ℓ
Result A = Fallible QueueError A
