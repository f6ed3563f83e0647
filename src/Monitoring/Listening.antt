-- ===== src/Monitoring/Listening.antt =====
-- The listeners of MonitoringService on its providers, and the events that they emit.
use alive_human.Base.{
  Fallible, err, ok, ℕ, Bool, true, false, ◌||◌, String, List, [], ◌∷◌, ◌++◌, Option, none, some,
  ◌==◌, str_eq, filter, not, if◌then◌else◌,
}
use alive_human.Base.Texts.{to_lower}
use alive_human.Monitoring.{Socket}

-- An address as it was given; the block listener keeps the balance of the time it was made.
pub data Listener : Type 0 where
  pending logs : String → Listener
  block : String → ℕ → Listener

-- A listener, with its provider and what its closure holds of the connection.
pub record Registered : Type 0 where
  pub provider : ℕ
  pub chain_id : ℕ
  pub network_name : String
  pub listener : Listener

unfoldable pub register : ℕ → Socket → Listener → Registered
register p ws l = record {
  provider = p;
  chain_id = ws.chain_id;
  network_name = ws.network_name;
  listener = l;
}

-- The sender and the receiver of a transaction or of a transfer.
pub record Parties : Type 0 where
  pub sender : Option String
  pub receiver : Option String

pub data Emitted : Type 0 where
  pending_transaction : ℕ → String → String → Parties → Emitted
  balance_change : ℕ → String → String → ℕ → ℕ → ℕ → Emitted
  nft_transfer : ℕ → String → String → Parties → Emitted

-- `subscribeToAddressActivity`: the listeners that it adds, if the balance can be read.
unfoldable pub subscribe_to_address_activity :
    (ℕ → String → Fallible String ℕ) → String → ℕ → Socket → Fallible String (List Registered)
subscribe_to_address_activity balance address p ws = elim (balance p address) [
  | err e ↦ err e
  | ok initial ↦ ok (register p ws (pending address) ∷ register p ws (block address initial) ∷ [])
]

abbrev is_address : String → Option String → Bool
is_address address none = false
is_address address (some other) = str_eq (to_lower other) (to_lower address)

unfoldable pub involves : String → Parties → Bool
involves address tx = is_address address tx.sender || is_address address tx.receiver

-- What one listener does on a pending transaction of its provider, none if that cannot be read.
unfoldable pub on_pending : Option Parties → Registered → List Emitted
on_pending none r = []
on_pending (some tx) r = elim r.listener [
  | pending address ↦
      if involves address tx
      then pending_transaction r.chain_id r.network_name (to_lower address) tx ∷ []
      else []
  | logs address ↦ []
  | block address initial ↦ []
]

-- On a block, with the balances that can be read then.
unfoldable pub on_block : (ℕ → String → Fallible String ℕ) → ℕ → Registered → List Emitted
on_block balance number r = elim r.listener [
  | pending address ↦ []
  | logs address ↦ []
  | block address initial ↦ elim (balance r.provider address) [
    | err e ↦ []
    | ok current ↦
        if initial == current
        then []
        else balance_change r.chain_id r.network_name (to_lower address) initial current number ∷ []
  ]
]

-- On a log, none if it is no transfer.
unfoldable pub on_log : Option Parties → Registered → List Emitted
on_log none r = []
on_log (some transfer) r = elim r.listener [
  | pending address ↦ []
  | block address initial ↦ []
  | logs address ↦
      if involves address transfer
      then nft_transfer r.chain_id r.network_name address transfer ∷ []
      else []
]

-- What the listeners of a provider emit on an event of it, in the order they were added.
unfoldable pub emit : (Registered → List Emitted) → ℕ → List Registered → List Emitted
emit handler p [] = []
emit handler p (r ∷ rs) =
    let rest = emit handler p rs in if r.provider == p then handler r ++ rest else rest

-- `removeAllListeners` of a provider, and of its logs only.
unfoldable pub remove_all_listeners : ℕ → List Registered → List Registered
remove_all_listeners p rs = filter (λ r. not (r.provider == p)) rs

abbrev pub is_logs : Listener → Bool
is_logs (logs address) = true
is_logs (pending address) = false
is_logs (block address initial) = false

unfoldable pub remove_log_listeners : ℕ → List Registered → List Registered
remove_log_listeners p rs =
    filter (λ r. not (if r.provider == p then is_logs r.listener else false)) rs
