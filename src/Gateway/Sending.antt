-- ===== src/Gateway/Sending.antt =====
-- What the gateway sends: to the clients of a channel, to those of a user, or to all.
use alive_human.Base.{
  ℕ, Bool, false, String, List, [], ◌++◌, Option, none, some, map, filter, get_or,
}
use alive_human.Base.Dict.{Dict, lookup}
use alive_human.Base.Texts.{is_in, str_append, to_lower}
use alive_human.Gateway.{Gateway}

pub record Message {ℓ} (A : Type ℓ) : Type ℓ where
  pub kind : String
  pub payload : A
  pub timestamp : ℕ

-- The clients that get a message, in order.
abbrev pub clients_of : String → Dict (List String) → List String
clients_of channel subs =
    map (λ (e : String × List String). e.0)
      (filter (λ (e : String × List String). is_in channel e.1) subs)

unfoldable pub send_to_channel {ℓ} :
    {A : Type ℓ} → String → A → ℕ → Gateway → List (String × Message A)
send_to_channel channel payload now g =
    map (λ c. (c, record { kind = channel; payload = payload; timestamp = now }))
      (clients_of channel g.subscriptions)

unfoldable pub send_to_user {ℓ} :
    {A : Type ℓ} → String → String → A → ℕ → Gateway → List (String × Message A)
send_to_user user channel payload now g =
    map (λ c. (c, record { kind = channel; payload = payload; timestamp = now }))
      (get_or (lookup user g.user_sockets) [])

pub data Category : Type 0 where
  info success warning error : Category

-- A notification, for one user or for all. `D` is the type of the data that may come with it.
pub record Notification (D : Type 0) : Type 0 where
  pub user_id : Option String
  pub title : String
  pub message : String
  pub category : Category
  pub is_read : Bool
  pub extra : Option D
  pub timestamp : ℕ

unfoldable pub send_notification_to_user :
    {D : Type 0}
    → String
    → String
    → String
    → Option Category
    → Option D
    → (ℕ → ℕ)
    → Gateway
    → List (String × Message (Notification D))
send_notification_to_user user title message category extra clock g =
    send_to_user user "notifications"
      (record {
        user_id = some user;
        title = title;
        message = message;
        category = get_or category info;
        is_read = false;
        extra = extra;
        timestamp = clock 0;
      })
      (clock 1) g

-- `broadcastNotification` has one message for every client of the server.
unfoldable pub broadcast_notification :
    {D : Type 0} → String → String → Option Category → Option D → (ℕ → ℕ) → Message (Notification D)
broadcast_notification title message category extra clock = record {
  kind = "notifications";
  payload = record {
    user_id = none;
    title = title;
    message = message;
    category = get_or category info;
    is_read = false;
    extra = extra;
    timestamp = clock 0;
  };
  timestamp = clock 1;
}

pub record BalanceChange : Type 0 where
  pub address : String
  pub previous_balance : String
  pub new_balance : String
  pub formatted_previous_balance : String
  pub formatted_new_balance : String
  pub tx_hash : Option String
  pub block_number : ℕ
  pub chain_id : ℕ
  pub network_name : String
  pub kind : String
  pub timestamp : ℕ

abbrev pub balance_channel : String → String
balance_channel address = str_append "balance:" (to_lower address)

-- The event is given without its type and its time, which are set here.
unfoldable pub send_balance_change_event :
    BalanceChange → (ℕ → ℕ) → Gateway → List (String × Message BalanceChange)
send_balance_change_event change clock g =
    send_to_channel (balance_channel change.address)
      (record change { kind = "balance-change"; timestamp = clock 0 }) (clock 1) g

pub record NftTransfer (M : Type 0) : Type 0 where
  pub token_id : String
  pub contract_address : String
  pub sender : String
  pub recipient : String
  pub tx_hash : String
  pub block_number : ℕ
  pub chain_id : ℕ
  pub network_name : String
  pub metadata : Option M
  pub kind : String
  pub timestamp : ℕ

abbrev pub nft_channel : String → String
nft_channel address = str_append "nft:" (to_lower address)

-- A client of both channels gets the event twice.
unfoldable pub send_nft_transfer_event :
    {M : Type 0} → NftTransfer M → (ℕ → ℕ) → Gateway → List (String × Message (NftTransfer M))
send_nft_transfer_event {M} transfer clock g =
    let sent : NftTransfer M = record transfer { kind = "nft-transfer"; timestamp = clock 0 } in
    send_to_channel (nft_channel transfer.sender) sent (clock 1) g
    ++ send_to_channel (nft_channel transfer.recipient) sent (clock 2) g
