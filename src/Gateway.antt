-- ===== src/Gateway.antt =====
-- packages/backend/src/blockchain/gateways/websocket.gateway.ts: the clients of the socket server, their
-- users and the channels that they subscribe to. A Set is a list without duplicates; what is sent is
-- the list of the receivers with the message.
pub mod Sending
pub mod Access
pub mod Readers
pub mod Presence
pub mod Leaving
pub mod Users
mod Tests
use alive_human.Base.{
  truthy, ℕ, Bool, true, false, not, String, List, [], ◌∷◌, ◌++◌, Option, none, some, filter, map,
  str_eq, get_or, if◌then◌else◌,
}
use alive_human.Base.Dict.{Dict, lookup, insert, delete}
use alive_human.Base.Texts.{after_prefix, is_in, to_lower, before_colon}
use alive_human.Guards.{Auth, Handshake, SocketDecision, connected, rejected, socket_can_activate}
use alive_human.Web3Auth.{User}

-- `clientSubscriptions`, `userIdToSocketId` and `socketIdToUserId`.
pub record Gateway : Type 0 where
  pub subscriptions : Dict (List String)
  pub user_sockets : Dict (List String)
  pub socket_user : Dict String

abbrev pub empty : Gateway
empty = record { subscriptions = []; user_sockets = []; socket_user = [] }

-- `add` and `delete` of a Set.
abbrev pub add : String → List String → List String
add x xs = if is_in x xs then xs else xs ++ x ∷ []

abbrev pub remove : String → List String → List String
remove x xs = filter (λ y. not (str_eq y x)) xs

-- `getUserIdFromToken`.
unfoldable pub user_id_of_token : Auth → (String → Option User) → String → Option String
user_id_of_token auth find token = elim (auth.verify token) [
  | none ↦ none
  | some payload ↦ elim (truthy payload.sub) [
    | none ↦ none
    | some sub ↦ elim (find sub) [ none ↦ none | some user ↦ some sub ]
  ]
]

-- What `handleConnection` records of a client, once its user is known.
unfoldable pub join : String → String → Gateway → Gateway
join client user g =
    let sockets = get_or (lookup user g.user_sockets) [] in
    record {
      subscriptions = insert client [] g.subscriptions;
      user_sockets = insert user (add client sockets) g.user_sockets;
      socket_user = insert client user g.socket_user;
    }

-- `handleConnection`: the new state, and whether the client stays connected.
unfoldable pub handle_connection :
    Auth → (String → Option User) → String → Option String → Gateway → Gateway × Bool
handle_connection auth find client query_token g = elim (truthy query_token) [
  | none ↦ (g, false)
  | some token ↦ elim (truthy (user_id_of_token auth find token)) [
    | none ↦ (g, false)
    | some user ↦ (join client user g, true)
  ]
]

-- The sockets of a user, without one of them; a user without sockets is dropped.
unfoldable pub leave_user : String → String → Dict (List String) → Dict (List String)
leave_user client user sockets = elim (lookup user sockets) [
  | none ↦ sockets
  | some clients ↦ elim (remove client clients) [
    | [] ↦ delete user sockets
    | c ∷ cs ↦ insert user (c ∷ cs) sockets
  ]
]

unfoldable pub handle_disconnect : String → Gateway → Gateway
handle_disconnect client g = elim (truthy (lookup client g.socket_user)) [
  | none ↦ record g { subscriptions = delete client g.subscriptions }
  | some user ↦ record {
    subscriptions = delete client g.subscriptions;
    user_sockets = leave_user client user g.user_sockets;
    socket_user = delete client g.socket_user;
  }
]

-- Is the address in a channel's name, up to a further colon, that of the user's wallet?
unfoldable pub owns_address : User → String → Bool
owns_address user rest = elim user.wallet_address [
  | none ↦ false
  | some wallet ↦ str_eq (to_lower wallet) (to_lower (before_colon rest))
]

unfoldable pub can_subscribe_to_channel : User → String → Bool
can_subscribe_to_channel user channel = elim (after_prefix "balance:" channel) [
  | some rest ↦ owns_address user rest
  | none ↦ elim (after_prefix "nft:" channel) [
    | some rest ↦ owns_address user rest
    | none ↦ elim (after_prefix "staking:" channel) [
      | some position ↦ true
      | none ↦ is_in channel ("notifications" ∷ "token:price" ∷ [])
    ]
  ]
]

pub data Answer : Type 0 where
  success no_channel unauthorized : Answer
  refused : String → Answer

-- A change of the channels of a client that is there; of any other, nothing.
unfoldable pub change_channels : (List String → List String) → String → Gateway → Gateway
change_channels change client g = elim (lookup client g.subscriptions) [
  | none ↦ g
  | some channels ↦ record g { subscriptions = insert client (change channels) g.subscriptions }
]

unfoldable pub handle_subscribe : String → User → String → Gateway → Gateway × Answer
handle_subscribe client user channel g =
    if str_eq channel ""
    then (g, no_channel)
    else (if can_subscribe_to_channel user channel
        then (change_channels (add channel) client g, success)
        else (g, unauthorized))

unfoldable pub handle_unsubscribe : String → String → Gateway → Gateway × Answer
handle_unsubscribe client channel g =
    if str_eq channel ""
    then (g, no_channel)
    else (change_channels (remove channel) client g, success)

-- What reaches the gateway. A message comes with the handshake of its client, which the guard reads.
pub data Event : Type 0 where
  connect : String → Option String → Event
  disconnect : String → Event
  subscribe unsubscribe : String → Handshake → String → Event

-- A message that the guard lets through, and one that it does not.
unfoldable pub subscribe_message :
    Auth → (String → Option User) → String → Handshake → String → Gateway → Gateway × Answer
subscribe_message auth find client h channel g = elim (socket_can_activate auth find h) [
  | rejected message ↦ (g, refused message)
  | connected user ↦ handle_subscribe client user channel g
]

unfoldable pub unsubscribe_message :
    Auth → (String → Option User) → String → Handshake → String → Gateway → Gateway × Answer
unsubscribe_message auth find client h channel g = elim (socket_can_activate auth find h) [
  | rejected message ↦ (g, refused message)
  | connected user ↦ handle_unsubscribe client channel g
]

-- The state after an event. The database may answer otherwise at each.
unfoldable pub step : Auth → (String → Option User) → Event → Gateway → Gateway
step auth find (connect client token) g = (handle_connection auth find client token g).0
step auth find (disconnect client) g = handle_disconnect client g
step auth find (subscribe client h channel) g = (subscribe_message auth find client h channel g).0
step auth find (unsubscribe client h channel) g =
    (unsubscribe_message auth find client h channel g).0
