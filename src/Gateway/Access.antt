-- ===== src/Gateway/Access.antt =====
-- Who may read a channel: the subscriptions of a history of events, and the owners of wallets.

use mathlib.Core.Path.{subst}
use alive_human.Base.{
  truthy, true, ◌≡◌, ◌⊎◌, inl, inr, refl, sym, String, List, [], ◌∷◌, ◌++◌, Option, none, some, All,
  All-mono, arith, str_eq, Option-cases, Bool-cases,
}
use alive_human.Base.Dict.{lookup, delete, insert-All, delete-All, lookup-All}
use alive_human.Base.Texts.{is_in}
use alive_human.Guards.{Auth, Handshake, SocketDecision, connected, rejected, socket_can_activate}
use alive_human.Web3Auth.{User}
use alive_human.Gateway.{
  Gateway, empty, add, remove, join, handle_connection, handle_disconnect, leave_user,
  can_subscribe_to_channel, user_id_of_token, change_channels, handle_subscribe, handle_unsubscribe,
  subscribe_message, unsubscribe_message, Event, connect, disconnect, subscribe, unsubscribe, step,
}

-- An event, with what the database holds of each user id at that time.
abbrev pub Happening : Type 0
Happening = Event × (String → Option User)

-- The state after a history, whose latest event stands first.
unfoldable pub run : Auth → List Happening → Gateway
run auth [] = empty
run auth (e ∷ es) = step auth e.1 e.0 (run auth es)

-- The event asks for the channel for the client, with a handshake that the guard takes for that of a
-- user who may have it.
pub record Grants (auth : Auth) (client channel : String) (e : Happening) : Type 0 where
  pub handshake : Handshake
  pub user : User
  pub asked : e.0 ≡ subscribe client handshake channel
  pub admitted : socket_can_activate auth e.1 handshake ≡ connected user
  pub may : can_subscribe_to_channel user channel ≡ true

unfoldable pub Granted : Auth → String → String → List Happening → Type 0
Granted auth client channel [] = ⊥
Granted auth client channel (e ∷ es) = Grants auth client channel e ⊎ Granted auth client channel es

pub socket_cases :
    (auth : Auth) (find : String → Option User) (h : Handshake)
    → ((m : String) × (socket_can_activate auth find h ≡ rejected m))
      ⊎ ((user : User) × (socket_can_activate auth find h ≡ connected user))
socket_cases auth find h = cases (socket_can_activate auth find h)
  where
    cases :
        (d : SocketDecision User)
        → ((m : String) × (d ≡ rejected m)) ⊎ ((u : User) × (d ≡ connected u))
    cases (rejected m) = inl (m, refl)
    cases (connected u) = inr (u, refl)

disconnect-unknown :
    (client : String) (g : Gateway)
    → truthy (lookup client g.socket_user) ≡ none
    → handle_disconnect client g ≡ record g { subscriptions = delete client g.subscriptions }
unfolding handle_disconnect
disconnect-unknown client g missing = ground (arith, missing)

disconnect-known :
    (client user : String) (g : Gateway)
    → truthy (lookup client g.socket_user) ≡ some user
    → handle_disconnect client g ≡ record {
      subscriptions = delete client g.subscriptions;
      user_sockets = leave_user client user g.user_sockets;
      socket_user = delete client g.socket_user;
    }
unfolding handle_disconnect
disconnect-known client user g known = ground (arith, known)

module _ (Q : String → String → Type 0) where
  -- Each subscription has the property.
  abbrev pub Kept : Gateway → Type 0
  Kept g = All (λ (e : String × List String). All (Q e.0) e.1) g.subscriptions

  add-All :
      (client channel : String) (xs : List String)
      → Q client channel
      → All (Q client) xs
      → All (Q client) (add channel xs)
  add-All client channel xs q all = elim (Bool-cases (is_in channel xs)) [
    | inl there ↦ rw there all
    | inr new ↦ rw new (append xs all)
  ]
    where
      append : (ys : List String) → All (Q client) ys → All (Q client) (ys ++ channel ∷ [])
      append [] all = (q, tt)
      append (y ∷ ys) all = (all.0, append ys all.1)

  remove-All :
      (client channel : String) (xs : List String)
      → All (Q client) xs
      → All (Q client) (remove channel xs)
  remove-All client channel [] all = tt
  remove-All client channel (x ∷ xs) all = elim (Bool-cases (str_eq x channel)) [
    | inl same ↦ rw same (remove-All client channel xs all.1)
    | inr other ↦ rw other (all.0, remove-All client channel xs all.1)
  ]

  join-Kept : (client user : String) (g : Gateway) → Kept g → Kept (join client user g)
  unfolding join
  join-Kept client user g all =
      insert-All (λ (e : String × List String). All (Q e.0) e.1) client [] g.subscriptions tt all

  disconnect-Kept : (client : String) (g : Gateway) → Kept g → Kept (handle_disconnect client g)
  unfolding handle_disconnect
  disconnect-Kept client g all =
      let gone =
        delete-All (λ (e : String × List String). All (Q e.0) e.1) client g.subscriptions all in
      elim (Option-cases (truthy (lookup client g.socket_user))) [
        | inl missing ↦ subst Kept (sym (disconnect-unknown client g missing)) gone
        | inr (user, known) ↦ subst Kept (sym (disconnect-known client user g known)) gone
      ]

  change-Kept :
      (change : List String → List String) (client : String) (g : Gateway)
      → ((xs : List String) → All (Q client) xs → All (Q client) (change xs))
      → Kept g
      → Kept (change_channels change client g)
  unfolding change_channels
  change-Kept change client g keeps all = elim (Option-cases (lookup client g.subscriptions)) [
    | inl missing ↦ rw (missing, change_channels) all
    | inr (xs, found) ↦
        let each : String × List String → Type 0 = λ e. All (Q e.0) e.1 in
        rw (found, change_channels)
          (insert-All each client (change xs) g.subscriptions
            (keeps xs (lookup-All each client xs g.subscriptions all found)) all)
  ]

  connect-Kept :
      (auth : Auth) (find : String → Option User) (client : String) (token : Option String)
      (g : Gateway)
      → Kept g
      → Kept (handle_connection auth find client token g).0
  unfolding handle_connection
  connect-Kept auth find client token g all = elim (Option-cases (truthy token)) [
    | inl missing ↦ rw (missing, handle_connection) all
    | inr (t, given) ↦ elim (Option-cases (truthy (user_id_of_token auth find t))) [
      | inl bad ↦ rw (given, bad, handle_connection) all
      | inr (user, good) ↦ rw (given, good, handle_connection) (join-Kept client user g all)
    ]
  ]

  subscribe-Kept :
      (auth : Auth) (find : String → Option User) (client : String) (h : Handshake)
      (channel : String) (g : Gateway)
      → (Grants auth client channel (subscribe client h channel, find) → Q client channel)
      → Kept g
      → Kept (subscribe_message auth find client h channel g).0
  unfolding subscribe_message handle_subscribe
  subscribe-Kept auth find client h channel g grants all = elim (socket_cases auth find h) [
    | inl (message, bad) ↦ rw (bad, subscribe_message) all
    | inr (user, admitted) ↦ elim (Bool-cases (str_eq channel "")) [
      | inl blank ↦ rw (admitted, subscribe_message, handle_subscribe, blank) all
      | inr named ↦ elim (Bool-cases (can_subscribe_to_channel user channel)) [
        | inr refuses ↦ rw (admitted, subscribe_message, handle_subscribe, named, refuses) all
        | inl may ↦
            let q = grants (record {
              handshake = h;
              user = user;
              asked = refl;
              admitted = admitted;
              may = may;
            }) in
            rw (admitted, subscribe_message, handle_subscribe, named, may)
              (change-Kept (add channel) client g (λ xs. add-All client channel xs q) all)
      ]
    ]
  ]

  unsubscribe-Kept :
      (auth : Auth) (find : String → Option User) (client : String) (h : Handshake)
      (channel : String) (g : Gateway)
      → Kept g
      → Kept (unsubscribe_message auth find client h channel g).0
  unfolding unsubscribe_message handle_unsubscribe
  unsubscribe-Kept auth find client h channel g all = elim (socket_cases auth find h) [
    | inl (message, bad) ↦ rw (bad, unsubscribe_message) all
    | inr (user, admitted) ↦ elim (Bool-cases (str_eq channel "")) [
      | inl blank ↦ rw (admitted, unsubscribe_message, handle_unsubscribe, blank) all
      | inr named ↦
          rw (admitted, unsubscribe_message, handle_unsubscribe, named)
            (change-Kept (remove channel) client g (remove-All client channel) all)
    ]
  ]

  step-Kept :
      (auth : Auth) (e : Happening) (g : Gateway)
      → ((client channel : String) → Grants auth client channel e → Q client channel)
      → Kept g
      → Kept (step auth e.1 e.0 g)
  unfolding step
  step-Kept auth (connect client token, find) g grants all =
      connect-Kept auth find client token g all
  step-Kept auth (disconnect client, find) g grants all = disconnect-Kept client g all
  step-Kept auth (subscribe client h channel, find) g grants all =
      subscribe-Kept auth find client h channel g (grants client channel) all
  step-Kept auth (unsubscribe client h channel, find) g grants all =
      unsubscribe-Kept auth find client h channel g all

-- Every subscription has been granted.
pub run-Kept :
    (auth : Auth) (es : List Happening) → Kept (λ c ch. Granted auth c ch es) (run auth es)
unfolding run Granted
run-Kept auth [] = tt
run-Kept auth (e ∷ es) =
    let before : String → String → Type 0 = λ c ch. Granted auth c ch es in
    let after : String → String → Type 0 = λ c ch. Granted auth c ch (e ∷ es) in
    step-Kept after auth e (run auth es) (λ c ch granted. inl granted)
      (All-mono (λ (x : String × List String). All (before x.0) x.1)
        (λ (x : String × List String). All (after x.0) x.1) (run auth es).subscriptions
        (λ x all. All-mono (before x.0) (after x.0) x.1 (λ ch granted. inr granted) all)
        (run-Kept auth es))
