-- ===== src/Gateway/Readers.antt =====
-- Who gets the events of a wallet.
use text.Mathlib.TextEquality.{eq_iff}
use mathlib.Core.Path.{subst}
use alive_human.Base.{
  ℕ, true, ◌≡◌, ◌⊎◌, inl, inr, String, List, [], ◌∷◌, some, All, All-mono, arith, map, str_eq,
  Option-cases, Bool-cases,
}
use alive_human.Base.Texts.{is_in, after_prefix-append, to_lower, before_colon}
use alive_human.Guards.{Auth, Handshake, connected, socket_can_activate}
use alive_human.Web3Auth.{User}
use alive_human.Gateway.{owns_address, can_subscribe_to_channel, subscribe}
use alive_human.Gateway.Sending.{
  Message, clients_of, send_to_channel, BalanceChange, balance_channel, send_balance_change_event,
}
use alive_human.Gateway.Access.{Happening, run, run-Kept, Granted}

-- The event subscribes the client to the balance of the address, for a user whose wallet it is, in
-- lower case and up to a colon in the address.
pub record OwnerAsks (auth : Auth) (address client : String) (e : Happening) : Type 0 where
  pub handshake : Handshake
  pub user : User
  pub wallet : String
  pub asked : e.0 ≡ subscribe client handshake (balance_channel address)
  pub admitted : socket_can_activate auth e.1 handshake ≡ connected user
  pub has_wallet : user.wallet_address ≡ some wallet
  pub same_wallet : to_lower wallet ≡ to_lower (before_colon (to_lower address))

pub OwnerAsked : Auth → String → String → List Happening → Type 0
OwnerAsked auth address client [] = ⊥
OwnerAsked auth address client (e ∷ es) =
    OwnerAsks auth address client e ⊎ OwnerAsked auth address client es

may_read-owner :
    (user : User) (address : String)
    → can_subscribe_to_channel user (balance_channel address) ≡ true
    → (wallet : String) × (user.wallet_address ≡ some wallet)
      × (to_lower wallet ≡ to_lower (before_colon (to_lower address)))
unfolding can_subscribe_to_channel owns_address
may_read-owner user address may = elim (Option-cases user.wallet_address) [
  | inl missing ↦
      absurd (ground (arith, after_prefix-append "balance:" (to_lower address), may, missing))
  | inr (wallet, has) ↦ (
    wallet,
    has,
    (eq_iff (to_lower wallet) (to_lower (before_colon (to_lower address)))).0
        (ground (arith, after_prefix-append "balance:" (to_lower address), may, has)),
  )
]

Granted-owner :
    (auth : Auth) (address client : String) (es : List Happening)
    → Granted auth client (balance_channel address) es
    → OwnerAsked auth address client es
unfolding OwnerAsked Granted
Granted-owner auth address client [] granted = granted
Granted-owner auth address client (e ∷ es) (inr earlier) =
    inr (Granted-owner auth address client es earlier)
Granted-owner auth address client (e ∷ es) (inl now) =
    let (wallet, has, same) = may_read-owner now.user address now.may in
    inl (record {
      handshake = now.handshake;
      user = now.user;
      wallet = wallet;
      asked = now.asked;
      admitted = now.admitted;
      has_wallet = has;
      same_wallet = same;
    })

module _ (Q : String → String → Type 0) (channel : String) where
  is_in-All :
      (client : String) (xs : List String)
      → All (Q client) xs
      → is_in channel xs ≡ true
      → Q client channel
  is_in-All client [] all there = absurd (ground arith)
  is_in-All client (x ∷ xs) all there = elim (Bool-cases (str_eq x channel)) [
    | inl here ↦ subst (Q client) ((eq_iff x channel).0 here) all.0
    | inr other ↦ is_in-All client xs all.1 (ground arith)
  ]

  clients_of-All :
      (subs : List (String × List String))
      → All (λ (e : String × List String). All (Q e.0) e.1) subs
      → All (λ c. Q c channel) (clients_of channel subs)
  clients_of-All [] all = tt
  clients_of-All (e ∷ subs) all = elim (Bool-cases (is_in channel e.1)) [
    | inl reads ↦ rw reads (is_in-All e.0 e.1 all.0 reads, clients_of-All subs all.1)
    | inr not_it ↦ rw not_it (clients_of-All subs all.1)
  ]

All-sent :
    {A : Type 0} (P : String → Type 0) (m : Message A) (clients : List String)
    → All P clients
    → All (λ (d : String × Message A). P d.0) (map (λ c. (c, m)) clients)
All-sent P m [] all = tt
All-sent P m (c ∷ clients) all = (all.0, All-sent P m clients all.1)

-- Whatever has happened at the gateway, each client that gets the event of a balance change has asked
-- for the channel of that address, with a handshake that the guard took for that of a user whose wallet
-- is the address, both in lower case (an address with a colon is cut there).
pub balance_change-owners :
    (auth : Auth) (es : List Happening) (change : BalanceChange) (clock : ℕ → ℕ)
    → All
        (λ (d : String × Message BalanceChange). OwnerAsked auth change.address d.0 es)
        (send_balance_change_event change clock (run auth es))
unfolding send_balance_change_event send_to_channel
balance_change-owners auth es change clock =
    let channel = balance_channel change.address in
    let granted : String → Type 0 = λ c. Granted auth c channel es in
    let clients = clients_of channel (run auth es).subscriptions in
    let all =
      clients_of-All (λ c ch. Granted auth c ch es) channel (run auth es).subscriptions
        (run-Kept auth es) in
    All-sent (λ c. OwnerAsked auth change.address c es)
      (record {
        kind = channel;
        payload = record change { kind = "balance-change"; timestamp = clock 0 };
        timestamp = clock 1;
      })
      clients
      (All-mono granted (λ c. OwnerAsked auth change.address c es) clients
        (λ c. Granted-owner auth change.address c es) all)
