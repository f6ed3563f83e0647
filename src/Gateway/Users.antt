-- ===== src/Gateway/Users.antt =====
-- Messages to a user, and a client that has left, after a history of events.
use text.Mathlib.TextEquality.{eq_iff}
use alive_human.Base.{
  truthy, ℕ, false, ◌≡◌, inl, inr, refl, ap, ◌∙◌, String, List, [], ◌∷◌, Option, none, arith, map,
  Option-cases,
}
use alive_human.Base.Dict.{Dict, lookup, delete, lookup-delete}
use alive_human.Base.Texts.{is_in}
use alive_human.Guards.{Auth}
use alive_human.Web3Auth.{User}
use alive_human.Gateway.Access.{Happening, run}
use alive_human.Gateway.Sending.{send_to_user, send_to_channel, clients_of}
use alive_human.Gateway.Leaving.{truthy-some, disconnect-Sound}
use alive_human.Gateway.Presence.{
  Sound, sockets, belongs, connect-Sound, subscribe-Sound, unsubscribe-Sound,
}
use alive_human.Gateway.{
  Gateway, empty, handle_disconnect, connect, disconnect, subscribe, unsubscribe, step,
}

-- Each client that connects is one that the gateway does not know at that moment.
unfoldable pub Fresh : Auth → List Happening → Type 0
Fresh auth [] = Unit {0}
Fresh auth ((connect client token, find) ∷ es) =
    (lookup client (run auth es).socket_user ≡ none) × Fresh auth es
Fresh auth ((disconnect client, find) ∷ es) = Fresh auth es
Fresh auth ((subscribe client h channel, find) ∷ es) = Fresh auth es
Fresh auth ((unsubscribe client h channel, find) ∷ es) = Fresh auth es

empty-Sound : Sound empty
unfolding lookup
empty-Sound = record { agree = λ c u. refl; present = λ c. refl; named = λ c u held. ground arith }

pub run-Sound : (auth : Auth) (es : List Happening) → Fresh auth es → Sound (run auth es)
unfolding run Fresh step
run-Sound auth [] fresh = empty-Sound
run-Sound auth ((connect client token, find) ∷ es) fresh =
    connect-Sound auth find client token (run auth es) (run-Sound auth es fresh.1) fresh.0
run-Sound auth ((disconnect client, find) ∷ es) fresh =
    disconnect-Sound client (run auth es) (run-Sound auth es fresh)
run-Sound auth ((subscribe client h channel, find) ∷ es) fresh =
    subscribe-Sound auth find client h channel (run auth es) (run-Sound auth es fresh)
run-Sound auth ((unsubscribe client h channel, find) ∷ es) fresh =
    unsubscribe-Sound auth find client h channel (run auth es) (run-Sound auth es fresh)

abbrev pub receivers {ℓ} : {A : Type ℓ} → List (String × A) → List String
receivers sent = map (λ d. d.0) sent

receivers-map {ℓ} :
    {A : Type ℓ} (m : A) (clients : List String) → receivers (map (λ c. (c, m)) clients) ≡ clients
receivers-map m [] = refl
receivers-map m (c ∷ clients) = ap (λ cs. c ∷ cs) (receivers-map m clients)

-- After any history in which each client that connects is new to the gateway, a message to a user goes
-- to the sockets that are recorded as that user's, and to no other.
pub send_to_user-belongs :
    {A : Type 0} (auth : Auth) (es : List Happening) (client user channel : String) (payload : A)
    (now : ℕ)
    → Fresh auth es
    → is_in client (receivers (send_to_user user channel payload now (run auth es)))
      ≡ belongs (run auth es) client user
unfolding send_to_user
send_to_user-belongs auth es client user channel payload now fresh =
    ap (is_in client) (
      receivers-map (record { kind = channel; payload = payload; timestamp = now })
        (sockets (run auth es) user))
    ∙ (run-Sound auth es fresh).agree client user

is_in-gone :
    (client channel : String) (subs : Dict (List String))
    → is_in client (clients_of channel (delete client subs)) ≡ false
unfolding delete
is_in-gone client channel [] = refl
is_in-gone client channel (e ∷ subs) =
    ground (arith, is_in-gone client channel subs, eq_iff e.0 client)

disconnect-subscriptions :
    (client : String) (g : Gateway)
    → (handle_disconnect client g).subscriptions ≡ delete client g.subscriptions
unfolding handle_disconnect
disconnect-subscriptions client g = elim (Option-cases (truthy (lookup client g.socket_user))) [
  | inl missing ↦ ground (arith, missing)
  | inr (user, known) ↦ ground (arith, known)
]

disconnect-belongs :
    (client user : String) (g : Gateway)
    → Sound g
    → belongs (handle_disconnect client g) client user ≡ false
unfolding handle_disconnect
disconnect-belongs client user g sound = elim (Option-cases (lookup client g.socket_user)) [
  | inl missing ↦ ground (arith, missing)
  | inr (owner, known) ↦ ground (
    arith,
    truthy-some (lookup client g.socket_user) owner known (sound.named client owner known),
    lookup-delete client client g.socket_user,
    eq_iff client client,
  )
]

-- After any history in which each client that connects is new to the gateway, and which a client's
-- disconnection ends, that client gets no message, of whatever channel and to whatever user.
pub disconnected-silent :
    {A : Type 0} (auth : Auth) (es : List Happening) (find : String → Option User)
    (client user channel : String) (payload : A) (now : ℕ)
    → Fresh auth es
    → (is_in client (
          receivers
            (send_to_channel channel payload now (run auth ((disconnect client, find) ∷ es))))
        ≡ false)
      × (is_in client (
            receivers
              (send_to_user user channel payload now (run auth ((disconnect client, find) ∷ es))))
          ≡ false)
unfolding send_to_channel run step Fresh
disconnected-silent auth es find client user channel payload now fresh =
    let g = run auth es in
    let subs = (handle_disconnect client g).subscriptions in
    (
      ap (is_in client) (
            receivers-map (record { kind = channel; payload = payload; timestamp = now })
              (clients_of channel subs))
          ∙ ap (λ s. is_in client (clients_of channel s)) (disconnect-subscriptions client g)
          ∙ is_in-gone client channel g.subscriptions,
      send_to_user-belongs auth ((disconnect client, find) ∷ es) client user channel payload now
            fresh
          ∙ disconnect-belongs client user g (run-Sound auth es fresh),
    )
