-- ===== src/Gateway/Presence.antt =====
-- The two maps between sockets and users, and the sockets of a client that has left.
use text.Mathlib.TextEquality.{eq_iff}
use mathlib.Core.Path.{subst}
use alive_human.Base.{
  truthy, Bool, false, not, ◌&&◌, ◌||◌, ◌≡◌, inl, inr, refl, String, List, [], ◌∷◌, ◌++◌, Option,
  none, some, arith, get_or, str_eq, Option-cases, Bool-cases,
}
use alive_human.Base.Dict.{lookup, has, lookup-insert}
use alive_human.Base.Texts.{is_in}
use alive_human.Guards.{Auth, Handshake}
use alive_human.Web3Auth.{User}
use alive_human.Gateway.Access.{socket_cases}
use alive_human.Gateway.{
  user_id_of_token, can_subscribe_to_channel, Gateway, add, remove, join, handle_connection,
  change_channels, handle_subscribe, handle_unsubscribe, subscribe_message, unsubscribe_message,
}

abbrev pub sockets : Gateway → String → List String
sockets g user = get_or (lookup user g.user_sockets) []

-- Is the socket recorded as the user's?
abbrev pub belongs : Gateway → String → String → Bool
belongs g client user = elim (lookup client g.socket_user) [
  | none ↦ false
  | some owner ↦ str_eq owner user
]

-- The two maps agree, the clients with channels are those with a user, and no user's id is empty.
pub record Sound (g : Gateway) : Type 0 where
  pub agree : (client user : String) → is_in client (sockets g user) ≡ belongs g client user
  pub present : (client : String) → has client g.subscriptions ≡ has client g.socket_user
  pub named :
      (client user : String) → lookup client g.socket_user ≡ some user → str_eq user "" ≡ false

is_in-append :
    (x : String) (xs : List String) (y : String)
    → is_in y (xs ++ x ∷ []) ≡ (str_eq x y || is_in y xs)
is_in-append x [] y = refl
is_in-append x (z ∷ xs) y = ground (arith, is_in-append x xs y)

is_in-add :
    (x : String) (xs : List String) (y : String) → is_in y (add x xs) ≡ (str_eq x y || is_in y xs)
is_in-add x xs y = ground (arith, is_in-append x xs y, eq_iff x y)

pub is_in-remove :
    (x : String) (xs : List String) (y : String)
    → is_in y (remove x xs) ≡ (not (str_eq x y) && is_in y xs)
is_in-remove x [] y = ground arith
is_in-remove x (z ∷ xs) y =
    ground (arith, is_in-remove x xs y, eq_iff x y, eq_iff z y, eq_iff z x, eq_iff x z)

join-agree :
    (client user c u : String) (g : Gateway)
    → Sound g
    → lookup client g.socket_user ≡ none
    → is_in c (sockets (join client user g) u) ≡ belongs (join client user g) c u
unfolding join
join-agree client user c u g sound fresh = ground (
  arith,
  lookup-insert user u (add client (sockets g user)) g.user_sockets,
  lookup-insert client c user g.socket_user,
  is_in-add client (sockets g user) c,
  sound.agree c u,
  sound.agree c user,
  eq_iff user u,
  eq_iff client c,
  fresh,
)

join-Sound :
    (client user : String) (g : Gateway)
    → Sound g
    → lookup client g.socket_user ≡ none
    → str_eq user "" ≡ false
    → Sound (join client user g)
unfolding join
join-Sound client user g sound fresh full = record {
  agree = λ c u. join-agree client user c u g sound fresh;
  present = λ c. ground (
    arith,
    lookup-insert client c [] g.subscriptions,
    lookup-insert client c user g.socket_user,
    sound.present c,
  );
  named = λ c u held.
      ground (arith, lookup-insert client c user g.socket_user, sound.named c u, held, full);
}

truthy-full : (o : Option String) (s : String) → truthy o ≡ some s → str_eq s "" ≡ false
truthy-full none s e = cc
truthy-full (some t) s e = elim (Bool-cases (str_eq t "")) [
  | inl blank ↦ ground arith
  | inr full ↦
      let same : t ≡ s = ground (arith, e, full) in subst (λ r. str_eq r "" ≡ false) same full
]

change-Sound :
    (change : List String → List String) (client : String) (g : Gateway)
    → Sound g
    → Sound (change_channels change client g)
unfolding change_channels
change-Sound change client g sound = elim (Option-cases (lookup client g.subscriptions)) [
  | inl missing ↦ rw (missing, change_channels) sound
  | inr (xs, found) ↦
      rw (found, change_channels)
        record {
          agree = sound.agree;
          present = λ c. ground (
            arith,
            lookup-insert client c (change xs) g.subscriptions,
            sound.present c,
            found,
            eq_iff client c,
          );
          named = sound.named;
        }
]

pub connect-Sound :
    (auth : Auth) (find : String → Option User) (client : String) (token : Option String)
    (g : Gateway)
    → Sound g
    → lookup client g.socket_user ≡ none
    → Sound (handle_connection auth find client token g).0
unfolding handle_connection
connect-Sound auth find client token g sound fresh = elim (Option-cases (truthy token)) [
  | inl missing ↦ rw (missing, handle_connection) sound
  | inr (t, given) ↦ elim (Option-cases (truthy (user_id_of_token auth find t))) [
    | inl bad ↦ rw (given, bad, handle_connection) sound
    | inr (user, good) ↦
        rw (given, good, handle_connection)
          (join-Sound client user g sound fresh
            (truthy-full (user_id_of_token auth find t) user good))
  ]
]

pub subscribe-Sound :
    (auth : Auth) (find : String → Option User) (client : String) (h : Handshake) (channel : String)
    (g : Gateway)
    → Sound g
    → Sound (subscribe_message auth find client h channel g).0
unfolding subscribe_message handle_subscribe
subscribe-Sound auth find client h channel g sound = elim (socket_cases auth find h) [
  | inl (message, bad) ↦ rw (bad, subscribe_message) sound
  | inr (user, admitted) ↦ elim (Bool-cases (str_eq channel "")) [
    | inl blank ↦ rw (admitted, subscribe_message, handle_subscribe, blank) sound
    | inr named ↦ elim (Bool-cases (can_subscribe_to_channel user channel)) [
      | inr refuses ↦ rw (admitted, subscribe_message, handle_subscribe, named, refuses) sound
      | inl may ↦
          rw (admitted, subscribe_message, handle_subscribe, named, may)
            (change-Sound (add channel) client g sound)
    ]
  ]
]

pub unsubscribe-Sound :
    (auth : Auth) (find : String → Option User) (client : String) (h : Handshake) (channel : String)
    (g : Gateway)
    → Sound g
    → Sound (unsubscribe_message auth find client h channel g).0
unfolding unsubscribe_message handle_unsubscribe
unsubscribe-Sound auth find client h channel g sound = elim (socket_cases auth find h) [
  | inl (message, bad) ↦ rw (bad, unsubscribe_message) sound
  | inr (user, admitted) ↦ elim (Bool-cases (str_eq channel "")) [
    | inl blank ↦ rw (admitted, unsubscribe_message, handle_unsubscribe, blank) sound
    | inr named ↦
        rw (admitted, unsubscribe_message, handle_unsubscribe, named)
          (change-Sound (remove channel) client g sound)
  ]
]
