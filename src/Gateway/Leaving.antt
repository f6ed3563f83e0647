-- ===== src/Gateway/Leaving.antt =====
-- A client that leaves, and the two maps between sockets and users.
use text.Mathlib.TextEquality.{eq_iff}
use alive_human.Base.{
  truthy, false, ◌≡◌, inl, inr, refl, String, List, [], ◌∷◌, Option, none, some, arith, get_or,
  str_eq, Option-cases, if◌then◌else◌,
}
use alive_human.Base.Dict.{Dict, lookup, lookup-insert, lookup-delete}
use alive_human.Base.Texts.{is_in}
use alive_human.Gateway.{Gateway, remove, leave_user, handle_disconnect}
use alive_human.Gateway.Presence.{Sound, sockets, belongs, is_in-remove}

sockets_left :
    (client user u : String) (m : Dict (List String)) (cs rest : List String)
    → lookup user m ≡ some cs
    → remove client cs ≡ rest
    → get_or (lookup u (leave_user client user m)) []
      ≡ (if str_eq user u then rest else get_or (lookup u m) [])
unfolding leave_user
sockets_left client user u m cs [] found left =
    ground (arith, found, left, lookup-delete user u m, eq_iff user u)
sockets_left client user u m cs (c ∷ rest) found left =
    ground (arith, found, left, lookup-insert user u (c ∷ rest) m, eq_iff user u)

-- The sockets of each user after one left.
sockets-leave_user :
    (client user u : String) (m : Dict (List String))
    → get_or (lookup u (leave_user client user m)) [] ≡ (
        if str_eq user u then remove client (get_or (lookup user m) []) else get_or (lookup u m) [])
unfolding leave_user
sockets-leave_user client user u m = elim (Option-cases (lookup user m)) [
  | inl missing ↦ ground (arith, missing, eq_iff user u)
  | inr (cs, found) ↦ rw found (sockets_left client user u m cs (remove client cs) found refl)
]

pub truthy-some :
    (o : Option String) (s : String) → o ≡ some s → str_eq s "" ≡ false → truthy o ≡ some s
truthy-some none s e full = cc
truthy-some (some t) s e full = ground (arith, e, full)

disconnect-agree :
    (client user c u : String) (g : Gateway)
    → Sound g
    → lookup client g.socket_user ≡ some user
    → is_in c (sockets (handle_disconnect client g) u) ≡ belongs (handle_disconnect client g) c u
unfolding handle_disconnect
disconnect-agree client user c u g sound known = ground (
  arith,
  truthy-some (lookup client g.socket_user) user known (sound.named client user known),
  sockets-leave_user client user u g.user_sockets,
  is_in-remove client (sockets g user) c,
  lookup-delete client c g.socket_user,
  sound.agree c u,
  sound.agree c user,
  known,
  eq_iff user u,
  eq_iff client c,
)

pub disconnect-Sound :
    (client : String) (g : Gateway) → Sound g → Sound (handle_disconnect client g)
unfolding handle_disconnect
disconnect-Sound client g sound = elim (Option-cases (lookup client g.socket_user)) [
  | inl missing ↦
      rw (missing, handle_disconnect)
        record {
          agree = sound.agree;
          present = λ c. ground (
            arith,
            lookup-delete client c g.subscriptions,
            sound.present c,
            missing,
            eq_iff client c,
          );
          named = sound.named;
        }
  | inr (user, known) ↦ record {
    agree = λ c u. disconnect-agree client user c u g sound known;
    present = λ c. ground (
      arith,
      truthy-some (lookup client g.socket_user) user known (sound.named client user known),
      lookup-delete client c g.subscriptions,
      lookup-delete client c g.socket_user,
      sound.present c,
      eq_iff client c,
    );
    named = λ c u held. ground (
      arith,
      truthy-some (lookup client g.socket_user) user known (sound.named client user known),
      lookup-delete client c g.socket_user,
      sound.named c u,
      held,
    );
  }
]
