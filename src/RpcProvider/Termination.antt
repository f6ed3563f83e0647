-- ===== src/RpcProvider/Termination.antt =====
-- Whether the calls that getProvider and switchToNextProvider make of one another end.
use mathlib.Core.Path.{subst}
use alive_human.Base.{
  ℕ, zero, suc, ◌+◌, ◌*◌, ◌<◌, ◌≡◌, ◌≢◌, refl, sym, ap, ◌∙◌, Bool, true, false, String, none, some,
  arith, length, Bool-cases, inl, inr, ◌⊎◌, ok,
}
use alive_human.RpcProvider.{Network, flag, url_at}
use alive_human.RpcProvider.Service.{
  Connection, connects, throws, stalls, switch_next, mark_current, keep_provider, connect,
  get_provider,
}
use alive_human.RpcProvider.Switches.{
  IsSound, rank, rank-le, mark_current-IsSound, mark_current-rank, switch_next-Switched,
}

-- An attempt that does not stall.
abbrev pub settled : Bool → Connection
settled true = connects
settled false = throws

module _ (reach : ℕ → String → Bool) (now : ℕ → ℕ) where
  abbrev attempts : ℕ → String → Connection
  attempts n url = settled (reach n url)

  -- A network after a provider was found in it, and what was found.
  pub record Found (fuel tried : ℕ) (net : Network) : Type 0 where
    pub after : Network
    pub same : after.urls ≡ net.urls
    pub sound : IsSound after
    pub result :
        connect (λ n u. settled (reach n u)) now fuel tried net
        ≡ some (after, url_at net.urls after.current)

  pub connect-step :
      (fuel tried : ℕ) (net : Network)
      → IsSound net
      → Found (suc fuel) tried net
        ⊎ ((reach tried (url_at net.urls net.current) ≡ false)
            × (connect attempts now (suc fuel) tried net
                ≡ connect attempts now fuel
                    (suc tried)
                    (switch_next (mark_current net) (now tried))))
  unfolding connect
  connect-step fuel tried net sound = elim (Bool-cases (flag net.cached net.current)) [
    | inl there ↦ inl (record { after = net; same = refl; sound = sound; result = ground arith })
    | inr missing ↦ elim (Bool-cases (reach tried (url_at net.urls net.current))) [
      | inl answers ↦
          inl (record {
            after = keep_provider net;
            same = refl;
            sound = sound;
            result = ground arith;
          })
      | inr silent ↦ inr (silent, ground arith)
    ]
  ]

  -- After a failure the search goes on from a switched network.
  after_switch :
      (fuel tried : ℕ) (net : Network)
      → connect attempts now (suc fuel) tried net
        ≡ connect attempts now fuel (suc tried) (switch_next (mark_current net) (now tried))
      → (switch_next (mark_current net) (now tried)).urls ≡ net.urls
      → Found fuel (suc tried) (switch_next (mark_current net) (now tried))
      → Found (suc fuel) tried net
  after_switch fuel tried net step urls found = record {
    after = found.after;
    same = found.same ∙ urls;
    sound = found.sound;
    result =
        step ∙ found.result ∙ ap (λ us. some (found.after, url_at us found.after.current)) urls;
  }

  -- The address that failed is not one that answers.
  silent_not :
      (g : ℕ) (url : ℕ → String) (i tried : ℕ)
      → reach tried (url i) ≡ false
      → reach tried (url g) ≡ true
      → i ≢ g
  silent_not g url i tried silent answers = cc

  module _ (g : ℕ) where
    connect-ranked :
        (fuel tried : ℕ) (net : Network)
        → IsSound net
        → g < length net.urls
        → ((t : ℕ) → reach t (url_at net.urls g) ≡ true)
        → flag net.healthy net.current ≡ true
        → rank g net < fuel
        → Found fuel tried net
    connect-ranked zero tried net sound small alive on room = absurd (omega arith)
    connect-ranked (suc fuel) tried net sound small alive on room =
        elim (connect-step fuel tried net sound) [
          | inl found ↦ found
          | inr (silent, step) ↦
              let marked = mark_current net in
              let next = switch_next marked (now tried) in
              let moved =
                switch_next-Switched g marked (now tried) (mark_current-IsSound net sound) small in
              let again = alive tried in
              after_switch fuel tried net step moved.same (
                connect-ranked fuel (suc tried) next moved.sound
                  (subst (λ us. g < length us) (sym moved.same) small)
                  (subst (λ us. (t : ℕ) → reach t (url_at us g) ≡ true) (sym moved.same) alive)
                  moved.on
                  (omega (
                    arith,
                    moved.nearer,
                    mark_current-rank g net on
                        (silent_not g (url_at net.urls) net.current tried silent again),
                  )))
        ]

    -- The first address may be marked unhealthy; all later ones are not.
    pub connect-finds :
        (fuel tried : ℕ) (net : Network)
        → IsSound net
        → g < length net.urls
        → ((t : ℕ) → reach t (url_at net.urls g) ≡ true)
        → length net.urls * 2 + 1 < fuel
        → Found (suc fuel) tried net
    connect-finds fuel tried net sound small alive room = elim (connect-step fuel tried net sound) [
      | inl found ↦ found
      | inr (silent, step) ↦
          let marked = mark_current net in
          let next = switch_next marked (now tried) in
          let marked_sound = mark_current-IsSound net sound in
          let moved = switch_next-Switched g marked (now tried) marked_sound small in
          after_switch fuel tried net step moved.same (
            connect-ranked fuel (suc tried) next moved.sound
              (subst (λ us. g < length us) (sym moved.same) small)
              (subst (λ us. (t : ℕ) → reach t (url_at us g) ≡ true) (sym moved.same) alive) moved.on
              (omega (arith, moved.nearer, rank-le g marked marked_sound)))
    ]

-- Let no attempt to connect stall: each connects or throws. If some address g of a sound network answers
-- whenever it is tried, then `get_provider` returns a provider after at most 2n + 3 calls of itself, n
-- being the number of addresses, whether the others connect or throw and whatever is marked healthy:
-- the network that it leaves has the same addresses and is sound, and the provider is that of its
-- current address.
pub get_provider-finds :
    (reach : ℕ → String → Bool) (now : ℕ → ℕ) (g fuel : ℕ) (net : Network)
    → IsSound net
    → g < length net.urls
    → ((t : ℕ) → reach t (url_at net.urls g) ≡ true)
    → length net.urls * 2 + 2 < fuel
    → (after : Network) × (after.urls ≡ net.urls)
      × IsSound after
      × (get_provider (λ n u. settled (reach n u)) now fuel net
          ≡ some (ok (after, url_at net.urls after.current)))
unfolding get_provider
get_provider-finds reach now g zero net sound small alive room = absurd (omega arith)
get_provider-finds reach now g (suc fuel) net sound small alive room =
    let found = connect-finds reach now g fuel 0 net sound small alive (omega arith) in
    (found.after, found.same, found.sound, ground (arith, found.result))

Connection-cases : (c : Connection) → (c ≡ connects) ⊎ ((c ≡ throws) ⊎ (c ≡ stalls))
Connection-cases connects = inl refl
Connection-cases throws = inr (inl refl)
Connection-cases stalls = inr (inr refl)

-- Nothing is cached, no address answers: each call makes the next, or stalls.
connect-none :
    (reach : ℕ → String → Connection) (now : ℕ → ℕ) (fuel tried : ℕ) (net : Network)
    → IsSound net
    → ((i : ℕ) → flag net.cached i ≡ false)
    → ((t : ℕ) (u : String) → reach t u ≢ connects)
    → connect reach now fuel tried net ≡ none
unfolding connect
connect-none reach now zero tried net sound empty silent = refl
connect-none reach now (suc fuel) tried net sound empty silent =
    let marked = mark_current net in
    let next = switch_next marked (now tried) in
    let moved =
      switch_next-Switched 0 marked (now tried) (mark_current-IsSound net sound)
        (omega (arith, sound.1)) in
    let rest =
      connect-none reach now fuel (suc tried) next moved.sound
        (subst (λ c. (i : ℕ) → flag c i ≡ false) (sym moved.kept) empty) silent in
    elim (Connection-cases (reach tried (url_at net.urls net.current))) [
      | inl answers ↦ absurd (silent tried (url_at net.urls net.current) answers)
      | inr (inl fails) ↦ ground (arith, rest, empty net.current, fails)
      | inr (inr hangs) ↦ ground (arith, empty net.current, hangs)
    ]

-- If no attempt to connect to an address of a sound network ever succeeds, whether it throws or stalls, and
-- no provider is cached, `get_provider` returns nothing, however many calls of itself it may make.
pub get_provider_diverges :
    (reach : ℕ → String → Connection) (now : ℕ → ℕ) (fuel : ℕ) (net : Network)
    → IsSound net
    → ((i : ℕ) → flag net.cached i ≡ false)
    → ((t : ℕ) (u : String) → reach t u ≢ connects)
    → get_provider reach now fuel net ≡ none
unfolding get_provider
get_provider_diverges reach now fuel net sound empty silent =
    ground (arith, connect-none reach now fuel 0 net sound empty silent)
