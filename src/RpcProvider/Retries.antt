-- ===== src/RpcProvider/Retries.antt =====
-- executeWithFallback over getProvider, with an action that fails for a while.
use native.Mathlib.Nat
use mathlib.Core.Path.{subst}
use alive_human.Base.{
  ℕ, zero, suc, ◌+◌, ◌*◌, ◌<◌, ◌≡◌, sym, ◌∙◌, Bool, true, String, some, arith, length, next_index,
}
use alive_human.RpcProvider.{Network, url_at}
use alive_human.RpcProvider.Service.{
  switch_next, Reply, done, rpc_error, value, attempt, execute_with_fallback,
}
use alive_human.RpcProvider.Switches.{IsSound, switch_next-Switched}
use alive_human.RpcProvider.Termination.{settled, connect-finds}

module _ {ℓ} {A : Type ℓ} (reach : ℕ → ℕ → String → Bool) (now : ℕ → ℕ → ℕ) (g : ℕ)
    (action : ℕ → String → Reply A) (a : A) where
  attempt-works :
      (fuel t d left : ℕ) (net : Network)
      → IsSound net
      → g < length net.urls
      → ((n m : ℕ) → reach n m (url_at net.urls g) ≡ true)
      → length net.urls * 2 + 1 < fuel
      → d < left
      → ((i : ℕ) (u : String) → i < d → (m : String) × (action (t + i) u ≡ rpc_error m))
      → ((u : String) → action (t + d) u ≡ done a)
      → (after : Network) × (attempt
            (λ n m u. settled (reach n m u))
            now
            (suc fuel)
            action
            t
            left
            net
          ≡ some (after, value a))
  unfolding attempt
  attempt-works fuel t d zero net sound small alive room more early works = absurd (omega arith)
  attempt-works fuel t zero (suc left) net sound small alive room more early works =
      let found =
        connect-finds (reach (t * 2)) (now (t * 2)) g fuel 0 net sound small (alive (t * 2)) room in
      let worked = works (url_at net.urls found.after.current) in
      (
        found.after,
        ground (
          arith,
          found.result,
          subst (λ k. action k (url_at net.urls found.after.current) ≡ done a)
              (native.Mathlib.Nat.add-zero t) worked,
        ),
      )
  attempt-works fuel t (suc d) (suc zero) net sound small alive room more early works =
      absurd (omega arith)
  attempt-works fuel t (suc d) (suc (suc left)) net sound small alive room more early works =
      let found =
        connect-finds (reach (t * 2)) (now (t * 2)) g fuel 0 net sound small (alive (t * 2)) room in
      let clock = now (t * 2 + 1) in
      let inside = subst (λ us. g < length us) (sym found.same) small in
      let moved = switch_next-Switched g found.after (clock 0) found.sound inside in
      let next = switch_next found.after (clock 0) in
      let urls = sym (moved.same ∙ found.same) in
      let other =
        connect-finds (reach (t * 2 + 1)) clock g fuel 0 next moved.sound
          (subst (λ us. g < length us) urls small)
          (subst (λ us. (m : ℕ) → reach (t * 2 + 1) m (url_at us g) ≡ true) urls
            (alive (t * 2 + 1)))
          (subst (λ us. length us * 2 + 1 < fuel) urls room) in
      let all = urls ∙ sym other.same in
      let (m, failed) = early 0 (url_at net.urls found.after.current) (omega arith) in
      let failed_now =
        subst (λ k. action k (url_at net.urls found.after.current) ≡ rpc_error m)
          (native.Mathlib.Nat.add-zero t) failed in
      let (after, rest) =
        attempt-works fuel (suc t) d (suc left) other.after other.sound
          (subst (λ us. g < length us) all small)
          (subst (λ us. (n m : ℕ) → reach n m (url_at us g) ≡ true) all alive)
          (subst (λ us. length us * 2 + 1 < fuel) all room) (omega arith)
          (λ i u less.
            subst (λ k. (m : String) × (action k u ≡ rpc_error m)) (next_index t i)
              (early (suc i) u (omega arith)))
          (λ u. subst (λ k. action k u ≡ done a) (next_index t d) (works u)) in
      (after, ground (arith, found.result, failed_now, other.result, rest))

-- Let no attempt to connect stall: each connects or throws. In a sound network in which some address
-- answers whenever it is tried, an action that fails d times
-- with an error of the endpoint, d being less than the number n of addresses, and then works, gives its
-- value from `execute_with_fallback`, when each call for a provider may make 2n + 3 calls.
pub execute_with_fallback-works {ℓ} :
    {A : Type ℓ} (reach : ℕ → ℕ → String → Bool) (now : ℕ → ℕ → ℕ) (g : ℕ)
    (action : ℕ → String → Reply A) (a : A) (fuel d : ℕ) (net : Network)
    → IsSound net
    → g < length net.urls
    → ((n m : ℕ) → reach n m (url_at net.urls g) ≡ true)
    → length net.urls * 2 + 2 < fuel
    → d < length net.urls
    → ((i : ℕ) (u : String) → i < d → (m : String) × (action i u ≡ rpc_error m))
    → ((u : String) → action d u ≡ done a)
    → (after : Network) × (execute_with_fallback
          (λ n m u. settled (reach n m u))
          now
          fuel
          action
          net
        ≡ some (after, value a))
unfolding execute_with_fallback
execute_with_fallback-works reach now g action a zero d net sound small alive room more early
      works =
    absurd (omega arith)
execute_with_fallback-works reach now g action a (suc fuel) d net sound small alive room more early
      works =
    attempt-works reach now g action a fuel 0 d (length net.urls) net sound small alive
      (omega arith) more
      (λ i u less.
        subst (λ k. (m : String) × (action k u ≡ rpc_error m)) (sym (native.Mathlib.Nat.zero-add i))
          (early i u less))
      (λ u. subst (λ k. action k u ≡ done a) (sym (native.Mathlib.Nat.zero-add d)) (works u))
