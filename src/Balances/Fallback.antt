-- ===== src/Balances/Fallback.antt =====
-- The fallback's balance in the cache.
use alive_human.Base.{
  ◌+◌, ◌≤◌, true, false, ◌||◌, ◌≡◌, refl, String, arith, str_eq, Bool-cases, inl, inr, ◌∙◌, ap,
  Option-cases,
}
use alive_human.Base.Texts.{str_append, to_upper}
use alive_human.CircuitBreaker.{
  CircuitBreakerMap, rejected, execute, execute_service, get_breaker, is_circuit_closed,
}
use alive_human.Balances.{
  BalanceService, Chains, Moment, join_key, cached, pass_limiter, guarded, look_up, get_balance,
  fetch, no_options, unknown_balance,
}
use alive_human.Balances.Cache.{get_balance-again}

guarded-rejected :
    (breakers : CircuitBreakerMap) (service e : String) (at : Moment)
    → (guarded breakers service (rejected e) at).1 ≡ unknown_balance
unfolding guarded execute_service execute
guarded-rejected breakers service e at =
    let b = (get_breaker breakers service no_options).1 in
    elim (Bool-cases (is_circuit_closed b.options (at.clock 2) b.state).1) [
      | inl closed ↦ ground (arith, closed)
      | inr open_now ↦ ground (arith, open_now)
    ]

look_up-rejected :
    (chains : Chains) (address network e : String) (at : Moment) (s : BalanceService)
    → fetch chains (to_upper network) address ≡ rejected e
    → (get_balance chains address network at s).2 ≡ true
    → (get_balance chains address network at s).1 ≡ unknown_balance
unfolding get_balance look_up
look_up-rejected chains address network e at s failing called =
    elim (Bool-cases (str_eq address "" || str_eq network "")) [
      | inl blank ↦ ground (arith, blank)
      | inr given ↦
          let name = to_upper network in
          elim (Option-cases (cached s.config (at.clock 0) (join_key name address) s.native).1) [
            | inr (balance, hit) ↦ ground (arith, given, hit)
            | inl miss ↦ elim (Bool-cases (pass_limiter s.limiter name "getBalance" at).1) [
              | inr stopped ↦ ground (arith, given, miss, stopped)
              | inl goes ↦ ground (
                arith,
                given,
                miss,
                goes,
                failing,
                guarded-rejected s.breakers (str_append name "_getBalance") e at,
              )
            ]
          ]
    ]

-- Where the cache is enabled: if `get_balance` called a chain's handler and that failed, then the balance
-- is "0.0", and it is the answer too when one asks again within the time to live of the end of that call,
-- without a call, though the handlers may have recovered.
pub get_balance-failure_stays :
    (chains others : Chains) (address network e : String) (at later : Moment) (s : BalanceService)
    → s.config.cache_enabled ≡ true
    → (get_balance chains address network at s).2 ≡ true
    → fetch chains (to_upper network) address ≡ rejected e
    → later.clock 0 ≤ at.clock 4 + s.config.cache_ttl
    → ((get_balance chains address network at s).1 ≡ unknown_balance)
      × (get_balance others address network later (get_balance chains address network at s).0
          ≡ ((get_balance chains address network at s).0, unknown_balance, false))
get_balance-failure_stays chains others address network e at later s enabled called failing soon =
    let first = look_up-rejected chains address network e at s failing called in
    (
      first,
      get_balance-again chains others address network at later s enabled called (rw first refl) soon
          ∙ ap (λ b. ((get_balance chains address network at s).0, b, false)) first,
    )
