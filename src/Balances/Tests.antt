-- ===== src/Balances/Tests.antt =====
-- A balance that is asked for twice, a handler that fails, and a cache that is emptied.
use alive_human.Base.{ℕ, ◌≡◌, refl, true, false, String, none, some, arith}
use alive_human.Base.Dict.{lookup, insert}
use alive_human.Base.Texts.{to_upper, char_of, before_underscore, after_underscore}
use alive_human.CircuitBreaker.{
  create_map, get_breaker, execute, execute_service, is_circuit_closed, record_success,
  record_failure, Settled, resolved, rejected, create as create_breaker,
}
use alive_human.RateLimiter.{
  create as create_limiter, wait_for_availability, get_resource_limit, queue_request,
}
use alive_human.Balances.{
  BalanceService, Chains, Moment, create, get_from_cache, cached, set_cache, pass_limiter, guarded,
  fetch, look_up, get_balance, get_token_symbol, no_options,
}
use alive_human.Balances.Cache.{get_balance-again}
use alive_human.Balances.Fallback.{get_balance-failure_stays}

abbrev answering : Settled String → Chains
answering balance = record {
  get_handler = λ name.
      some (record {
        get_balance = some (λ address. balance);
        get_decimals = none;
        get_symbol = none;
      });
  token_decimals = λ token. none;
}

abbrev up : Chains
up = answering (resolved "1.5")

abbrev down : Chains
down = answering (rejected "timeout")

abbrev service : BalanceService
service = create none none (create_map no_options) false

abbrev moment : ℕ → Moment
moment now = record { clock = λ n. now; id = 0; resumes = false; is_test = false }

called_first : (get_balance up "0x1" "eth" (moment 1000) service).2 ≡ true
unfolding get_balance look_up create to_upper char_of cached get_from_cache set_cache pass_limiter
    guarded fetch lookup insert create_map get_breaker execute execute_service is_circuit_closed
    record_success create_limiter wait_for_availability get_resource_limit queue_request
    create_breaker
called_first = refl

first_balance : (get_balance up "0x1" "eth" (moment 1000) service).1 ≡ "1.5"
unfolding get_balance look_up create to_upper char_of cached get_from_cache set_cache pass_limiter
    guarded fetch lookup insert create_map get_breaker execute execute_service is_circuit_closed
    record_success create_limiter wait_for_availability get_resource_limit queue_request
    create_breaker
first_balance = refl

get_balance-again_example :
    get_balance down "0x1" "eth" (moment 31000) (get_balance up "0x1" "eth" (moment 1000) service).0
    ≡ (
      (get_balance up "0x1" "eth" (moment 1000) service).0,
      (get_balance up "0x1" "eth" (moment 1000) service).1,
      false,
    )
unfolding create
get_balance-again_example =
    get_balance-again up down "0x1" "eth" (moment 1000) (moment 31000) service refl called_first
      (rw first_balance refl) (omega arith)

called_down : (get_balance down "0x1" "eth" (moment 1000) service).2 ≡ true
unfolding get_balance look_up create to_upper char_of cached get_from_cache set_cache pass_limiter
    guarded fetch lookup insert create_map get_breaker execute execute_service is_circuit_closed
    record_failure create_limiter wait_for_availability get_resource_limit queue_request
    create_breaker
called_down = refl

get_balance-failure_stays_example :
    ((get_balance down "0x1" "eth" (moment 1000) service).1 ≡ "0.0")
    × (get_balance up "0x1" "eth"
          (moment 31000)
          (get_balance down "0x1" "eth" (moment 1000) service).0
        ≡ ((get_balance down "0x1" "eth" (moment 1000) service).0, "0.0", false))
unfolding create fetch
get_balance-failure_stays_example =
    get_balance-failure_stays down up "0x1" "eth" "timeout" (moment 1000) (moment 31000) service
      refl called_down refl (omega arith)

symbol : get_token_symbol up "ETH_USDT" ≡ "USDT"
unfolding get_token_symbol before_underscore after_underscore
symbol = refl
