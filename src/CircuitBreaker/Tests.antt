-- ===== src/CircuitBreaker/Tests.antt =====
-- Runs of a breaker, and the theorems at concrete inputs.
use alive_human.Base.{
  ◌≡◌, refl, Bool, true, false, String, List, [], ◌∷◌, Option, none, some, arith,
}
use alive_human.Base.Dict.{lookup}
use alive_human.CircuitBreaker.{
  Options, State, PartialOptions, CircuitBreaker, CircuitBreakerMap, Settled, resolved, rejected,
  Outcome, circuit_is_open, spread, default_options, initial_state, create, is_circuit_closed,
  record_success, record_failure, execute, execute_service, as_partial,
}
use alive_human.CircuitBreaker.Machine.{
  Event, check, failure, IsValid, closed, answers, state_step, phase_answers, answers-phase_answers,
}
use alive_human.CircuitBreaker.Opening.{fail_all, execute-fail_all}
use alive_human.CircuitBreaker.Isolation.{execute_service_new}

abbrev two_failures : PartialOptions
two_failures = record {
  failure_threshold = some 2;
  reset_timeout = none;
  failure_timeout = some 1000;
}

abbrev options : Options
options = spread default_options two_failures

-- Trips at the second failure, refuses at 1999 ms, lets an attempt through 30 s after the failure.
abbrev story : List Event
story =
    check 0
    ∷ failure 1000
    ∷ check 1500
    ∷ failure 1600
    ∷ check 1999
    ∷ check 31599
    ∷ check 31600
    ∷ failure 31700
    ∷ check 31701
    ∷ []

answers-story :
    answers options initial_state story ≡ true ∷ true ∷ false ∷ false ∷ true ∷ false ∷ []
unfolding answers state_step is_circuit_closed record_success record_failure
answers-story = refl

answers-phase_answers_example :
    answers options initial_state story ≡ phase_answers options (closed 0 0) story
answers-phase_answers_example = answers-phase_answers options story

abbrev rpc : CircuitBreaker
rpc = record { name = "rpc"; options = options; state = initial_state }

abbrev no_fallback : Option (Option String → Settled Bool)
no_fallback = none

tripped_rpc : CircuitBreaker
tripped_rpc = fail_all "down" no_fallback rpc ((0, 10) ∷ (15, 20) ∷ [])

execute-fail_all_example :
    execute tripped_rpc 30 40 (resolved true) no_fallback ≡ (tripped_rpc, circuit_is_open, false)
unfolding tripped_rpc
execute-fail_all_example =
    execute-fail_all rpc 0 10 30 40 ((15, 20) ∷ []) "down" (resolved true) no_fallback refl refl
      (omega arith, tt) refl (omega arith)

abbrev open_state : State
open_state = record { failures = 2; last_failure = 20; circuit_open = true; circuit_open_time = 20 }

abbrev open_rpc : CircuitBreaker
open_rpc = record rpc { state = open_state }

open_state-IsValid : IsValid options open_state
open_state-IsValid = ground arith

abbrev probed : Settled Bool → CircuitBreaker × Outcome Bool × Bool
probed fn = execute open_rpc 30020 30030 fn no_fallback

abbrev services : CircuitBreakerMap
services = record { breakers = ("rpc", open_rpc) ∷ ("mail", rpc) ∷ []; defaults = default_options }

abbrev after_rpc : CircuitBreakerMap × Outcome Bool × Bool
after_rpc = execute_service services "rpc" two_failures 30020 30030 (rejected "down") no_fallback

execute_service_new_example :
    lookup "swap"
      (execute_service services "swap" two_failures 5 6 (rejected "down") no_fallback).0.breakers
    ≡ some
        (execute
          (create "swap" (as_partial (spread services.defaults two_failures)))
          5
          6
          (rejected "down")
          no_fallback).0
unfolding lookup
execute_service_new_example =
    execute_service_new services "swap" two_failures 5 6 (rejected "down") no_fallback refl
