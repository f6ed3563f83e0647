-- ===== src/CircuitBreaker/Isolation.antt =====
-- The map of breakers, one for each service: a call for one service, and the others.
use alive_human.Base.{ℕ, ◌≡◌, false, String, Option, none, some, str_eq, arith}
use alive_human.Base.Dict.{lookup, insert, lookup-insert_self, lookup-insert_ne}
use alive_human.CircuitBreaker.{
  PartialOptions, CircuitBreaker, Settled, spread, CircuitBreakerMap, get_breaker, execute,
  execute_service, create, as_partial,
}

-- A call for one service leaves the breaker of every other service as it was.
pub execute_service_other :
    {T : Type 0} (m : CircuitBreakerMap) (service other : String) (given : PartialOptions)
    (now later : ℕ) (fn : Settled T) (fallback : Option (Option String → Settled T))
    → str_eq service other ≡ false
    → lookup other (execute_service m service given now later fn fallback).0.breakers
      ≡ lookup other m.breakers
unfolding execute_service get_breaker
execute_service_other m service other given now later fn fallback distinct = ground (
  arith,
  lookup-insert_ne service other (execute (get_breaker m service given).1 now later fn fallback).0
      (get_breaker m service given).0.breakers distinct,
  lookup-insert_ne service other (create service (as_partial (spread m.defaults given))) m.breakers
      distinct,
)

-- For a service with a breaker the call runs on that breaker, under the options that it was made
-- with, whatever options the call gives; the map then holds the breaker's new state.
pub execute_service_known :
    {T : Type 0} (m : CircuitBreakerMap) (service : String) (given : PartialOptions) (now later : ℕ)
    (fn : Settled T) (fallback : Option (Option String → Settled T)) (b : CircuitBreaker)
    → lookup service m.breakers ≡ some b
    → ((execute_service m service given now later fn fallback).1
        ≡ (execute b now later fn fallback).1)
      × (lookup service (execute_service m service given now later fn fallback).0.breakers
          ≡ some (execute b now later fn fallback).0)
      × ((execute b now later fn fallback).0.options ≡ b.options)
unfolding execute_service get_breaker execute
execute_service_known m service given now later fn fallback b e = (
  ground arith,
  ground (arith, lookup-insert_self service (execute b now later fn fallback).0 m.breakers),
  ground arith,
)

-- For a service with none, a breaker is made from the map's defaults and the options given.
pub execute_service_new :
    {T : Type 0} (m : CircuitBreakerMap) (service : String) (given : PartialOptions) (now later : ℕ)
    (fn : Settled T) (fallback : Option (Option String → Settled T))
    → lookup service m.breakers ≡ none
    → lookup service (execute_service m service given now later fn fallback).0.breakers
      ≡ some
          (execute (create service (as_partial (spread m.defaults given))) now later fn fallback).0
unfolding execute_service get_breaker
execute_service_new m service given now later fn fallback e =
    let made = create service (as_partial (spread m.defaults given)) in
    ground (
      arith,
      lookup-insert_self service (execute made now later fn fallback).0
          (insert service made m.breakers),
    )
