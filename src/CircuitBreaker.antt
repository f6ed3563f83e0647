-- ===== src/CircuitBreaker.antt =====
-- packages/backend/src/blockchain/hotwallet/utils/circuitBreaker.ts: one breaker, and the map of
-- breakers by service name. Times are milliseconds, read from the clock by each operation and given
-- here as an argument; a difference of times is written with its terms on both sides of the test.
-- Service names are none of the inherited properties of a JavaScript object.
pub mod Machine
pub mod Opening
pub mod Isolation
mod Tests
use alive_human.Base.{
  ℕ, ◌+◌, ◌≡◌, Bool, true, false, ◌&&◌, String, List, [], ◌∷◌, Option, none, some, ltb, leb, get_or,
  if◌then◌else◌,
}
use alive_human.Base.Dict.{Dict, lookup, insert}

pub record Options : Type 0 where
  pub failure_threshold : ℕ
  pub reset_timeout : ℕ
  pub failure_timeout : ℕ

-- `Partial<CircuitBreakerOptions>`: a key that is absent is `none`.
pub record PartialOptions : Type 0 where
  pub failure_threshold : Option ℕ
  pub reset_timeout : Option ℕ
  pub failure_timeout : Option ℕ

pub record State : Type 0 where
  pub failures : ℕ
  pub last_failure : ℕ
  pub circuit_open : Bool
  pub circuit_open_time : ℕ

pub record CircuitBreaker : Type 0 where
  pub name : String
  pub options : Options
  pub state : State

-- `{ ...base, ...given }`
abbrev pub spread : Options → PartialOptions → Options
spread base given = record {
  failure_threshold = get_or given.failure_threshold base.failure_threshold;
  reset_timeout = get_or given.reset_timeout base.reset_timeout;
  failure_timeout = get_or given.failure_timeout base.failure_timeout;
}

abbrev pub default_options : Options
default_options = record { failure_threshold = 5; reset_timeout = 30000; failure_timeout = 60000 }

abbrev pub initial_state : State
initial_state = record {
  failures = 0;
  last_failure = 0;
  circuit_open = false;
  circuit_open_time = 0;
}

-- The constructor.
unfoldable pub create : String → PartialOptions → CircuitBreaker
create name given = record {
  name = name;
  options = spread default_options given;
  state = initial_state;
}

-- `isCircuitClosed`, which also moves the state.
unfoldable pub is_circuit_closed : Options → ℕ → State → State × Bool
is_circuit_closed o now s =
    if s.circuit_open
    then (if leb (s.circuit_open_time + o.reset_timeout) now
        then (record s { circuit_open = false }, true)
        else (s, false))
    else (if ltb 0 s.failures && ltb (s.last_failure + o.failure_timeout) now
        then (record s { failures = 0 }, true)
        else (s, true))

unfoldable pub record_success : State → State
record_success s = record s { failures = 0; circuit_open = false }

unfoldable pub record_failure : Options → ℕ → State → State
record_failure o now s =
    let counted : State = record s { failures = s.failures + 1; last_failure = now } in
    if leb o.failure_threshold counted.failures
    then record counted { circuit_open = true; circuit_open_time = now }
    else counted

-- How a promise settles.
pub data Settled (T : Type 0) : Type 0 where
  resolved : T → Settled T
  rejected : String → Settled T

-- What `execute` settles with: a value, the error of a call, or the error that the circuit is open.
pub data Outcome (T : Type 0) : Type 0 where
  value : T → Outcome T
  failed : String → Outcome T
  circuit_is_open : Outcome T

abbrev pub settle : {T : Type 0} → Settled T → Outcome T
settle (resolved v) = value v
settle (rejected e) = failed e

-- `execute`: the clock reads `now` at the check and `later` when a failure is recorded; `fn` is what
-- the protected call settles with, if it is made. A fallback takes the error, if there is one. The
-- last part of the result says whether `fn` was called.
unfoldable pub execute :
    {T : Type 0}
    → CircuitBreaker
    → ℕ
    → ℕ
    → Settled T
    → Option (Option String → Settled T)
    → CircuitBreaker × Outcome T × Bool
execute b now later fn fallback =
    let (checked, closed) = is_circuit_closed b.options now b.state in
    if closed
    then elim fn [
      | resolved v ↦ (record b { state = record_success checked }, value v, true)
      | rejected e ↦ (
        record b { state = record_failure b.options later checked },
        elim fallback [ none ↦ failed e | some f ↦ settle (f (some e)) ],
        true,
      )
    ]
    else (
      record b { state = checked },
      elim fallback [ none ↦ circuit_is_open | some f ↦ settle (f none) ],
      false,
    )

pub record CircuitBreakerMap : Type 0 where
  pub breakers : Dict CircuitBreaker
  pub defaults : Options

-- The map's constructor.
unfoldable pub create_map : PartialOptions → CircuitBreakerMap
create_map given = record { breakers = []; defaults = spread default_options given }

abbrev as_partial : Options → PartialOptions
as_partial o = record {
  failure_threshold = some o.failure_threshold;
  reset_timeout = some o.reset_timeout;
  failure_timeout = some o.failure_timeout;
}

unfoldable pub get_breaker :
    CircuitBreakerMap → String → PartialOptions → CircuitBreakerMap × CircuitBreaker
unfolding create
get_breaker m service given = elim (lookup service m.breakers) [
  | none ↦
      let made = create service (as_partial (spread m.defaults given)) in
      (record m { breakers = insert service made m.breakers }, made)
  | some b ↦ (m, b)
]

-- `CircuitBreakerMap.execute`: the breaker is shared with the map, which sees its new state.
unfoldable pub execute_service :
    {T : Type 0}
    → CircuitBreakerMap
    → String
    → PartialOptions
    → ℕ
    → ℕ
    → Settled T
    → Option (Option String → Settled T)
    → CircuitBreakerMap × Outcome T × Bool
execute_service m service given now later fn fallback =
    let (m', b) = get_breaker m service given in
    let (b', outcome, called) = execute b now later fn fallback in
    (record m' { breakers = insert service b' m'.breakers }, outcome, called)
