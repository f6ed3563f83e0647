-- ===== src/CircuitBreaker/Opening.antt =====
-- When the circuit opens, what it refuses, and how it closes again.
use alive_human.Base.{
  ℕ, suc, ◌+◌, ◌≡◌, refl, ◌≤◌, ◌<◌, Bool, true, false, String, List, [], ◌∷◌, Option, none, some,
  map, arith, length, ◌⊎◌, inl, inr, ap, ◌∙◌,
}
use alive_human.CircuitBreaker.{
  Options, State, CircuitBreaker, Settled, rejected, resolved, Outcome, value, circuit_is_open,
  settle, is_circuit_closed, record_success, record_failure, execute,
}
use alive_human.CircuitBreaker.Machine.{IsValid, check, answers, state_step}

-- Calls of a function that fails, one after the other, each with the times of its check and its failure.
unfoldable pub fail_all :
    {T : Type 0}
    → String
    → Option (Option String → Settled T)
    → CircuitBreaker
    → List (ℕ × ℕ)
    → CircuitBreaker
fail_all e fallback b [] = b
fail_all {T} e fallback b ((now, later) ∷ times) =
    fail_all e fallback (execute b now later (rejected e) fallback).0 times

-- Each check comes at most the failure timeout after the failure before it.
abbrev pub Recent : Options → ℕ → List (ℕ × ℕ) → Type 0
Recent o last [] = Unit {0}
Recent o last ((now, later) ∷ times) = (now ≤ last + o.failure_timeout) × Recent o later times

-- The time of the last failure.
abbrev pub last_of : ℕ → List (ℕ × ℕ) → ℕ
last_of t [] = t
last_of t ((now, later) ∷ times) = last_of later times

abbrev tripped : Options → ℕ → State
tripped o t = record {
  failures = o.failure_threshold;
  last_failure = t;
  circuit_open = true;
  circuit_open_time = t;
}

module _ {T : Type 0} (e : String) (fallback : Option (Option String → Settled T)) where
  fails :
      (b : CircuitBreaker) (now later : ℕ)
      → b.state.circuit_open ≡ false
      → (b.state.failures ≡ 0) ⊎ (now ≤ b.state.last_failure + b.options.failure_timeout)
      → (execute b now later (rejected e) fallback).0
        ≡ record b { state = record_failure b.options later b.state }
  unfolding execute is_circuit_closed record_failure
  fails b now later shut (inl none_yet) = ground arith
  fails b now later shut (inr recent) = ground arith

  trips :
      (times : List (ℕ × ℕ)) (now later : ℕ) (b : CircuitBreaker)
      → b.state.circuit_open ≡ false
      → (b.state.failures ≡ 0) ⊎ (now ≤ b.state.last_failure + b.options.failure_timeout)
      → Recent b.options later times
      → b.state.failures + suc (length times) ≡ b.options.failure_threshold
      → fail_all e fallback b ((now, later) ∷ times)
        ≡ record b { state = tripped b.options (last_of later times) }
  unfolding fail_all record_failure
  trips [] now later b shut fresh recent many = ground (arith, fails b now later shut fresh)
  trips ((now', later') ∷ times) now later b shut fresh recent many =
      let counted : CircuitBreaker = record b {
        state = record b.state { failures = b.state.failures + 1; last_failure = later };
      } in
      let rest = trips times now' later' counted shut (inr recent.0) recent.1 (omega arith) in
      let step : (execute b now later (rejected e) fallback).0 ≡ counted =
        ground (arith, fails b now later shut fresh) in
      ap (λ c. fail_all e fallback c ((now', later') ∷ times)) step ∙ rest

-- What a refused caller gets: the fallback's result, or the error that the circuit is open.
abbrev pub refusal : {T : Type 0} → Option (Option String → Settled T) → Outcome T
refusal none = circuit_is_open
refusal (some f) = settle (f none)

-- From a closed circuit with no failure counted: after as many calls of `execute` whose function fails as
-- the threshold, each checked at most the failure timeout after the failure before it, the last of them
-- failing at `t`, every `execute` before the reset timeout has passed since `t` is refused: the
-- protected function is not called, whatever it would do, the caller gets the fallback or the
-- open-circuit error, and the state is unchanged.
pub execute-fail_all :
    {T : Type 0} (b : CircuitBreaker) (now later soon end_ : ℕ) (times : List (ℕ × ℕ)) (e : String)
    (fn : Settled T) (fallback : Option (Option String → Settled T))
    → b.state.circuit_open ≡ false
    → b.state.failures ≡ 0
    → Recent b.options later times
    → suc (length times) ≡ b.options.failure_threshold
    → soon < last_of later times + b.options.reset_timeout
    → let b' = fail_all e fallback b ((now, later) ∷ times) in
      execute b' soon end_ fn fallback ≡ (b', refusal fallback, false)
unfolding execute is_circuit_closed
execute-fail_all b now later soon end_ times e fn fallback shut none_yet recent many early =
    let open_ = trips e fallback times now later b shut (inl none_yet) recent (omega arith) in
    ground (arith, open_)

-- Once the reset timeout has passed, an open breaker calls the function. If that succeeds the
-- circuit is closed with no failure counted; if it fails the circuit is open again at once, from the
-- time of that failure, although it is a single one.
pub execute_probe :
    {T : Type 0} (b : CircuitBreaker) (now later : ℕ) (v : T) (e : String)
    (fallback : Option (Option String → Settled T))
    → IsValid b.options b.state
    → b.state.circuit_open ≡ true
    → b.state.circuit_open_time + b.options.reset_timeout ≤ now
    → ((execute b now later (resolved v) fallback).1 ≡ value v)
      × ((execute b now later (resolved v) fallback).0.state.circuit_open ≡ false)
      × ((execute b now later (resolved v) fallback).0.state.failures ≡ 0)
      × ((execute b now later (rejected e) fallback).2 ≡ true)
      × ((execute b now later (rejected e) fallback).0.state.circuit_open ≡ true)
      × ((execute b now later (rejected e) fallback).0.state.circuit_open_time ≡ later)
unfolding execute is_circuit_closed record_success record_failure
execute_probe b now later v e fallback valid open_ due = ground arith

-- The number of answers that let a caller through.
pub count_through : List Bool → ℕ
count_through [] = 0
count_through (true ∷ bs) = suc (count_through bs)
count_through (false ∷ bs) = count_through bs

closed_lets_all :
    (o : Options) (s : State) (times : List ℕ)
    → s.circuit_open ≡ false
    → count_through (answers o s (map check times)) ≡ length times
unfolding count_through answers state_step is_circuit_closed
closed_lets_all o s [] h = refl
closed_lets_all o s (now ∷ times) h =
    ground (arith, closed_lets_all o (state_step o s (check now)) times)

-- The circuit does not hold callers back to one attempt after the reset timeout: from the first
-- check that passes, every check made before an outcome is recorded passes too, however many.
pub half_open_lets_all :
    (o : Options) (s : State) (now : ℕ) (times : List ℕ)
    → s.circuit_open ≡ true
    → s.circuit_open_time + o.reset_timeout ≤ now
    → count_through (answers o s (map check (now ∷ times))) ≡ length times + 1
unfolding count_through answers state_step is_circuit_closed
half_open_lets_all o s now times h due =
    ground (arith, closed_lets_all o (state_step o s (check now)) times)
