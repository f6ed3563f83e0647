-- ===== src/CircuitBreaker/Machine.antt =====
-- The three states that a circuit breaker is meant to have, and that the code's record implements
-- them: the half-open state is an open circuit's failure count kept with the circuit closed.
use alive_human.Base.{
  ℕ, ◌+◌, ◌≡◌, refl, ap₂, ◌≤◌, ◌<◌, Bool, true, List, [], ◌∷◌, arith, ltb, leb, ◌==◌, if◌then◌else◌,
}
use alive_human.CircuitBreaker.{
  Options, State, initial_state, is_circuit_closed, record_success, record_failure,
}

-- `closed n t`: n failures since the last success, the last at t. `half_open t`: an attempt is let
-- through. `tripped t`: refused since t.
pub data Phase : Type 0 where
  closed : ℕ → ℕ → Phase
  half_open : ℕ → Phase
  tripped : ℕ → Phase

pub data Event : Type 0 where
  check : ℕ → Event
  success : Event
  failure : ℕ → Event

-- The machine: what each event does to the phase.
module _ (o : Options) where
  pub fail_closed : ℕ → ℕ → Phase
  fail_closed n now = if leb o.failure_threshold (n + 1) then tripped now else closed (n + 1) now

  -- Failures older than the failure timeout are forgotten.
  pub forget : ℕ → ℕ → Phase → Phase
  forget t now p = if ltb (t + o.failure_timeout) now then closed 0 0 else p

  pub phase_step : Phase → Event → Phase
  phase_step (closed n t) (check now) = forget t now (closed n t)
  phase_step (half_open t) (check now) = forget t now (half_open t)
  phase_step (tripped t) (check now) =
      if leb (t + o.reset_timeout) now then half_open t else tripped t
  phase_step p success = closed 0 0
  phase_step (closed n t) (failure now) = fail_closed n now
  phase_step (half_open t) (failure now) = tripped now
  phase_step (tripped t) (failure now) = tripped now

  -- The code's operations, by the same events.
  unfoldable pub state_step : State → Event → State
  state_step s (check now) = (is_circuit_closed o now s).0
  state_step s success = record_success s
  state_step s (failure now) = record_failure o now s

  -- The phase that a record stands for. Without a failure the time of the last one is not read.
  pub phase : State → Phase
  phase s =
      if s.circuit_open
      then tripped s.circuit_open_time
      else (if s.failures == 0
          then closed 0 0
          else (if leb o.failure_threshold s.failures
              then half_open s.last_failure
              else closed s.failures s.last_failure))

  -- An open circuit has its failures counted, and was opened by the last of them.
  pub record IsValid (s : State) : Type 0 where
    pub counted : s.circuit_open ≡ true → o.failure_threshold ≤ s.failures
    pub failed_last : s.circuit_open ≡ true → s.circuit_open_time ≡ s.last_failure
    pub some_failure : s.circuit_open ≡ true → 0 < s.failures

  pub state_step-IsValid : (s : State) (e : Event) → IsValid s → IsValid (state_step s e)
  unfolding state_step is_circuit_closed record_success record_failure
  state_step-IsValid s (check now) v = ground arith
  state_step-IsValid s success v = ground arith
  state_step-IsValid s (failure now) v = ground arith

  -- One event: the code's record moves as the machine does.
  pub phase-state_step :
      (s : State) (e : Event) → IsValid s → phase (state_step s e) ≡ phase_step (phase s) e
  unfolding phase phase_step forget fail_closed state_step is_circuit_closed record_success
      record_failure
  phase-state_step s (check now) v = ground arith
  phase-state_step s success v = ground arith
  phase-state_step s (failure now) v = ground arith

  -- What the callers see: the answer to each check, in order.
  unfoldable pub answers : State → List Event → List Bool
  answers s [] = []
  answers s (check now ∷ es) = (is_circuit_closed o now s).1 ∷ answers (state_step s (check now)) es
  answers s (success ∷ es) = answers (state_step s success) es
  answers s (failure now ∷ es) = answers (state_step s (failure now)) es

  pub lets_through : Phase → ℕ → Bool
  lets_through (tripped t) now = leb (t + o.reset_timeout) now
  lets_through (closed n t) now = true
  lets_through (half_open t) now = true

  pub phase_answers : Phase → List Event → List Bool
  phase_answers p [] = []
  phase_answers p (check now ∷ es) =
      lets_through p now ∷ phase_answers (phase_step p (check now)) es
  phase_answers p (success ∷ es) = phase_answers (phase_step p success) es
  phase_answers p (failure now ∷ es) = phase_answers (phase_step p (failure now)) es

  check-lets_through :
      (s : State) (now : ℕ) → (is_circuit_closed o now s).1 ≡ lets_through (phase s) now
  unfolding is_circuit_closed lets_through phase
  check-lets_through s now = ground arith

  answers-phase :
      (s : State) (es : List Event) → IsValid s → answers s es ≡ phase_answers (phase s) es
  unfolding answers phase_answers
  answers-phase s [] v = refl
  answers-phase s (check now ∷ es) v =
      ap₂ (λ b rest. b ∷ rest) (check-lets_through s now)
        (rw (← phase-state_step s (check now) v)
          (answers-phase (state_step s (check now)) es (state_step-IsValid s (check now) v)))
  answers-phase s (success ∷ es) v =
      rw (← phase-state_step s success v)
        (answers-phase (state_step s success) es (state_step-IsValid s success v))
  answers-phase s (failure now ∷ es) v =
      rw (← phase-state_step s (failure now) v)
        (answers-phase (state_step s (failure now)) es (state_step-IsValid s (failure now) v))

  initial_state-IsValid : IsValid initial_state
  initial_state-IsValid = ground arith

-- For every sequence of checks, successes and failures, and for all options, a new breaker answers
-- each check exactly as the machine of three phases does from its closed phase.
pub answers-phase_answers :
    (o : Options) (es : List Event) → answers o initial_state es ≡ phase_answers o (closed 0 0) es
unfolding phase
answers-phase_answers o es = answers-phase o initial_state es (initial_state-IsValid o)
