-- ===== src/Monitoring/Failures.antt =====
-- Openings that fail, one after the other.
use alive_human.Base.{
  ℕ, suc, length, ◌+◌, ◌≤◌, ◌≡◌, arith, inl, inr, false, Bool-cases, ltb, String, refl, List, [],
  ◌∷◌, Option, none, some, Fallible,
}
use alive_human.Monitoring.{
  Socket, failed, Reconnect, scheduled, critical_error, attempt_reconnect, connect_web_socket,
  finish_connecting, start_connecting, max_reconnect_attempts,
}
use alive_human.Monitoring.Service.{reconnect}

-- The timers, each of which opens the connection again, while the openings fail with these errors: the
-- connection, how many attempts were made, and what the last of them came to.
unfoldable pub retries :
    (ℕ → String → Fallible String ℕ) → List String → Socket → Socket × (ℕ × Option Reconnect)
retries balance [] ws = (ws, (0, none))
retries balance (e ∷ es) ws =
    let step = reconnect balance (failed e) ws in
    let rest = retries balance es step.0 in
    elim step.1.1 [
      | none ↦ (step.0, (1, none))
      | some (critical_error name chain_id) ↦ (step.0, (1, some (critical_error name chain_id)))
      | some (scheduled b) ↦ (rest.0, (suc rest.1.0, rest.1.1))
    ]

abbrev next_socket : Socket → Socket
next_socket ws = record ws {
  connection_attempts = suc ws.connection_attempts;
  is_connecting = false;
}

reconnect-failed :
    (balance : ℕ → String → Fallible String ℕ) (e : String) (ws : Socket)
    → ws.is_connecting ≡ false
    → reconnect balance (failed e) ws
      ≡ (next_socket ws, ([], some (attempt_reconnect (next_socket ws))))
unfolding reconnect connect_web_socket finish_connecting start_connecting
reconnect-failed balance e ws idle = ground (arith, idle)

-- From a connection that is not being opened and has made at most 10 attempts, when at least so many openings
-- fail as are left to 11: the timers end with the eleventh attempt, and that ends with the critical error.
pub failures-give_up :
    (balance : ℕ → String → Fallible String ℕ) (es : List String) (ws : Socket)
    → ws.is_connecting ≡ false
    → ws.connection_attempts ≤ 10
    → 11 ≤ ws.connection_attempts + length es
    → (ws.connection_attempts + (retries balance es ws).1.0 ≡ 11)
      × ((retries balance es ws).1.1 ≡ some (critical_error ws.network_name ws.chain_id))
unfolding retries attempt_reconnect
failures-give_up balance [] ws idle few enough = (omega arith, ground arith)
failures-give_up balance (e ∷ es) ws idle few enough =
    elim (Bool-cases (ltb max_reconnect_attempts (suc ws.connection_attempts))) [
      | inl many ↦
          let failing = reconnect-failed balance e ws idle in
          (ground (arith, failing, many), ground (arith, failing, many))
      | inr more ↦
          let failing = reconnect-failed balance e ws idle in
          let rest =
            failures-give_up balance es (next_socket ws) refl (ground (arith, more))
              (omega arith) in
          (ground (arith, failing, more, rest.0), ground (arith, failing, more, rest.1))
    ]
