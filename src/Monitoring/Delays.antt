-- ===== src/Monitoring/Delays.antt =====
-- The delays of `attemptReconnect`.
use native.Mathlib.Nat.{mul-le-mul}
use alive_human.Base.{ℕ, zero, suc, ◌+◌, ◌*◌, ◌≤◌, ◌<◌, ◌≡◌, arith, inl, inr, Bool-cases, ltb}
use alive_human.Monitoring.{
  Socket, Fraction, scheduled, backoff_delay, attempt_reconnect, jittered, max_reconnect_attempts,
}

backoff_delay-le : (n : ℕ) → n ≤ 10 → (backoff_delay n).top ≤ 38444 * (backoff_delay n).bottom
unfolding backoff_delay
backoff_delay-le zero small = omega arith
backoff_delay-le (suc zero) small = omega arith
backoff_delay-le (suc (suc zero)) small = omega arith
backoff_delay-le (suc (suc (suc (suc (suc (suc (suc (suc (suc (suc zero)))))))))) small =
    omega arith
backoff_delay-le n small = omega arith

jittered-le : (x y u d : ℕ) → x ≤ 38444 * y → u < d → x * (4 * d + 2 * u) ≤ 46133 * (y * (5 * d))
jittered-le x y u d less small =
    let six : 4 * d + 2 * u ≤ 6 * d = omega arith in
    let below : x * (4 * d + 2 * u) ≤ (38444 * y) * (6 * d) = mul-le-mul less six in omega arith

-- A delay that is scheduled, with its jitter for any random fraction below 1, is at most
-- 46.133 seconds.
pub attempt_reconnect-bounds :
    (ws : Socket) (random b : Fraction)
    → random.top < random.bottom
    → attempt_reconnect ws ≡ scheduled b
    → (jittered random b).top ≤ 46133 * (jittered random b).bottom
unfolding attempt_reconnect jittered
attempt_reconnect-bounds ws random b less planned =
    elim (Bool-cases (ltb max_reconnect_attempts ws.connection_attempts)) [
      | inl many ↦ ground (arith, many, planned)
      | inr few ↦
          let small : ws.connection_attempts ≤ 10 = ground (arith, few) in
          let same : backoff_delay ws.connection_attempts ≡ b = ground (arith, few, planned) in
          rw⁻¹ same (
            jittered-le (backoff_delay ws.connection_attempts).top
              (backoff_delay ws.connection_attempts).bottom random.top random.bottom
              (backoff_delay-le ws.connection_attempts small) less)
    ]
