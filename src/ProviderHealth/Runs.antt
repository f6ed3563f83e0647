-- ===== src/ProviderHealth/Runs.antt =====
-- When a provider dies, and when it recovers.
use alive_human.Base.{
  ◌+◌, ◌-◌, ◌<◌, ◌≡◌, Bool, true, false, List, [], ◌∷◌, ltb, leb, arith, length, All, Bool-cases,
  inl, inr,
}
use alive_human.ProviderHealth.{ProviderHealth, Probe, answered, failed, check, check_all}

abbrev pub is_answer : Probe → Bool
is_answer (answered _ _) = true
is_answer (failed _) = false

dead_stays :
    (h : ProviderHealth) (ps : List Probe)
    → h.is_alive ≡ false
    → All (λ p. is_answer p ≡ false) ps
    → (check_all h ps).is_alive ≡ false
unfolding check_all check
dead_stays h [] dead all = dead
dead_stays h (failed t ∷ ps) dead all = dead_stays (check h (failed t)) ps (ground arith) all.1
dead_stays h (answered r t ∷ ps) dead all = absurd (ground arith)

-- An alive provider with fewer than three failures in a row so far is still alive after a run of
-- failed checks just if the run and those failures are fewer than three together.
pub failures_kill :
    (h : ProviderHealth) (ps : List Probe)
    → h.is_alive ≡ true
    → h.fail_count < 3
    → All (λ p. is_answer p ≡ false) ps
    → (check_all h ps).is_alive ≡ ltb (h.fail_count + length ps) 3
unfolding check_all check
failures_kill h [] alive few all = ground arith
failures_kill h (answered r t ∷ ps) alive few all = absurd (ground arith)
failures_kill h (failed t ∷ ps) alive few all = elim (Bool-cases (ltb (h.fail_count + 1) 3)) [
  | inl more ↦
      ground (arith, failures_kill (check h (failed t)) ps (ground arith) (ground arith) all.1)
  | inr last ↦ ground (arith, dead_stays (check h (failed t)) ps (ground arith) all.1)
]

alive_stays :
    (h : ProviderHealth) (ps : List Probe)
    → h.is_alive ≡ true
    → All (λ p. is_answer p ≡ true) ps
    → (check_all h ps).is_alive ≡ true
unfolding check_all check
alive_stays h [] alive all = alive
alive_stays h (failed t ∷ ps) alive all = absurd (ground arith)
alive_stays h (answered r t ∷ ps) alive all =
    alive_stays (check h (answered r t)) ps (ground arith) all.1

-- A dead provider with some failures counted is alive again after a run of answered checks just if
-- the run is at least as long as that count.
pub answers_revive :
    (h : ProviderHealth) (ps : List Probe)
    → h.is_alive ≡ false
    → 0 < h.fail_count
    → All (λ p. is_answer p ≡ true) ps
    → (check_all h ps).is_alive ≡ leb h.fail_count (length ps)
unfolding check_all check
answers_revive h [] dead some_failed all = ground arith
answers_revive h (failed t ∷ ps) dead some_failed all = absurd (ground arith)
answers_revive h (answered r t ∷ ps) dead some_failed all =
    elim (Bool-cases (ltb (h.fail_count - 1) 1)) [
      | inl last ↦ ground (arith, alive_stays (check h (answered r t)) ps (ground arith) all.1)
      | inr more ↦
          ground
            (arith, answers_revive (check h (answered r t)) ps (ground arith) (ground arith) all.1)
    ]
