-- ===== src/RateLimiter/Window.antt =====
-- The sliding window: with the queue disabled and errors on, no window of `interval` milliseconds
-- holds more admitted requests of a key than its limit.
use text.Mathlib.TextEquality.{eq_iff}
use alive_human.Base.{
  ℕ, ◌≡◌, refl, ◌≤◌, ◌<◌, true, false, String, List, [], ◌∷◌, ◌++◌, leb, str_eq, if◌then◌else◌,
  length, filter, All, arith, Bool-cases, inl, inr, ◌↔◌, ◌∙◌,
}
use alive_human.Base.Dict.{lookup, insert-IsUnique, lookup-insert_self, lookup-insert_ne}
use alive_human.RateLimiter.{
  RateLimiter, finite, is_fresh, key_of, wait_for_availability, get_resource_limit, cleanup,
}
use alive_human.RateLimiter.Events.{
  Event, request, clean, time_of, step, admits, hit, admitted, final, InOrder, last_time, HasLimit,
  IsStrict, in_window, stored,
}
use alive_human.RateLimiter.Pruning.{sweep_stored, sweep-IsUnique}
use alive_human.RateLimiter.Invariant.{
  Inv, keep-Inv, admit-Inv, request_below, request_above, recent, same_now,
}

module _ (l₀ : RateLimiter) (k : String) (n : ℕ) where
  clean-Inv :
      (t now : ℕ) (l : RateLimiter) (log : List ℕ)
      → Inv l₀ k n t l log
      → t ≤ now
      → Inv l₀ k n now (cleanup l now) log
  unfolding cleanup
  clean-Inv t now l log v le =
      keep-Inv l₀ k n t now l (cleanup l now) log v le refl refl refl refl
        (sweep-IsUnique (is_fresh l.interval now) l.requests v.unique)
        (inr (rw (← v.interval) (sweep_stored (is_fresh l.interval now) k l.requests v.unique)))

  -- A request of another key leaves what is stored for this one.
  other-Inv :
      (t now : ℕ) (resource operation : String) (l : RateLimiter) (log : List ℕ)
      → Inv l₀ k n t l log
      → t ≤ now
      → str_eq (key_of resource operation) k ≡ false
      → Inv l₀ k n now (wait_for_availability false l resource operation now 0).0 log
  unfolding wait_for_availability
  other-Inv t now resource operation l log v le distinct =
      let key = key_of resource operation in
      let recent = filter (is_fresh l.interval now) (stored key l) in
      keep-Inv l₀ k n t now l (wait_for_availability false l resource operation now 0).0 log v le
        (ground (arith, v.strict.no_queue)) (ground (arith, v.strict.no_queue))
        (ground (arith, v.strict.no_queue)) (ground (arith, v.strict.no_queue))
        (ground (
          arith,
          v.strict.no_queue,
          insert-IsUnique key recent l.requests v.unique,
          insert-IsUnique key (recent ++ now ∷ []) l.requests v.unique,
        ))
        (inl (
          ground (
            arith,
            v.strict.no_queue,
            lookup-insert_ne key k recent l.requests distinct,
            lookup-insert_ne key k (recent ++ now ∷ []) l.requests distinct,
          )))

  own-Inv :
      (t now : ℕ) (resource operation : String) (l : RateLimiter) (log : List ℕ)
      → Inv l₀ k n t l log
      → t ≤ now
      → key_of resource operation ≡ k
      → get_resource_limit l resource ≡ finite n
      → Inv l₀ k n now (wait_for_availability false l resource operation now 0).0 (
          if admits (wait_for_availability false l resource operation now 0).1
          then log ++ now ∷ []
          else log)
  own-Inv t now resource operation l log v le same_key limit =
      elim (Bool-cases (leb n (length (recent l resource operation now n v.strict limit)))) [
        | inl above ↦
            let e = request_above l resource operation now n v.strict limit above in
            rw (e.0, e.1)
              (keep-Inv l₀ k n t now l _ log v le refl refl refl refl
                (insert-IsUnique _ _ l.requests v.unique)
                (inr (
                  rw (
                    same_key,
                    lookup-insert_self k (filter (is_fresh l.interval now) (stored k l)) l.requests,
                    v.interval,
                  ))))
        | inr below ↦
            rw (request_below l resource operation now n v.strict limit below, same_key)
              (admit-Inv l₀ k n t now l log v le (rw same_key at below))
      ]

  step-Inv :
      (t : ℕ) (e : Event) (l : RateLimiter) (log : List ℕ)
      → Inv l₀ k n t l log
      → t ≤ time_of e
      → HasLimit l₀ k n e
      → Inv l₀ k n (time_of e) (step l e) (if hit k l e then log ++ time_of e ∷ [] else log)
  step-Inv t (clean now) l log v le h = clean-Inv t now l log v le
  step-Inv t (request resource operation now) l log v le h =
      elim (Bool-cases (str_eq (key_of resource operation) k)) [
        | inl own ↦ rw own (
            own-Inv t now resource operation l log v le ((eq_iff _ _).0 own)
              (v.limits resource ∙ h own))
        | inr other ↦ rw other (other-Inv t now resource operation l log v le other)
      ]

  final-Inv :
      (t : ℕ) (l : RateLimiter) (log : List ℕ) (es : List Event)
      → Inv l₀ k n t l log
      → InOrder t es
      → All (HasLimit l₀ k n) es
      → Inv l₀ k n (last_time t es) (final l es) (admitted k l log es)
  unfolding admitted final
  final-Inv t l log [] v order limits = v
  final-Inv t l log (e ∷ es) v order limits =
      final-Inv (time_of e) (step l e) _ es (step-Inv t e l log v order.0 limits.0) order.1 limits.1

start-Inv :
    (l : RateLimiter) (k : String) (n t : ℕ) → IsStrict l → l.requests ≡ [] → Inv l k n t l []
unfolding lookup
start-Inv l k n t strict empty = record {
  interval = refl;
  strict = strict;
  limits = λ r. refl;
  unique = rw empty tt;
  same = λ u _. rw empty refl;
  bound = λ u _. omega arith;
}

-- For a limiter that rejects at the limit (queue disabled, errors on) and has no request stored,
-- through any sequence of requests of any keys and of cleanups with a clock that does not go back,
-- where each resource behind the key has the limit n: in every window of `interval` milliseconds
-- that ends after the sequence, at most n requests of the key were admitted.
pub admitted-le-limit :
    (l : RateLimiter) (k : String) (n t : ℕ) (es : List Event)
    → IsStrict l
    → l.requests ≡ []
    → InOrder t es
    → All (HasLimit l k n) es
    → (u : ℕ) → last_time t es ≤ u
    → in_window l.interval u (admitted k l [] es) ≤ n
admitted-le-limit l k n t es strict empty order limits u le =
    (final-Inv l k n t l [] es (start-Inv l k n t strict empty) order limits).bound u le

-- Under the same conditions, a further request of the key is admitted exactly when fewer than n
-- requests of the key were admitted in the window that ends at it.
pub admits_iff-in_window :
    (l : RateLimiter) (resource operation : String) (n t now : ℕ) (es : List Event)
    → IsStrict l
    → l.requests ≡ []
    → InOrder t es
    → All (HasLimit l (key_of resource operation) n) es
    → get_resource_limit l resource ≡ finite n
    → last_time t es ≤ now
    → (admits (wait_for_availability false (final l es) resource operation now 0).1 ≡ true)
      ↔ (in_window l.interval now (admitted (key_of resource operation) l [] es) < n)
admits_iff-in_window l resource operation n t now es strict empty order limits limit le =
    let key = key_of resource operation in
    let v = final-Inv l key n t l [] es (start-Inv l key n t strict empty) order limits in
    let same = same_now l key n (last_time t es) now (final l es) (admitted key l [] es) v le in
    let limit' = v.limits resource ∙ limit in
    elim (Bool-cases
      (leb n (length (recent (final l es) resource operation now n v.strict limit')))) [
        | inl above ↦
            rw (request_above (final l es) resource operation now n v.strict limit' above).1
              (ground (arith, same))
        | inr below ↦
            rw (request_below (final l es) resource operation now n v.strict limit' below)
              (ground (arith, same))
      ]
