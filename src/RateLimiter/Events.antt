-- ===== src/RateLimiter/Events.antt =====
-- The events that a rate limiter sees, and the log of the requests of one key that it admits.

use alive_human.Base.{
  ℕ, ◌≡◌, ◌≤◌, Bool, true, false, String, List, [], ◌∷◌, ◌++◌, str_eq, if◌then◌else◌, get_or,
  length, filter,
}
use alive_human.Base.Dict.{lookup}
use alive_human.RateLimiter.{
  RateLimiter, finite, is_fresh, key_of, wait_for_availability, proceed, Wait, get_resource_limit,
  cleanup,
}

-- What happens to a limiter: a request, or the timer that cleans up.
pub data Event : Type 0 where
  request : String → String → ℕ → Event
  clean : ℕ → Event

abbrev pub time_of : Event → ℕ
time_of (request resource operation now) = now
time_of (clean now) = now

abbrev pub step : RateLimiter → Event → RateLimiter
step l (request resource operation now) = (wait_for_availability false l resource operation now 0).0
step l (clean now) = cleanup l now

abbrev pub admits : Wait → Bool
admits proceed = true
admits _ = false

abbrev pub hit : String → RateLimiter → Event → Bool
hit k l (request resource operation now) =
    if str_eq (key_of resource operation) k
    then admits (wait_for_availability false l resource operation now 0).1
    else false
hit k l (clean now) = false

-- The times at which requests of the key were admitted, after those in `log`.
unfoldable pub admitted : String → RateLimiter → List ℕ → List Event → List ℕ
admitted k l log [] = log
admitted k l log (e ∷ es) =
    admitted k (step l e) (if hit k l e then log ++ time_of e ∷ [] else log) es

-- The clock does not go back.
abbrev pub InOrder : ℕ → List Event → Type 0
InOrder t [] = Unit {0}
InOrder t (e ∷ es) = (t ≤ time_of e) × InOrder (time_of e) es

abbrev pub last_time : ℕ → List Event → ℕ
last_time t [] = t
last_time t (e ∷ es) = last_time (time_of e) es

-- The requests of the key are those of resources with the limit n.
abbrev pub HasLimit : RateLimiter → String → ℕ → Event → Type 0
HasLimit l k n (request resource operation now) =
    str_eq (key_of resource operation) k ≡ true → get_resource_limit l resource ≡ finite n
HasLimit l k n (clean now) = Unit {0}

pub record IsStrict (l : RateLimiter) : Type 0 where
  pub no_queue : l.settings.queue_enabled ≡ false
  pub errors : l.settings.error_on_limit ≡ true

-- The number of requests of a log that lie in the window that ends at t.
abbrev pub in_window : ℕ → ℕ → List ℕ → ℕ
in_window interval t log = length (filter (is_fresh interval t) log)

abbrev pub stored : String → RateLimiter → List ℕ
stored k l = get_or (lookup k l.requests) []

-- The limiter after the events.
unfoldable pub final : RateLimiter → List Event → RateLimiter
final l [] = l
final l (e ∷ es) = final (step l e) es
