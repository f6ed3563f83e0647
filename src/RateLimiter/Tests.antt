-- ===== src/RateLimiter/Tests.antt =====
-- Runs of a limiter, and the theorems at concrete inputs.
use alive_human.Base.{
  All, ◌≡◌, ◌≤◌, ◌<◌, ◌↔◌, refl, true, false, String, List, [], ◌∷◌, none, some, arith,
}
use alive_human.Base.Dict.{lookup, insert}
use alive_human.RateLimiter.{
  LimiterOptions, RateLimiter, finite, create, key_of, wait_for_availability, queued,
  get_resource_limit, queue_request, cleanup, sweep_requests, get_rate_limit_status,
}
use alive_human.RateLimiter.Events.{
  Event, HasLimit, request, clean, admitted, final, IsStrict, in_window, admits,
}
use alive_human.RateLimiter.Window.{admitted-le-limit, admits_iff-in_window}

abbrev given : LimiterOptions
given = record {
  max_requests = 2;
  interval = 1000;
  queue_enabled = some false;
  max_queue_size = none;
  queue_timeout = none;
  error_on_limit = none;
  dynamic_limits = none;
}

abbrev strict : RateLimiter
strict = create false given

strict-IsStrict : IsStrict strict
unfolding create
strict-IsStrict = record { no_queue = refl; errors = refl }

abbrev burst : List Event
burst =
    request "eth" "gas" 0
    ∷ request "eth" "gas" 400
    ∷ request "bnb" "gas" 450
    ∷ request "eth" "gas" 500
    ∷ clean 900
    ∷ request "eth" "gas" 1000
    ∷ []

abbrev gas_key : String
gas_key = key_of "eth" "gas"

-- The third request within a second is refused; the window has room again at 1000 ms.
admitted-burst : admitted gas_key strict [] burst ≡ 0 ∷ 400 ∷ 1000 ∷ []
unfolding admitted create wait_for_availability get_resource_limit queue_request cleanup
    sweep_requests lookup insert
admitted-burst = refl

burst_limits : All (HasLimit strict gas_key 2) burst
unfolding create get_resource_limit lookup
burst_limits = (λ _. refl, (λ _. refl, (λ _. refl, (λ _. refl, (tt, (λ _. refl, tt))))))

admitted-le-limit_example : in_window 1000 1200 (admitted gas_key strict [] burst) ≤ 2
unfolding create get_resource_limit lookup
admitted-le-limit_example =
    admitted-le-limit strict gas_key 2 0 burst strict-IsStrict refl (omega arith) burst_limits 1200
      (omega arith)

admits_iff-in_window_example :
    (admits (wait_for_availability false (final strict burst) "eth" "gas" 1200 0).1 ≡ true)
    ↔ (in_window 1000 1200 (admitted gas_key strict [] burst) < 2)
unfolding create get_resource_limit lookup
admits_iff-in_window_example =
    admits_iff-in_window strict "eth" "gas" 2 0 1200 burst strict-IsStrict refl (omega arith)
      burst_limits refl (omega arith)

abbrev waiting_limiter : RateLimiter
waiting_limiter = create false (record given { max_requests = 0; queue_enabled = some true })

-- A call at the limit waits in the queue.
queued_call :
    (wait_for_availability false waiting_limiter "eth" "gas" 5 0).1
    ≡ queued 0 (record { key = gas_key; time = 5; valid = [] })
unfolding create wait_for_availability get_resource_limit queue_request lookup insert
queued_call = refl

-- The status looks the requests up by the resource alone, so it shows none used.
status_of_burst : (get_rate_limit_status (final strict burst) "eth" 1000).remaining ≡ finite 2
unfolding final create wait_for_availability get_resource_limit queue_request cleanup sweep_requests
    get_rate_limit_status lookup insert
status_of_burst = refl
