-- ===== src/RateLimiter/Pruning.antt =====
-- Dropping the requests that are out of the window, by a request or by the cleanup timer.
use text.Mathlib.TextEquality.{eq_iff}
use alive_human.Base.{
  ℕ, ◌≡◌, refl, ◌≤◌, Bool, true, String, List, [], ◌∷◌, none, get_or, filter, arith, filter-filter,
}
use alive_human.Base.Dict.{Dict, lookup, IsUnique}
use alive_human.RateLimiter.{is_fresh, sweep_requests}

pub fresh_earlier : (i s t a : ℕ) → s ≤ t → is_fresh i t a ≡ true → is_fresh i s a ≡ true
fresh_earlier i s t a le h = ground arith

-- Pruning at an earlier time does not show later.
pub filter_later :
    (i s t : ℕ) (xs : List ℕ)
    → s ≤ t
    → filter (is_fresh i t) (filter (is_fresh i s) xs) ≡ filter (is_fresh i t) xs
filter_later i s t xs le =
    filter-filter (is_fresh i s) (is_fresh i t) xs (λ a. fresh_earlier i s t a le)

sweep_missing :
    (p : ℕ → Bool) (k : String) (m : Dict (List ℕ))
    → lookup k m ≡ none
    → lookup k (sweep_requests p m) ≡ none
unfolding lookup sweep_requests
sweep_missing p k [] h = refl
sweep_missing p k ((j, r) ∷ m) h = ground (arith, sweep_missing p k m)

pub sweep_stored :
    (p : ℕ → Bool) (k : String) (m : Dict (List ℕ))
    → IsUnique m
    → get_or (lookup k (sweep_requests p m)) [] ≡ filter p (get_or (lookup k m) [])
unfolding lookup sweep_requests
sweep_stored p k [] u = refl
sweep_stored p k ((j, r) ∷ m) u =
    ground (arith, eq_iff j k, sweep_missing p k m, sweep_stored p k m u.1)

pub sweep-IsUnique : (p : ℕ → Bool) (m : Dict (List ℕ)) → IsUnique m → IsUnique (sweep_requests p m)
unfolding sweep_requests
sweep-IsUnique p [] u = tt
sweep-IsUnique p ((j, r) ∷ m) u = ground (arith, sweep_missing p j m u.0, sweep-IsUnique p m u.1)
