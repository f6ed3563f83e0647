-- ===== src/RateLimiter/Invariant.antt =====
-- What is known of a limiter after some events, and that pruning and admitting keep it.

use alive_human.Base.{
  ℕ, suc, ◌≡◌, refl, ◌≤◌, true, false, String, List, [], ◌∷◌, ◌++◌, leb, length, filter, arith, inl,
  inr, ap, ◌⊎◌, length-append, filter-append, length-filter_mono, ◌∙◌,
}
use alive_human.Base.Dict.{insert, IsUnique, insert-IsUnique, lookup-insert_self}
use alive_human.RateLimiter.{
  RateLimiter, finite, is_fresh, key_of, wait_for_availability, proceed, get_resource_limit,
}
use alive_human.RateLimiter.Events.{admits, IsStrict, in_window, stored}
use alive_human.RateLimiter.Pruning.{fresh_earlier, filter_later}

module _ (l : RateLimiter) (resource operation : String) (now n : ℕ) (strict : IsStrict l)
    (limit : get_resource_limit l resource ≡ finite n) where
  abbrev pub recent : List ℕ
  recent = filter (is_fresh l.interval now) (stored (key_of resource operation) l)

  pub request_below :
      leb n (length recent) ≡ false
      → wait_for_availability false l resource operation now 0 ≡ (
        record l { requests = insert (key_of resource operation) (recent ++ now ∷ []) l.requests },
        proceed,
      )
  unfolding wait_for_availability
  request_below below = rw (limit, below)

  pub request_above :
      leb n (length recent) ≡ true
      → ((wait_for_availability false l resource operation now 0).0
          ≡ record l { requests = insert (key_of resource operation) recent l.requests })
        × (admits (wait_for_availability false l resource operation now 0).1 ≡ false)
  unfolding wait_for_availability
  request_above above = rw (limit, above, strict.no_queue, strict.errors) (refl, refl)

-- What is known after the events up to the time t, with `log` the admissions so far.
pub record Inv (l₀ : RateLimiter) (k : String) (n t : ℕ) (l : RateLimiter) (log : List ℕ)
    : Type 0 where
  pub interval : l.interval ≡ l₀.interval
  pub strict : IsStrict l
  pub limits : (r : String) → get_resource_limit l r ≡ get_resource_limit l₀ r
  pub unique : IsUnique l.requests
  pub same :
      (u : ℕ)
      → t ≤ u
      → filter (is_fresh l₀.interval u) (stored k l) ≡ filter (is_fresh l₀.interval u) log
  pub bound : (u : ℕ) → t ≤ u → in_window l₀.interval u log ≤ n

module _ (l₀ : RateLimiter) (k : String) (n : ℕ) where
  -- A step that prunes the key's requests, or leaves them, and admits nothing.
  pub keep-Inv :
      (t now : ℕ) (l l' : RateLimiter) (log : List ℕ)
      → Inv l₀ k n t l log
      → t ≤ now
      → l'.interval ≡ l.interval
      → l'.settings ≡ l.settings
      → l'.max_requests ≡ l.max_requests
      → l'.resource_limits ≡ l.resource_limits
      → IsUnique l'.requests
      → ((stored k l' ≡ stored k l)
          ⊎ (stored k l' ≡ filter (is_fresh l₀.interval now) (stored k l)))
      → Inv l₀ k n now l' log
  unfolding get_resource_limit
  keep-Inv t now l l' log v le hi hs hm hr hu (inl e) = record {
    interval = hi ∙ v.interval;
    strict = record { no_queue = ground arith; errors = ground arith };
    limits = λ r. rw (hm, hr) (v.limits r);
    unique = hu;
    same = λ u le'. rw e (v.same u (omega arith));
    bound = λ u le'. v.bound u (omega arith);
  }
  keep-Inv t now l l' log v le hi hs hm hr hu (inr e) = record {
    interval = hi ∙ v.interval;
    strict = record { no_queue = ground arith; errors = ground arith };
    limits = λ r. rw (hm, hr) (v.limits r);
    unique = hu;
    same = λ u le'. rw e (filter_later l₀.interval now u (stored k l) le' ∙ v.same u (omega arith));
    bound = λ u le'. v.bound u (omega arith);
  }

  pub same_now :
      (t now : ℕ) (l : RateLimiter) (log : List ℕ)
      → Inv l₀ k n t l log
      → t ≤ now
      → length (filter (is_fresh l.interval now) (stored k l)) ≡ in_window l₀.interval now log
  same_now t now l log v le = rw v.interval (ap length (v.same now le))

  window_grows :
      (now u : ℕ) (log : List ℕ)
      → now ≤ u
      → in_window l₀.interval u (log ++ now ∷ []) ≤ suc (in_window l₀.interval now log)
  window_grows now u log le = ground (
    arith,
    filter-append (is_fresh l₀.interval u) log (now ∷ []),
    length-append (filter (is_fresh l₀.interval u) log) (now ∷ []),
    length-append (filter (is_fresh l₀.interval u) log) [],
    length-filter_mono (is_fresh l₀.interval now) (is_fresh l₀.interval u) log
        (λ a. fresh_earlier l₀.interval now u a le),
  )

  -- A step that admits a request below the limit.
  pub admit-Inv :
      (t now : ℕ) (l : RateLimiter) (log : List ℕ)
      → Inv l₀ k n t l log
      → t ≤ now
      → leb n (length (filter (is_fresh l.interval now) (stored k l))) ≡ false
      → Inv l₀ k n now
          (record l {
            requests =
                insert k (filter (is_fresh l.interval now) (stored k l) ++ now ∷ []) l.requests;
          })
          (log ++ now ∷ [])
  unfolding get_resource_limit
  admit-Inv t now l log v le below = record {
    interval = v.interval;
    strict = record { no_queue = v.strict.no_queue; errors = v.strict.errors };
    limits = v.limits;
    unique = insert-IsUnique k _ l.requests v.unique;
    same = λ u le'.
        rw
          (
            lookup-insert_self k (filter (is_fresh l.interval now) (stored k l) ++ now ∷ [])
                l.requests,
            filter-append (is_fresh l₀.interval u) (filter (is_fresh l.interval now) (stored k l))
                (now ∷ []),
            filter-append (is_fresh l₀.interval u) log (now ∷ []),
            v.interval,
            filter_later l₀.interval now u (stored k l) le',
          )
          (ap (λ xs. xs ++ filter (is_fresh l₀.interval u) (now ∷ [])) (v.same u (omega arith)));
    bound = λ u le'. ground (arith, same_now t now l log v le, window_grows now u log le');
  }
