-- ===== src/Balances/Cache.antt =====
-- Balances that are asked for again, and caches that are emptied.
use text.Mathlib.TextEquality.{eq_iff}
use mathlib.Core.Path.{subst}
use alive_human.Base.{
  ◌+◌, ◌≤◌, Bool, true, false, ◌||◌, ◌≡◌, refl, ap, String, [], ◌∷◌, none, some, arith, str_eq,
  Option-cases, Bool-cases, inl, inr, if◌then◌else◌,
}
use alive_human.Base.Dict.{Dict, lookup, lookup-insert_self, lookup-delete}
use alive_human.Base.Texts.{str_append, to_upper, contains, contains_self, contains-append}
use alive_human.CircuitBreaker.{Settled, CircuitBreakerMap}
use alive_human.RateLimiter.{RateLimiter}
use alive_human.Balances.{
  CacheEntry, Config, BalanceService, Chains, Moment, join_key, get_from_cache, cached, set_cache,
  pass_limiter, guarded, Step, look_up, get_balance, fetch, drop_keys, invalidate_cache,
}

-- A call of the handler leaves its answer in the cache.
look_up-fills :
    (config : Config) (key resource operation service : String) (answer : Settled String)
    (at : Moment) (cache : Dict CacheEntry) (breakers : CircuitBreakerMap) (limiter : RateLimiter)
    → config.cache_enabled ≡ true
    → (look_up config key resource operation service answer at cache breakers limiter).called ≡ true
    → lookup key
        (look_up config key resource operation service answer at cache breakers limiter).cache
      ≡ some (record {
        balance =
            (look_up config key resource operation service answer at cache breakers
              limiter).balance;
        timestamp = at.clock 4;
      })
unfolding look_up set_cache
look_up-fills config key resource operation service answer at cache breakers limiter enabled
      called =
    elim (Option-cases (cached config (at.clock 0) key cache).1) [
      | inr (balance, hit) ↦ ground (arith, hit)
      | inl miss ↦ elim (Bool-cases (pass_limiter limiter resource operation at).1) [
        | inr stopped ↦ ground (arith, miss, stopped)
        | inl goes ↦ ground (
          arith,
          miss,
          goes,
          enabled,
          lookup-insert_self key
              (record { balance = (guarded breakers service answer at).1; timestamp = at.clock 4 })
              (cached config (at.clock 0) key cache).0,
        )
      ]
    ]

-- A fresh entry is the answer, and nothing changes.
look_up-hits :
    (config : Config) (key resource operation service : String) (answer : Settled String)
    (at : Moment) (cache : Dict CacheEntry) (breakers : CircuitBreakerMap) (limiter : RateLimiter)
    (entry : CacheEntry)
    → config.cache_enabled ≡ true
    → lookup key cache ≡ some entry
    → at.clock 0 ≤ entry.timestamp + config.cache_ttl
    → str_eq entry.balance "" ≡ false
    → look_up config key resource operation service answer at cache breakers limiter ≡ record {
      cache = cache;
      breakers = breakers;
      limiter = limiter;
      balance = entry.balance;
      called = false;
    }
unfolding look_up cached get_from_cache
look_up-hits config key resource operation service answer at cache breakers limiter entry enabled
      found fresh full =
    ground (arith, enabled, found, fresh, full)

look_up-again :
    (config : Config) (key resource operation service : String) (answer other : Settled String)
    (at later : Moment) (cache : Dict CacheEntry) (breakers : CircuitBreakerMap)
    (limiter : RateLimiter) (d : Step)
    → look_up config key resource operation service answer at cache breakers limiter ≡ d
    → config.cache_enabled ≡ true
    → d.called ≡ true
    → str_eq d.balance "" ≡ false
    → later.clock 0 ≤ at.clock 4 + config.cache_ttl
    → look_up config key resource operation service other later d.cache d.breakers d.limiter
      ≡ record d { called = false }
look_up-again config key resource operation service answer other at later cache breakers limiter d
      did enabled called full soon =
    let filled : lookup key d.cache
        ≡ some (record { balance = d.balance; timestamp = at.clock 4 }) =
      subst
        (λ r.
          r.called ≡ true
          → lookup key r.cache ≡ some (record { balance = r.balance; timestamp = at.clock 4 }))
        did
        (look_up-fills config key resource operation service answer at cache breakers limiter
          enabled)
        called in
    look_up-hits config key resource operation service other later d.cache d.breakers d.limiter
      (record { balance = d.balance; timestamp = at.clock 4 }) enabled filled soon full

-- Where the cache is enabled: if `get_balance` called a chain's handler and has a balance that is not
-- empty, then asking again, at a time that is within the cache's time to live of the end of that call,
-- gives the same balance, makes no call, and changes nothing, whatever the handlers answer by then.
pub get_balance-again :
    (chains others : Chains) (address network : String) (at later : Moment) (s : BalanceService)
    → s.config.cache_enabled ≡ true
    → (get_balance chains address network at s).2 ≡ true
    → str_eq (get_balance chains address network at s).1 "" ≡ false
    → later.clock 0 ≤ at.clock 4 + s.config.cache_ttl
    → get_balance others address network later (get_balance chains address network at s).0 ≡ (
      (get_balance chains address network at s).0,
      (get_balance chains address network at s).1,
      false,
    )
unfolding get_balance
get_balance-again chains others address network at later s enabled called full soon =
    elim (Bool-cases (str_eq address "" || str_eq network "")) [
      | inl blank ↦ ground (arith, blank)
      | inr given ↦
          let name = to_upper network in
          let key = join_key name address in
          let service = str_append name "_getBalance" in
          let d =
            look_up s.config key name "getBalance" service (fetch chains name address) at s.native
              s.breakers s.limiter in
          ground (
            arith,
            given,
            look_up-again s.config key name "getBalance" service (fetch chains name address)
                (fetch others name address) at later s.native s.breakers s.limiter d refl enabled
                (ground (arith, given, called)) (ground (arith, given, full)) soon,
          )
    ]

lookup-drop_keys :
    (test : String → Bool) (key : String) (cache : Dict CacheEntry)
    → lookup key (drop_keys test cache) ≡ (if test key then none else lookup key cache)
unfolding drop_keys lookup
lookup-drop_keys test key [] = ground arith
lookup-drop_keys test key (e ∷ cache) = elim (Bool-cases (str_eq e.0 key)) [
  | inl here ↦
      let same : test e.0 ≡ test key = ap test ((eq_iff e.0 key).0 here) in
      ground (arith, here, same, lookup-drop_keys test key cache)
  | inr other ↦ ground (arith, other, lookup-drop_keys test key cache)
]

-- Where the cache is enabled: after `invalidate_cache` for a network, or for all networks, there is no
-- native balance of the address on that network in the cache, and after it for a token none of the
-- token. By network, the balances of other keys that do not contain that key stay as they were.
pub invalidate_cache-forgets :
    (address network token other : String) (s : BalanceService)
    → s.config.cache_enabled ≡ true
    → str_eq network "" ≡ false
    → str_eq token "" ≡ false
    → contains (join_key (to_upper network) address) other ≡ false
    → (lookup
          (join_key (to_upper network) address)
          (invalidate_cache address (some network) none s).native
        ≡ none)
      × (lookup (join_key (to_upper network) address) (invalidate_cache address none none s).native
          ≡ none)
      × (lookup (join_key token address) (invalidate_cache address none (some token) s).tokens
          ≡ none)
      × (lookup other (invalidate_cache address (some network) none s).native
          ≡ lookup other s.native)
unfolding invalidate_cache
invalidate_cache-forgets address network token other s enabled has_network has_token apart =
    let key = join_key (to_upper network) address in
    (
      ground (
        arith,
        enabled,
        has_network,
        lookup-drop_keys (contains key) key s.native,
        contains_self key,
      ),
      ground (
        arith,
        enabled,
        lookup-drop_keys (contains (str_append ":" address)) key s.native,
        contains-append (to_upper network) (str_append ":" address),
      ),
      ground (
        arith,
        enabled,
        has_token,
        lookup-delete (join_key token address) (join_key token address) s.tokens,
        eq_iff (join_key token address) (join_key token address),
      ),
      ground (arith, enabled, has_network, lookup-drop_keys (contains key) other s.native, apart),
    )
