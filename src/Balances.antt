-- ===== src/Balances.antt =====
-- packages/backend/src/blockchain/hotwallet/services/BalanceService.ts: balances with a cache, behind the
-- rate limiter and the circuit breakers.
pub mod Cache
pub mod Fallback
pub mod Many
mod Tests
use alive_human.Base.{
  ℕ, zero, suc, ◌+◌, Bool, true, false, ◌&&◌, ◌||◌, String, List, [], ◌∷◌, Option, none, some,
  str_eq, ltb, filter, get_or, truthy, if◌then◌else◌,
}
use alive_human.Base.Dict.{Dict, lookup, insert, delete}
use alive_human.Base.Texts.{
  str_append, to_upper, contains, after_prefix, before_underscore, after_underscore,
}
use alive_human.CircuitBreaker.{
  CircuitBreakerMap, PartialOptions, Settled, resolved, rejected, Outcome, value, failed,
  circuit_is_open, execute_service,
}
use alive_human.RateLimiter.{
  LimiterOptions, create as create_limiter, RateLimiter, wait_for_availability, Wait, proceed,
  refused, queued, delayed, finish_wait, queue_timeout,
}

pub record CacheEntry : Type 0 where
  pub balance : String
  pub timestamp : ℕ

pub record Config : Type 0 where
  pub cache_enabled : Bool
  pub cache_ttl : ℕ

-- The service, with the breakers, which it shares with others, and its limiter.
pub record BalanceService : Type 0 where
  pub config : Config
  pub native : Dict CacheEntry
  pub tokens : Dict CacheEntry
  pub breakers : CircuitBreakerMap
  pub limiter : RateLimiter

abbrev pub default_config : Config
default_config = record { cache_enabled = true; cache_ttl = 30000 }

-- The constructor, with the configuration that is given over the defaults, the shared breakers, and
-- whether this is a test run.
unfoldable pub create : Option Bool → Option ℕ → CircuitBreakerMap → Bool → BalanceService
create enabled ttl breakers is_test = record {
  config = record {
    cache_enabled = get_or enabled default_config.cache_enabled;
    cache_ttl = get_or ttl default_config.cache_ttl;
  };
  native = [];
  tokens = [];
  breakers = breakers;
  limiter = create_limiter is_test (record {
    max_requests = 10;
    interval = 1000;
    queue_enabled = some true;
    max_queue_size = some 1000;
    queue_timeout = some 30000;
    error_on_limit = some true;
    dynamic_limits = some false;
  });
}

-- A chain's handler: its balance of an address, and its decimals and symbol, if it has them.
pub record Handler : Type 0 where
  pub get_balance : Option (String → Settled String)
  pub get_decimals : Option (Settled ℕ)
  pub get_symbol : Option (Settled String)

-- What the service calls: the handler of a name, if there is one, and the decimals of the tokens that it
-- lists.
pub record Chains : Type 0 where
  pub get_handler : String → Option Handler
  pub token_decimals : String → Option (Option ℕ)

-- What happens during a call: the clock at its readings, the number of its promise, whether a queued
-- request is let through before its time is up, and whether this is a test run.
pub record Moment : Type 0 where
  pub clock : ℕ → ℕ
  pub id : ℕ
  pub resumes : Bool
  pub is_test : Bool

abbrev pub join_key : String → String → String
join_key name address = str_append name (str_append ":" address)

-- `_getFromCache`: the cache, without an entry that is too old, and the balance.
unfoldable pub get_from_cache : ℕ → ℕ → String → Dict CacheEntry → Dict CacheEntry × Option String
get_from_cache ttl now key cache = elim (lookup key cache) [
  | none ↦ (cache, none)
  | some entry ↦
      if ltb (entry.timestamp + ttl) now
      then (delete key cache, none)
      else (cache, some entry.balance)
]

-- The answer of the cache, if it is enabled; an empty balance counts as none.
unfoldable pub cached : Config → ℕ → String → Dict CacheEntry → Dict CacheEntry × Option String
cached config now key cache =
    if config.cache_enabled
    then (
      (get_from_cache config.cache_ttl now key cache).0,
      truthy (get_from_cache config.cache_ttl now key cache).1,
    )
    else (cache, none)

unfoldable pub set_cache : Config → ℕ → String → String → Dict CacheEntry → Dict CacheEntry
set_cache config now key balance cache =
    if config.cache_enabled
    then insert key (record { balance = balance; timestamp = now }) cache
    else cache

-- The limiter's answer to a call, its wait included: may the call go on?
unfoldable pub pass_limiter : RateLimiter → String → String → Moment → RateLimiter × Bool
pass_limiter limiter resource operation at =
    let (after, wait) =
      wait_for_availability at.is_test limiter resource operation (at.clock 1) at.id in
    elim wait [
      | proceed ↦ (after, true)
      | refused e ↦ (after, false)
      | delayed parked ↦ (finish_wait after parked, true)
      | queued id parked ↦
          if at.resumes
          then (finish_wait after parked, true)
          else ((queue_timeout after id parked).0, false)
    ]

abbrev pub no_options : PartialOptions
no_options = record { failure_threshold = none; reset_timeout = none; failure_timeout = none }

abbrev pub unknown_balance : String
unknown_balance = "0.0"

-- What the handler answers, or the error where there is no handler or no such method.
unfoldable pub fetch : Chains → String → String → Settled String
fetch chains name address = elim (chains.get_handler name) [
  | none ↦ rejected (str_append "No handler found: " name)
  | some handler ↦ elim handler.get_balance [
    | none ↦ rejected (str_append "No handler found: " name)
    | some get ↦ get address
  ]
]

-- The call through the breaker, with the fallback; the last part says whether the handler was called.
unfoldable pub guarded :
    CircuitBreakerMap → String → Settled String → Moment → CircuitBreakerMap × String × Bool
guarded breakers service answer at =
    let (after, outcome, called) =
      execute_service breakers service no_options (at.clock 2) (at.clock 3) answer
        (some (λ e. resolved unknown_balance)) in
    (
      after,
      elim outcome [ value v ↦ v | failed e ↦ unknown_balance | circuit_is_open ↦ unknown_balance ],
      called,
    )

-- What is common to both kinds of balances, on one of the two caches: the new cache, breakers and
-- limiter, the balance, and whether the handler was called.
pub record Step : Type 0 where
  pub cache : Dict CacheEntry
  pub breakers : CircuitBreakerMap
  pub limiter : RateLimiter
  pub balance : String
  pub called : Bool

unfoldable pub look_up :
    Config
    → String
    → String
    → String
    → String
    → Settled String
    → Moment
    → Dict CacheEntry
    → CircuitBreakerMap
    → RateLimiter
    → Step
look_up config key resource operation service answer at cache breakers limiter =
    let (swept, hit) = cached config (at.clock 0) key cache in
    elim hit [
      | some balance ↦ record {
        cache = swept;
        breakers = breakers;
        limiter = limiter;
        balance = balance;
        called = false;
      }
      | none ↦
          let (limited, goes) = pass_limiter limiter resource operation at in
          elim goes [
            | false ↦ record {
              cache = swept;
              breakers = breakers;
              limiter = limited;
              balance = unknown_balance;
              called = false;
            }
            | true ↦
                let (after, balance, called) = guarded breakers service answer at in
                record {
                  cache = set_cache config (at.clock 4) key balance swept;
                  breakers = after;
                  limiter = limited;
                  balance = balance;
                  called = called;
                }
          ]
    ]

-- `getBalance`: the service, the balance, and whether the handler was called.
unfoldable pub get_balance :
    Chains → String → String → Moment → BalanceService → BalanceService × String × Bool
get_balance chains address network at s =
    let name = to_upper network in
    let done =
      look_up s.config (join_key name address) name "getBalance" (str_append name "_getBalance")
        (fetch chains name address) at s.native s.breakers s.limiter in
    if str_eq address "" || str_eq network "" then (s, unknown_balance, false) else (
      record s { native = done.cache; breakers = done.breakers; limiter = done.limiter },
      done.balance,
      done.called,
    )

-- The network of a token: its name up to an underscore, unless that is empty.
abbrev pub network_of : String → String
network_of token = get_or (truthy (some (before_underscore token))) token

unfoldable pub get_token_balance :
    Chains → String → String → Moment → BalanceService → BalanceService × String × Bool
get_token_balance chains address token at s =
    let done =
      look_up s.config (join_key token address) (network_of token) "getTokenBalance"
        (str_append token "_getBalance") (fetch chains token address) at s.tokens s.breakers
        s.limiter in
    if str_eq address "" || str_eq token "" then (s, unknown_balance, false) else (
      record s { tokens = done.cache; breakers = done.breakers; limiter = done.limiter },
      done.balance,
      done.called,
    )

-- `getTokenDecimals`: 0 decimals of a listed token count as 18.
unfoldable pub get_token_decimals : Chains → String → ℕ
get_token_decimals chains token =
    if str_eq token "" then 18 else elim (chains.token_decimals token) [
      | some none ↦ 18
      | some (some zero) ↦ 18
      | some (some (suc n)) ↦ suc n
      | none ↦ elim (chains.get_handler token) [
        | none ↦ 18
        | some handler ↦ elim handler.get_decimals [
          | none ↦ 18
          | some (resolved n) ↦ n
          | some (rejected e) ↦ 18
        ]
      ]
    ]

unfoldable pub get_token_symbol : Chains → String → String
get_token_symbol chains token = if str_eq token "" then token else elim (after_underscore token) [
  | some rest ↦ before_underscore rest
  | none ↦ elim (chains.get_handler token) [
    | none ↦ token
    | some handler ↦ elim handler.get_symbol [
      | none ↦ token
      | some (resolved symbol) ↦ symbol
      | some (rejected e) ↦ token
    ]
  ]
]

-- One entry of `getMultipleBalances`.
unfoldable pub get_one :
    Chains → String → String → Moment → BalanceService → BalanceService × String × Bool
get_one chains address token at s =
    if contains "_" token
    then get_token_balance chains address token at s
    else get_balance chains address token at s

-- `getMultipleBalances`, one token after the other, and the results by token.
unfoldable pub get_multiple_balances :
    Chains
    → String
    → List (String × Moment)
    → BalanceService
    → Dict String
    → BalanceService × Dict String
get_multiple_balances chains address [] s results = (s, results)
get_multiple_balances chains address (t ∷ ts) s results =
    let (after, balance, called) = get_one chains address t.0 t.1 s in
    get_multiple_balances chains address ts after (insert t.0 balance results)

-- The entries whose key fails the test.
unfoldable pub drop_keys : (String → Bool) → Dict CacheEntry → Dict CacheEntry
drop_keys test [] = []
drop_keys test (e ∷ cache) = let rest = drop_keys test cache in if test e.0 then rest else e ∷ rest

-- `invalidateCache`, of a token, of a network, or of all.
unfoldable pub invalidate_cache :
    String → Option String → Option String → BalanceService → BalanceService
invalidate_cache address network token s =
    if s.config.cache_enabled
    then elim (truthy token) [
      | some t ↦ record s { tokens = delete (join_key t address) s.tokens }
      | none ↦ elim (truthy network) [
        | some n ↦ record s {
          native = drop_keys (contains (join_key (to_upper n) address)) s.native;
          tokens =
              drop_keys
                (λ key. elim (after_prefix (str_append (to_upper n) "_") key) [
                  | none ↦ false
                  | some rest ↦ contains address key
                ])
                s.tokens;
        }
        | none ↦ record s {
          native = drop_keys (contains (str_append ":" address)) s.native;
          tokens = drop_keys (contains (str_append ":" address)) s.tokens;
        }
      ]
    ]
    else s

unfoldable pub clear_cache : BalanceService → BalanceService
clear_cache s = record s { native = []; tokens = [] }
