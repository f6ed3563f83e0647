-- ===== src/ProviderHealth/Balancer.antt =====
-- The load balancer over several providers: the choice of the best one, the round of checks, and calls
-- with failover. `providers` and `healthStatus` have the same addresses as keys, and are one dictionary
-- here, as a provider is known by its address.
use alive_human.Base.{
  str_eq, ℕ, zero, suc, Bool, false, String, List, [], ◌∷◌, ◌++◌, Option, none, some, map, filter,
  head?, get_or, ◌==◌, if◌then◌else◌, Fallible, ok, err,
}
use alive_human.Base.Dict.{Dict, lookup, insert}
use alive_human.Base.Sorting.{sort_by}
use alive_human.ProviderHealth.{ProviderHealth, Probe, new_health, check}

-- `ProviderOptions`; `weight` is never read.
pub record ProviderOptions : Type 0 where
  pub url : String
  pub priority : Option ℕ

pub record Balancer : Type 0 where
  pub health : Dict ProviderHealth
  pub priorities : List (ℕ × List String)

-- `priorities.get`, of a key that is there or not.
abbrev pub urls_at : List (ℕ × List String) → ℕ → List String
urls_at [] p = []
urls_at (g ∷ gs) p = if g.0 == p then g.1 else urls_at gs p

unfoldable pub add_url : ℕ → String → List (ℕ × List String) → List (ℕ × List String)
add_url p url [] = (p, url ∷ []) ∷ []
add_url p url (g ∷ gs) =
    let rest = add_url p url gs in if g.0 == p then (g.0, g.1 ++ url ∷ []) ∷ gs else g ∷ rest

-- The loop of the constructor, from the state so far.
unfoldable pub add_all : ℕ → List ProviderOptions → Balancer → Balancer
add_all now [] lb = lb
add_all now (o ∷ os) lb =
    let priority = get_or o.priority 1 in
    add_all now os (record {
      health = insert o.url (new_health o.url priority now) lb.health;
      priorities = add_url priority o.url lb.priorities;
    })

pub data BalancerError : Type 0 where
  no_rpc_urls no_healthy_providers : BalancerError

unfoldable pub create : ℕ → List ProviderOptions → Fallible BalancerError Balancer
create now [] = err no_rpc_urls
create now (o ∷ os) = ok (add_all now (o ∷ os) (record { health = []; priorities = [] }))

abbrev pub alive : Balancer → String → Bool
alive lb url = elim (lookup url lb.health) [ none ↦ false | some h ↦ h.is_alive ]

abbrev pub response_time : Balancer → String → ℕ
response_time lb url = elim (lookup url lb.health) [ none ↦ 0 | some h ↦ h.response_time ]

abbrev pub fail_count : Balancer → String → ℕ
fail_count lb url = elim (lookup url lb.health) [ none ↦ 0 | some h ↦ h.fail_count ]

abbrev pub healthy_urls : Balancer → ℕ → List String
healthy_urls lb p = filter (alive lb) (urls_at lb.priorities p)

abbrev pub addresses : Balancer → List String
addresses lb = map (λ e. e.0) lb.health

abbrev pub levels : Balancer → List ℕ
levels lb = map (λ g. g.0) lb.priorities

-- The loop over the sorted priorities.
unfoldable pub best_of : Balancer → List ℕ → Option String
best_of lb [] = none
best_of lb (p ∷ ps) = elim (head? (sort_by (response_time lb) (healthy_urls lb p))) [
  | none ↦ best_of lb ps
  | some url ↦ some url
]

-- Without a healthy provider, one of the fewest failures is taken.
unfoldable pub select_best_provider : Balancer → Option String
select_best_provider lb = elim (best_of lb (sort_by (λ p. p) (levels lb))) [
  | some url ↦ some url
  | none ↦ head? (sort_by (fail_count lb) (addresses lb))
]

unfoldable pub get_provider : Balancer → Fallible BalancerError String
get_provider lb = elim (select_best_provider lb) [
  | none ↦ err no_healthy_providers
  | some url ↦ if str_eq url "" then err no_healthy_providers else ok url
]

-- `checkHealth`: each provider is checked, with what its probe gives.
unfoldable pub check_health : (String → Probe) → Balancer → Balancer
check_health probes lb = record lb { health = map (λ e. (e.0, check e.1 (probes e.0))) lb.health }

-- The rounds of the timer, first to last.
unfoldable pub check_rounds : List (String → Probe) → Balancer → Balancer
check_rounds [] lb = lb
check_rounds (r ∷ rs) lb = check_rounds rs (check_health r lb)

pub data CallError : Type 0 where
  no_provider : BalancerError → CallError
  call_failed : String → CallError

-- `executeWithFailover` settles with a value, with an error after all retries that has the last error,
-- or, if there are no retries at all, with a failure to read the last error.
pub data Outcome {ℓ} (A : Type ℓ) : Type ℓ where
  value : A → Outcome A
  all_failed : CallError → Outcome A
  no_last_error : Outcome A

unfoldable pub try_once {ℓ} :
    {A : Type ℓ} → Balancer → (String → Fallible String A) → Fallible CallError A
try_once lb method = elim (get_provider lb) [
  | err e ↦ err (no_provider e)
  | ok url ↦ elim (method url) [ err message ↦ err (call_failed message) | ok a ↦ ok a ]
]

-- `n` counts the attempts, `left` is how many remain, and `method n` is what the n-th call does with a
-- provider. Checks come between attempts, and none after the last.
unfoldable pub retry {ℓ} :
    {A : Type ℓ}
    → (ℕ → String → Fallible String A)
    → (ℕ → String → Probe)
    → ℕ
    → ℕ
    → Balancer
    → Balancer × Outcome A
retry method probes n zero lb = (lb, no_last_error)
retry method probes n (suc left) lb = elim (try_once lb (method n)) [
  | ok a ↦ (lb, value a)
  | err e ↦ elim left [
    | zero ↦ (lb, all_failed e)
    | suc more ↦ retry method probes (suc n) left (check_health (probes n) lb)
  ]
]

unfoldable pub execute_with_failover {ℓ} :
    {A : Type ℓ}
    → (ℕ → String → Fallible String A)
    → (ℕ → String → Probe)
    → Option ℕ
    → Balancer
    → Balancer × Outcome A
execute_with_failover method probes max_retries lb = retry method probes 0 (get_or max_retries 3) lb

pub cleanup : Balancer → Balancer
cleanup lb = record { health = []; priorities = [] }
