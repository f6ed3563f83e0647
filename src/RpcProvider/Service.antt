-- ===== src/RpcProvider/Service.antt =====
-- `getProvider` and `switchToNextProvider`, which call one another, and what is built on them. `reach`
-- says what the n-th attempt to connect to an address does; a provider is its address.
use alive_human.Base.{
  ℕ, zero, suc, ◌+◌, ◌*◌, ◌%◌, Bool, true, false, String, List, [], ◌∷◌, Option, none, some, length,
  map, if◌then◌else◌, Fallible, ok, err,
}
use alive_human.RpcProvider.{Network, flag, set_flag, url_at, all_true}

-- The `while` loop, with the attempts that are left: the first healthy index from j on, going round;
-- none once the attempts have run out.
unfoldable pub next_healthy : List Bool → ℕ → ℕ → ℕ → Option ℕ
next_healthy healthy n zero j = none
next_healthy healthy n (suc left) j =
    let rest = next_healthy healthy n left ((j + 1) % n) in if flag healthy j then some j else rest

-- `switchToNextProvider` up to its call of `getProvider`.
unfoldable pub switch_next : Network → ℕ → Network
switch_next net now =
    let n = length net.urls in
    elim (next_healthy net.healthy n n ((net.current + 1) % n)) [
      | some j ↦ record net { current = j; last_switch = now }
      | none ↦ record net { current = 0; healthy = all_true net.urls; last_switch = now }
    ]

-- A failed connection marks the address as unhealthy.
abbrev pub mark_current : Network → Network
mark_current net = record net { healthy = set_flag net.healthy net.current false }

abbrev pub keep_provider : Network → Network
keep_provider net = record net { cached = set_flag net.cached net.current true }

pub data RpcError : Type 0 where
  no_urls : RpcError

-- `provider.ready` of an address: it resolves, it throws, or it stalls, as it does while a node is down.
pub data Connection : Type 0 where
  connects throws stalls : Connection

-- The calls of one another take fuel; `none` is fuel that ran out, or a connection that stalls. `tried` counts the attempts to
-- connect, and `now` is the clock after each.
unfoldable pub connect :
    (ℕ → String → Connection) → (ℕ → ℕ) → ℕ → ℕ → Network → Option (Network × String)
connect reach now zero tried net = none
connect reach now (suc fuel) tried net =
    let url = url_at net.urls net.current in
    let rest = connect reach now fuel (suc tried) (switch_next (mark_current net) (now tried)) in
    if flag net.cached net.current then some (net, url) else elim (reach tried url) [
      | connects ↦ some (keep_provider net, url)
      | throws ↦ rest
      | stalls ↦ none
    ]

unfoldable pub get_provider :
    (ℕ → String → Connection)
    → (ℕ → ℕ)
    → ℕ
    → Network
    → Option (Fallible RpcError (Network × String))
get_provider reach now fuel net = elim (length net.urls) [
  | zero ↦ some (err no_urls)
  | suc n ↦ elim (connect reach now fuel 0 net) [ none ↦ none | some r ↦ some (ok r) ]
]

-- `executeWithFallback`: what the action does with a provider at its n-th attempt: it settles well, or
-- with an error that does or does not look like one of the endpoint (`isRpcRelatedError`).
pub data Reply {ℓ} (A : Type ℓ) : Type ℓ where
  done : A → Reply A
  rpc_error other_error : String → Reply A

pub data Executed {ℓ} (A : Type ℓ) : Type ℓ where
  value : A → Executed A
  thrown : String → Executed A
  unconfigured : Executed A

-- `attempts` is how many attempts have been made, `left` how many remain. Each attempt gets a provider,
-- and so does each switch, with the fuel given; `none` is as in `connect`. The first argument of
-- `reach` and `now` counts these calls. A network has at least one address here.
unfoldable pub attempt {ℓ} :
    {A : Type ℓ}
    → (ℕ → ℕ → String → Connection)
    → (ℕ → ℕ → ℕ)
    → ℕ
    → (ℕ → String → Reply A)
    → ℕ
    → ℕ
    → Network
    → Option (Network × Executed A)
attempt reach now fuel action attempts zero net = some (net, unconfigured)
attempt reach now fuel action attempts (suc left) net =
    elim (connect (reach (attempts * 2)) (now (attempts * 2)) fuel 0 net) [
      | none ↦ none
      | some (found, url) ↦ elim (action attempts url) [
        | done a ↦ some (found, value a)
        | other_error message ↦ some (found, thrown message)
        | rpc_error message ↦ elim left [
          | zero ↦ some (found, thrown message)
          | suc more ↦
              elim (connect (reach (attempts * 2 + 1)) (now (attempts * 2 + 1)) fuel 0
                (switch_next found (now (attempts * 2 + 1) 0))) [
                  | none ↦ none
                  | some (switched, other) ↦
                      attempt reach now fuel action (suc attempts) left switched
                ]
        ]
      ]
    ]

unfoldable pub execute_with_fallback {ℓ} :
    {A : Type ℓ}
    → (ℕ → ℕ → String → Connection)
    → (ℕ → ℕ → ℕ)
    → ℕ
    → (ℕ → String → Reply A)
    → Network
    → Option (Network × Executed A)
execute_with_fallback reach now fuel action net =
    attempt reach now fuel action 0 (length net.urls) net

-- `runHealthCheck` on a network, with what `isRpcHealthy` finds of each address.
unfoldable pub run_health_check : (String → Bool) → Network → Network
run_health_check is_rpc_healthy net = record net { healthy = map is_rpc_healthy net.urls }

pub get_active_rpc_url : Network → String
get_active_rpc_url net = url_at net.urls net.current

unfoldable pub zip_flags : List String → List Bool → List (String × Bool)
zip_flags [] flags = []
zip_flags (u ∷ us) [] = (u, false) ∷ zip_flags us []
zip_flags (u ∷ us) (b ∷ bs) = (u, b) ∷ zip_flags us bs

unfoldable pub get_rpc_health_status : Network → List (String × Bool)
get_rpc_health_status net = zip_flags net.urls net.healthy
