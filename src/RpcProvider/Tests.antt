-- ===== src/RpcProvider/Tests.antt =====
-- Runs of the provider service on networks of three addresses, of which one answers or none does.

use alive_human.Base.Texts.{is_in}
use alive_human.Base.{
  ◌≢◌, inl, inr, Bool-cases, if◌then◌else◌, ℕ, zero, suc, ◌<◌, ◌≡◌, refl, Bool, true, false, String,
  [], ◌∷◌, none, some, str_eq, ok, err, arith,
}
use alive_human.RpcProvider.{Network, flag, url_at, initialize, unique, all_true, set_flag}
use alive_human.RpcProvider.Service.{
  Connection, connects, throws, stalls, connect, get_provider, next_healthy, switch_next, Reply,
  done, rpc_error, value, execute_with_fallback, run_health_check, get_rpc_health_status, zip_flags,
  no_urls,
}
use alive_human.RpcProvider.Switches.{IsSound}
use alive_human.RpcProvider.Addresses.{Proper, initialize-IsSound}
use alive_human.RpcProvider.Termination.{settled, get_provider-finds, get_provider_diverges}
use alive_human.RpcProvider.Retries.{execute_with_fallback-works}

abbrev three : Network
three = record {
  urls = "a" ∷ "b" ∷ "c" ∷ [];
  cached = false ∷ false ∷ false ∷ [];
  healthy = true ∷ true ∷ true ∷ [];
  current = 0;
  last_switch = 0;
}

three-IsSound : IsSound three
three-IsSound = (refl, omega arith)

start : initialize (some "a") ("" ∷ "b" ∷ "a" ∷ "c" ∷ []) ≡ three
unfolding initialize unique all_true
start = refl

abbrev only_c : ℕ → String → Bool
only_c t u = str_eq u "c"

abbrev nobody : ℕ → String → Connection
nobody t u = if str_eq u "b" then stalls else throws

never : (t : ℕ) (u : String) → nobody t u ≢ connects
never t u e = elim (Bool-cases (str_eq u "b")) [
  | inl here ↦ absurd (ground (arith, here))
  | inr other ↦ absurd (ground (arith, other))
]

abbrev at_noon : ℕ → ℕ
at_noon t = 1200

third :
    get_provider (λ n u. settled (only_c n u)) at_noon 3 three
    ≡ some (
        ok (
          record {
            urls = "a" ∷ "b" ∷ "c" ∷ [];
            cached = false ∷ false ∷ true ∷ [];
            healthy = false ∷ false ∷ true ∷ [];
            current = 2;
            last_switch = 1200;
          },
          "c",
        ))
unfolding get_provider connect next_healthy switch_next flag set_flag url_at all_true
third = refl

no_address : get_provider nobody at_noon 9 (initialize none ("" ∷ [])) ≡ some (err no_urls)
unfolding get_provider initialize unique all_true
no_address = refl

health :
    get_rpc_health_status (run_health_check (only_c 0) three)
    ≡ ("a", false) ∷ ("b", false) ∷ ("c", true) ∷ []
unfolding run_health_check get_rpc_health_status zip_flags
health = refl

initialize-IsSound_example :
    IsSound (initialize (some "a") ("" ∷ "b" ∷ "a" ∷ "c" ∷ []))
    × Proper (initialize (some "a") ("" ∷ "b" ∷ "a" ∷ "c" ∷ [])).urls
    × (is_in "c" (initialize (some "a") ("" ∷ "b" ∷ "a" ∷ "c" ∷ [])).urls ≡ true)
initialize-IsSound_example = initialize-IsSound (some "a") ("" ∷ "b" ∷ "a" ∷ "c" ∷ []) "c" refl refl

get_provider-finds_example :
    (after : Network) × (after.urls ≡ three.urls)
    × IsSound after
    × (get_provider (λ n u. settled (only_c n u)) at_noon 9 three
        ≡ some (ok (after, url_at three.urls after.current)))
unfolding url_at
get_provider-finds_example =
    get_provider-finds only_c at_noon 2 9 three three-IsSound (omega arith) (λ t. refl)
      (omega arith)

none_cached : (i : ℕ) → flag three.cached i ≡ false
unfolding flag
none_cached zero = refl
none_cached (suc zero) = refl
none_cached (suc (suc zero)) = refl
none_cached (suc (suc (suc i))) = refl

get_provider_diverges_example : get_provider nobody at_noon 100 three ≡ none
get_provider_diverges_example =
    get_provider_diverges nobody at_noon 100 three three-IsSound none_cached never

-- Two timeouts, and then the block number.
abbrev third_time : ℕ → String → Reply ℕ
third_time zero u = rpc_error "timeout"
third_time (suc zero) u = rpc_error "timeout"
third_time (suc (suc n)) u = done 77

two_timeouts : (i : ℕ) (u : String) → i < 2 → (m : String) × (third_time i u ≡ rpc_error m)
two_timeouts zero u less = ("timeout", refl)
two_timeouts (suc zero) u less = ("timeout", refl)
two_timeouts (suc (suc i)) u less = absurd (omega arith)

execute_with_fallback-works_example :
    (after : Network) × (execute_with_fallback
        (λ n m u. settled (only_c m u))
        (λ n. at_noon)
        9
        third_time
        three
      ≡ some (after, value 77))
unfolding url_at
execute_with_fallback-works_example =
    execute_with_fallback-works (λ n. only_c) (λ n. at_noon) 2 third_time 77 9 2 three three-IsSound
      (omega arith) (λ n m. refl) (omega arith) (omega arith) two_timeouts (λ u. refl)
