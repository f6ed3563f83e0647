-- ===== src/ProviderHealth/Tests.antt =====
-- The theorems about a provider's health on a new provider.
use alive_human.Base.{
  ℕ, ◌≤◌, ◌≡◌, ◌⊎◌, refl, false, String, List, [], ◌∷◌, none, some, All, ok, str_eq, if◌then◌else◌,
}
use alive_human.Base.Dict.{lookup, insert}
use alive_human.Base.Sorting.{sort_by, insert_by}
use alive_human.ProviderHealth.{ProviderHealth, Probe, check, new_health, answered}
use alive_human.ProviderHealth.Balancer.{
  Balancer, ProviderOptions, create, add_all, add_url, fail_count, healthy_urls, best_of,
  select_best_provider, check_health,
}
use alive_human.ProviderHealth.Choice.{Fastest, select_best_provider_lem}

abbrev fresh : ProviderHealth
fresh = new_health "https://polygon-rpc.com/" 1 0

abbrev down : ProviderHealth
down = record fresh { is_alive = false; fail_count = 3 }

-- Two addresses of the first priority and one of the second.
abbrev options : List ProviderOptions
options =
    record { url = "a"; priority = none }
    ∷ record { url = "b"; priority = some 1 }
    ∷ record { url = "c"; priority = some 2 }
    ∷ []

abbrev balancer : Balancer
balancer = record {
  health = ("a", new_health "a" 1 0) ∷ ("b", new_health "b" 1 0) ∷ ("c", new_health "c" 2 0) ∷ [];
  priorities = (1, "a" ∷ "b" ∷ []) ∷ (2, "c" ∷ []) ∷ [];
}

made : create 0 options ≡ ok balancer
unfolding create add_all insert add_url
made = refl

-- b is faster than a.
abbrev b_faster : String → Probe
b_faster u = if str_eq u "b" then answered 20 30 else answered 80 30

chosen : select_best_provider (check_health b_faster balancer) ≡ some "b"
unfolding select_best_provider best_of check_health sort_by insert_by lookup check
chosen = refl

select_best_provider_lem_example :
    ((p : ℕ) × Fastest (check_health b_faster balancer) p "b"
      × All (λ q. (healthy_urls (check_health b_faster balancer) q ≡ []) ⊎ (p ≤ q)) (1 ∷ 2 ∷ []))
    ⊎ (All (λ q. healthy_urls (check_health b_faster balancer) q ≡ []) (1 ∷ 2 ∷ [])
        × All
            (λ v.
              fail_count (check_health b_faster balancer) "b"
              ≤ fail_count (check_health b_faster balancer) v)
            ("a" ∷ "b" ∷ "c" ∷ []))
unfolding check_health
select_best_provider_lem_example =
    select_best_provider_lem (check_health b_faster balancer) "b" chosen
