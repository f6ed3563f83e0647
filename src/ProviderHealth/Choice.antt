-- ===== src/ProviderHealth/Choice.antt =====
-- The provider that is chosen.
use native.Mathlib.Nat
use mathlib.Core.Path.{subst}
use alive_human.Base.{
  ℕ, ◌≤◌, ◌≡◌, ◌≢◌, refl, Bool, true, String, List, [], ◌∷◌, none, some, filter, head?, arith, All,
  All-head?, ◌⊎◌, inl, inr, Option-cases,
}
use alive_human.Base.Texts.{is_in, All-is_in}
use alive_human.Base.Sorting.{
  sort_by, Sorted, sort_by-Sorted, All-sort_by, sort_by-All, head_least, nil_of_head-sort_by,
}
use alive_human.ProviderHealth.Balancer.{
  Balancer, alive, response_time, fail_count, healthy_urls, urls_at, addresses, levels, best_of,
  select_best_provider,
}

-- The address is healthy, and the fastest of the healthy ones of its priority.
pub record Fastest (lb : Balancer) (p : ℕ) (u : String) : Type 0 where
  pub healthy : alive lb u ≡ true
  pub listed : is_in u (urls_at lb.priorities p) ≡ true
  pub fastest : All (λ v. response_time lb u ≤ response_time lb v) (healthy_urls lb p)

All-filter :
    (test : String → Bool) (us xs : List String)
    → All (λ u. is_in u us ≡ true) xs
    → All (λ u. (test u ≡ true) × (is_in u us ≡ true)) (filter test xs)
All-filter test us [] all = tt
All-filter test us (x ∷ xs) all = ground (arith, All-filter test us xs all.1)

Fastest-first :
    (lb : Balancer) (p : ℕ) (u : String)
    → head? (sort_by (response_time lb) (healthy_urls lb p)) ≡ some u
    → Fastest lb p u
Fastest-first lb p u first =
    let us = urls_at lb.priorities p in
    let good : String → Type 0 = λ v. (alive lb v ≡ true) × (is_in v us ≡ true) in
    let inside = All-filter (alive lb) us us (All-is_in us) in
    let (healthy, listed) =
      All-head? good (sort_by (response_time lb) (healthy_urls lb p)) u
        (sort_by-All (response_time lb) good (healthy_urls lb p) inside) first in
    record {
      healthy = healthy;
      listed = listed;
      fastest = head_least (response_time lb) (healthy_urls lb p) u first;
    }

later_levels :
    (lb : Balancer) (p : ℕ) (ps : List ℕ)
    → All (λ q. p ≤ q) ps
    → All (λ q. (healthy_urls lb q ≡ []) ⊎ (p ≤ q)) ps
later_levels lb p [] all = tt
later_levels lb p (q ∷ ps) all = (inr all.0, later_levels lb p ps all.1)

best_of-cases :
    (lb : Balancer) (ps : List ℕ)
    → Sorted (λ p. p) ps
    → ((best_of lb ps ≡ none) × All (λ p. healthy_urls lb p ≡ []) ps)
      ⊎ ((u : String) × (best_of lb ps ≡ some u)
          × (p : ℕ) × Fastest lb p u
          × All (λ q. (healthy_urls lb q ≡ []) ⊎ (p ≤ q)) ps)
unfolding best_of
best_of-cases lb [] sorted = inl (refl, tt)
best_of-cases lb (p ∷ ps) sorted =
    elim (Option-cases (head? (sort_by (response_time lb) (healthy_urls lb p)))) [
      | inl none_here ↦
          let empty = nil_of_head-sort_by (response_time lb) (healthy_urls lb p) none_here in
          elim (best_of-cases lb ps sorted.1) [
            | inl (nothing, all) ↦ inl (ground (arith, nothing), (empty, all))
            | inr (u, found, q, fast, all) ↦
                inr (u, ground (arith, found), q, fast, (inl empty, all))
          ]
      | inr (u, first) ↦ inr (
        u,
        ground arith,
        p,
        Fastest-first lb p u first,
        (inr (native.Mathlib.Nat.le_refl p), later_levels lb p ps sorted.0),
      )
    ]

-- Let the balancer choose the address u. Either u is healthy, and belongs to a priority p such that no
-- healthy address of p is faster and no healthy address has a lower number than p as its priority; or
-- no address of any priority is healthy, and no known address has failed fewer checks than u.
pub select_best_provider_lem :
    (lb : Balancer) (u : String)
    → select_best_provider lb ≡ some u
    → ((p : ℕ) × Fastest lb p u × All (λ q. (healthy_urls lb q ≡ []) ⊎ (p ≤ q)) (levels lb))
      ⊎ (All (λ q. healthy_urls lb q ≡ []) (levels lb)
          × All (λ v. fail_count lb u ≤ fail_count lb v) (addresses lb))
unfolding select_best_provider
select_best_provider_lem lb u chosen =
    elim (best_of-cases lb (sort_by (λ p. p) (levels lb)) (sort_by-Sorted (λ p. p) (levels lb))) [
      | inl (nothing, all) ↦ inr (
        All-sort_by (λ p. p) (λ q. healthy_urls lb q ≡ []) (levels lb) all,
        head_least (fail_count lb) (addresses lb) u (ground (arith, nothing)),
      )
      | inr (v, found, p, fast, all) ↦
          let same : v ≡ u = ground (arith, found) in
          inl (
            p,
            subst (Fastest lb p) same fast,
            All-sort_by (λ p. p) (λ q. (healthy_urls lb q ≡ []) ⊎ (p ≤ q)) (levels lb) all,
          )
    ]

-- There is a choice as long as there is an address.
pub select_best_provider-some :
    (lb : Balancer) → addresses lb ≢ [] → (u : String) × (select_best_provider lb ≡ some u)
unfolding select_best_provider
select_best_provider-some lb some_address =
    elim (Option-cases (best_of lb (sort_by (λ p. p) (levels lb)))) [
      | inr (u, found) ↦ (u, ground arith)
      | inl nothing ↦ elim (Option-cases (head? (sort_by (fail_count lb) (addresses lb)))) [
        | inr (u, first) ↦ (u, ground arith)
        | inl none_here ↦
            absurd (some_address (nil_of_head-sort_by (fail_count lb) (addresses lb) none_here))
      ]
    ]
