-- ===== src/RateLimiter/Dynamic.antt =====
-- Dynamic limits: how far they move, and between which bounds.
use Prim.Native.Nat.{min, max}
use alive_human.Base.{
  ℕ, ◌+◌, ◌*◌, ◌-◌, ◌≡◌, ◌∙◌, ◌≤◌, String, List, [], ◌∷◌, arith, ltb, ◌==◌, if◌then◌else◌,
}
use alive_human.Base.Dict.{lookup-insert_self}
use alive_human.RateLimiter.{
  RateLimiter, finite, get_resource_limit, set_resource_limit, update_dynamic_limits,
}

set_resource_limit_lem :
    (l : RateLimiter) (resource : String) (n : ℕ)
    → 1 ≤ n
    → get_resource_limit (set_resource_limit l resource (finite n)) resource ≡ finite n
unfolding set_resource_limit get_resource_limit
set_resource_limit_lem l resource n h =
    ground (arith, lookup-insert_self resource (finite n) l.resource_limits)

-- The limit that one update is meant to leave: from n, under the default limit m.
pub adjusted : ℕ → ℕ → ℕ → ℕ
adjusted usage n m =
    if ltb (9 * n) (10 * usage)
    then (if n == 1 then 1 else n - 1)
    else (if ltb (2 * usage) n then (if n == 2 * m then n else n + 1) else n)

adjusted_bounds :
    (usage n m : ℕ) → 1 ≤ n → n ≤ 2 * m → (1 ≤ adjusted usage n m) × (adjusted usage n m ≤ 2 * m)
unfolding adjusted
adjusted_bounds usage n m low high = ground arith

update_dynamic_limits-adjusted :
    (l : RateLimiter) (resource : String) (usage n m : ℕ)
    → l.max_requests ≡ finite m
    → 1 ≤ n
    → n ≤ 2 * m
    → get_resource_limit l resource ≡ finite n
    → get_resource_limit (update_dynamic_limits l resource usage) resource
      ≡ finite (adjusted usage n m)
unfolding update_dynamic_limits adjusted
update_dynamic_limits-adjusted l resource usage n m default low high e = ground (
  arith,
  set_resource_limit_lem l resource (max 1 (n - 1)),
  set_resource_limit_lem l resource (min (m * 2) (n + 1)),
)

pub update_all : RateLimiter → String → List ℕ → RateLimiter
update_all l resource [] = l
update_all l resource (usage ∷ usages) =
    update_all (update_dynamic_limits l resource usage) resource usages

pub adjusted_all : ℕ → ℕ → List ℕ → ℕ
adjusted_all n m [] = n
adjusted_all n m (usage ∷ usages) = adjusted_all (adjusted usage n m) m usages

update-max_requests :
    (l : RateLimiter) (resource : String) (usage : ℕ)
    → (update_dynamic_limits l resource usage).max_requests ≡ l.max_requests
unfolding update_dynamic_limits set_resource_limit
update-max_requests l resource usage = ground arith

-- Through any sequence of usage reports for a resource, from a limit n between 1 and twice the
-- default limit m: each report above 90 % of the limit in force lowers it by one, down to 1; each
-- below 50 % raises it by one, up to 2 * m; others keep it. So it stays between 1 and 2 * m.
pub update_all_lem :
    (l : RateLimiter) (resource : String) (usages : List ℕ) (n m : ℕ)
    → l.max_requests ≡ finite m
    → 1 ≤ n
    → n ≤ 2 * m
    → get_resource_limit l resource ≡ finite n
    → (get_resource_limit (update_all l resource usages) resource
        ≡ finite (adjusted_all n m usages))
      × (1 ≤ adjusted_all n m usages)
      × (adjusted_all n m usages ≤ 2 * m)
unfolding update_all adjusted_all
update_all_lem l resource [] n m default low high e = (e, low, high)
update_all_lem l resource (usage ∷ usages) n m default low high e =
    let bounds = adjusted_bounds usage n m low high in
    update_all_lem (update_dynamic_limits l resource usage) resource usages (adjusted usage n m) m
      (update-max_requests l resource usage ∙ default) bounds.0 bounds.1
      (update_dynamic_limits-adjusted l resource usage n m default low high e)
