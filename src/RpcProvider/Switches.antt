-- ===== src/RpcProvider/Switches.antt =====
-- The network that a switch leaves.
use native.Mathlib.Nat
use alive_human.Base.{
  ℕ, suc, ◌+◌, ◌*◌, ◌%◌, ◌≤◌, ◌<◌, ◌≡◌, ◌≢◌, refl, ◌∙◌, true, false, arith, length, if◌then◌else◌,
  Option-cases, inl, inr,
}
use alive_human.RpcProvider.{Network, flag, all_true}
use alive_human.RpcProvider.Service.{next_healthy, switch_next, mark_current}
use alive_human.RpcProvider.Search.{next_healthy-flag, none_healthy}
use alive_human.RpcProvider.Counts.{
  healthy_count, healthy_count-le, healthy_count-set_flag, length-set_flag, flag-set_flag,
  length-all_true, flag-all_true,
}

-- Each address has a mark, and the current one is among them.
abbrev pub IsSound : Network → Type 0
IsSound net = (length net.healthy ≡ length net.urls) × (net.current < length net.urls)

-- How many failures may come before the address g is tried.
pub rank : ℕ → Network → ℕ
rank g net = healthy_count net.healthy + (if flag net.healthy g then 0 else suc (length net.urls))

pub rank-le : (g : ℕ) (net : Network) → IsSound net → rank g net ≤ length net.urls * 2 + 1
unfolding rank
rank-le g net (marks, inside) = ground (arith, healthy_count-le net.healthy)

pub mark_current-IsSound : (net : Network) → IsSound net → IsSound (mark_current net)
mark_current-IsSound net (marks, inside) =
    (length-set_flag net.healthy net.current false ∙ marks, inside)

pub mark_current-rank :
    (g : ℕ) (net : Network)
    → flag net.healthy net.current ≡ true
    → net.current ≢ g
    → rank g net ≡ suc (rank g (mark_current net))
unfolding rank
mark_current-rank g net on apart = ground (
  arith,
  healthy_count-set_flag net.healthy net.current on,
  flag-set_flag net.healthy net.current g false apart,
)

pub record Switched (g : ℕ) (net after : Network) : Type 0 where
  pub same : after.urls ≡ net.urls
  pub kept : after.cached ≡ net.cached
  pub sound : IsSound after
  pub on : flag after.healthy after.current ≡ true
  pub nearer : rank g after ≤ rank g net

-- When no address is marked healthy, all become so, and the first is the current one.
all_marked :
    (g : ℕ) (net : Network) (now : ℕ)
    → g < length net.urls
    → flag net.healthy g ≡ false
    → Switched g net (record net { current = 0; healthy = all_true net.urls; last_switch = now })
unfolding rank
all_marked g net now small off = record {
  same = refl;
  kept = refl;
  sound = (length-all_true net.urls, omega arith);
  on = flag-all_true net.urls 0 (omega arith);
  nearer = ground (
    arith,
    healthy_count-le (all_true net.urls),
    length-all_true net.urls,
    flag-all_true net.urls g small,
  );
}

pub switch_next-Switched :
    (g : ℕ) (net : Network) (now : ℕ)
    → IsSound net
    → g < length net.urls
    → Switched g net (switch_next net now)
unfolding switch_next rank
switch_next-Switched g net now (marks, inside) small =
    let n = length net.urls in
    let start = (net.current + 1) % n in
    elim (Option-cases (next_healthy net.healthy n n start)) [
      | inl failed ↦
          rw (failed, switch_next)
            (all_marked g net now small
              (none_healthy net.healthy n start g (omega arith) small failed))
      | inr (j, found) ↦
          let (on, room) = next_healthy-flag net.healthy n n start j (omega arith) found in
          rw (found, switch_next)
            record {
              same = refl;
              kept = refl;
              sound = (marks, room);
              on = on;
              nearer = native.Mathlib.Nat.le_refl _;
            }
    ]
