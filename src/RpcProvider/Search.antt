-- ===== src/RpcProvider/Search.antt =====
-- The search for a healthy address.
use native.Mathlib.Nat
use mathlib.Core.Path.{subst}
use alive_human.Base.{
  ℕ, zero, suc, ◌+◌, ◌-◌, ◌%◌, ◌≤◌, ◌<◌, ◌≡◌, sym, Bool, true, false, List, none, some, arith,
  Bool-cases, ltb, inl, inr, ap, ◌∙◌, ◌⊎◌,
}
use alive_human.RpcProvider.{flag}
use alive_human.RpcProvider.Service.{next_healthy}

mod_step : (j d n : ℕ) → ((j + 1) % n + d) % n ≡ (j + suc d) % n
mod_step j d n = native.Mathlib.Nat.mod-add-mod (j + 1) n d ∙ ap (λ x. x % n) (omega arith)

first_stop : (j n : ℕ) → j < n → (j + 0) % n ≡ j
first_stop j n lt = grind (arith, native.Mathlib.Nat.mod-eq_of_lt lt)

lt-or-ge : (m n : ℕ) → (m < n) ⊎ (n ≤ m)
lt-or-ge m n = elim (Bool-cases (ltb m n)) [
  | inl less ↦ inl (ground arith)
  | inr more ↦ inr (ground arith)
]

-- Going round from j reaches g.
distance : (n j g : ℕ) → j < n → g < n → (d : ℕ) × (d < n) × ((j + d) % n ≡ g)
distance n j g lt small = elim (lt-or-ge g j) [
  | inl less ↦ (
    n + g - j,
    omega arith,
    ap (λ x. x % n) (omega arith)
        ∙ native.Mathlib.Nat.add-mod_right g n
        ∙ native.Mathlib.Nat.mod-eq_of_lt small,
  )
  | inr more ↦
      (g - j, omega arith, ap (λ x. x % n) (omega arith) ∙ native.Mathlib.Nat.mod-eq_of_lt small)
]

pub next_healthy-flag :
    (healthy : List Bool) (n left j k : ℕ)
    → j < n
    → next_healthy healthy n left j ≡ some k
    → (flag healthy k ≡ true) × (k < n)
unfolding next_healthy
next_healthy-flag healthy n zero j k lt found = cc
next_healthy-flag healthy n (suc left) j k lt found = elim (Bool-cases (flag healthy j)) [
  | inl on ↦ ground arith
  | inr off ↦ next_healthy-flag healthy n left ((j + 1) % n) k (omega arith) (ground arith)
]

pub next_healthy-none :
    (healthy : List Bool) (n left d j : ℕ)
    → j < n
    → d < left
    → next_healthy healthy n left j ≡ none
    → flag healthy ((j + d) % n) ≡ false
unfolding next_healthy
next_healthy-none healthy n zero d j lt room failed = ground arith
next_healthy-none healthy n (suc left) zero j lt room failed =
    subst (λ i. flag healthy i ≡ false) (sym (first_stop j n lt))
      (elim (Bool-cases (flag healthy j)) [ inl on ↦ ground arith | inr off ↦ off ])
next_healthy-none healthy n (suc left) (suc d) j lt room failed =
    subst (λ i. flag healthy i ≡ false) (mod_step j d n)
      (elim (Bool-cases (flag healthy j)) [
        | inl on ↦ ground arith
        | inr off ↦
            next_healthy-none healthy n left d ((j + 1) % n) (omega arith) (omega arith)
              (ground arith)
      ])

-- A search of the whole ring that finds nothing has seen every address.
pub none_healthy :
    (healthy : List Bool) (n j g : ℕ)
    → j < n
    → g < n
    → next_healthy healthy n n j ≡ none
    → flag healthy g ≡ false
none_healthy healthy n j g lt small failed =
    let (d, room, lands) = distance n j g lt small in
    subst (λ i. flag healthy i ≡ false) lands (next_healthy-none healthy n n d j lt room failed)
