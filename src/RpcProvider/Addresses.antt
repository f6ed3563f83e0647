-- ===== src/RpcProvider/Addresses.antt =====
-- The addresses of a network as the constructor leaves them.
use text.Mathlib.TextEquality.{eq_iff}
use mathlib.Core.Path.{subst}
use alive_human.Base.Texts.{is_in}
use alive_human.Base.{
  ◌<◌, ◌≡◌, refl, sym, true, false, ◌||◌, String, List, [], ◌∷◌, Option, arith, length, str_eq,
  Bool-cases, inl, inr,
}
use alive_human.RpcProvider.{unique, with_first, initialize}
use alive_human.RpcProvider.Counts.{length-all_true}
use alive_human.RpcProvider.Switches.{IsSound}

-- No address is empty, none is there twice.
pub Proper : List String → Type 0
Proper [] = Unit {0}
Proper (u ∷ us) = (str_eq u "" ≡ false) × (is_in u us ≡ false) × Proper us

-- What has been seen is not there again.
unique-seen :
    (seen us : List String) (x : String) → is_in x seen ≡ true → is_in x (unique seen us) ≡ false
unfolding unique
unique-seen seen [] x old = refl
unique-seen seen (u ∷ us) x old =
    let again = unique-seen seen us x old in
    let later = unique-seen (u ∷ seen) us x (ground (arith, old)) in ground (arith, eq_iff u x)

unique-dropped :
    (seen us : List String) (u : String)
    → (str_eq u "" || is_in u seen) ≡ true
    → unique seen (u ∷ us) ≡ unique seen us
unfolding unique
unique-dropped seen us u drop = ground arith

unique-added :
    (seen us : List String) (u : String)
    → (str_eq u "" || is_in u seen) ≡ false
    → unique seen (u ∷ us) ≡ u ∷ unique (u ∷ seen) us
unfolding unique
unique-added seen us u keep = ground arith

unique-Proper : (seen us : List String) → Proper (unique seen us)
unfolding Proper unique
unique-Proper seen [] = tt
unique-Proper seen (u ∷ us) = elim (Bool-cases (str_eq u "" || is_in u seen)) [
  | inl drop ↦ subst Proper (sym (unique-dropped seen us u drop)) (unique-Proper seen us)
  | inr keep ↦ subst Proper (sym (unique-added seen us u keep)) (
    ground arith,
    unique-seen (u ∷ seen) us u (ground (arith, eq_iff u u)),
    unique-Proper (u ∷ seen) us,
  )
]

-- Every address that is not empty stays.
unique-kept :
    (seen us : List String) (x : String)
    → str_eq x "" ≡ false
    → is_in x us ≡ true
    → (is_in x (unique seen us) || is_in x seen) ≡ true
unfolding unique
unique-kept seen [] x full there = ground arith
unique-kept seen (u ∷ us) x full there =
    let same = unique-kept seen us x full in
    let more = unique-kept (u ∷ seen) us x full in grind (arith, eq_iff u x)

is_in-length : (x : String) (us : List String) → is_in x us ≡ true → 0 < length us
is_in-length x [] there = ground arith
is_in-length x (u ∷ us) there = omega arith

-- Let x be an address, not empty, among the defaults of a network, the first of which is replaced by
-- that of the environment if it has one. Then the constructor leaves a network in which every address
-- has a mark and the current one is among them, in which no address is empty or there twice, and
-- which has x.
pub initialize-IsSound :
    (env : Option String) (defaults : List String) (x : String)
    → str_eq x "" ≡ false
    → is_in x (with_first env defaults) ≡ true
    → IsSound (initialize env defaults)
      × Proper (initialize env defaults).urls
      × (is_in x (initialize env defaults).urls ≡ true)
unfolding initialize
initialize-IsSound env defaults x full there =
    let urls = unique [] (with_first env defaults) in
    let kept = unique-kept [] (with_first env defaults) x full there in
    let here : is_in x urls ≡ true = ground (arith, kept) in
    (
      (length-all_true urls, is_in-length x urls here),
      unique-Proper [] (with_first env defaults),
      here,
    )
