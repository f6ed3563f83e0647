-- ===== src/Base/Results.antt =====
-- Fallible code: a value or the error that was thrown, for each component's type of errors. A chain
-- of calls that may throw is a do block.
use mathlib.Core.Bool.{Bool}
use mathlib.Core.Option.{Option, none, some}
use mathlib.Core.Path.{◌≡◌, refl}
use mathlib.Core.Logic.{◌⊎◌, inl, inr}
use alive_human.Base.Tests.{if◌then◌else◌}

pub data Fallible {ℓ} (E : Type 0) (A : Type ℓ) : Type ℓ where
  err : E → Fallible E A
  ok : A → Fallible E A

infixl 5 ◌>>=◌ ◌>>◌
abbrev pub ◌>>=◌ {ℓ κ} :
    {E : Type 0} {A : Type ℓ} {B : Type κ} → Fallible E A → (A → Fallible E B) → Fallible E B
err thrown >>= next = err thrown
ok value >>= next = next value

abbrev pub ◌>>◌ {ℓ} :
    {E : Type 0} {B : Type ℓ} → Fallible E (Unit {0}) → Fallible E B → Fallible E B
err thrown >> next = err thrown
ok _ >> next = next

-- A missing value throws.
abbrev pub or_error {ℓ} : {E : Type 0} {A : Type ℓ} → Option A → E → Fallible E A
or_error (some value) thrown = ok value
or_error none thrown = err thrown

-- A guard that throws where the test is false.
abbrev pub require : {E : Type 0} → Bool → E → Fallible E (Unit {0})
require test thrown = if test then ok tt else err thrown

pub Fallible-cases {ℓ} :
    {E : Type 0} {A : Type ℓ} (r : Fallible E A) → ((e : E) × (r ≡ err e)) ⊎ ((a : A) × (r ≡ ok a))
Fallible-cases (err e) = inl (e, refl)
Fallible-cases (ok a) = inr (a, refl)
