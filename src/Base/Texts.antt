-- ===== src/Base/Texts.antt =====
-- Texts compared without regard to the case of the letters A to Z, appended, and cut after a prefix.
use Prim.Native.Nat.{ℕ, zero, suc, ◌+◌, ◌-◌}
use Prim.Native.Char.{Char, code}
use Prim.Native.String.{String, ◌++◌ as append, len, slice}
use text.Mathlib.Text.{starts_with}
use text.Mathlib.TextPositions.{starts_with-append, len-append, slice-append_right}
use mathlib.Core.Path.{◌≡◌, refl, sym, subst, ap, ◌∙◌}
use mathlib.Core.Option.{Option, none, some}
use mathlib.Core.Bool.{Bool, true, false, not, ◌&&◌, ◌||◌}
use mathlib.Core.List.{List, [], ◌∷◌}
use text.Mathlib.TextEquality.{eq_iff}
use native.Mathlib.Omega.{arith}
use alive_human.Base.Lists.{All}
use alive_human.Base.Tests.{ltb, str_eq, ◌==◌, if◌then◌else◌}

abbrev pub str_append : String → String → String
str_append s t = append s t

-- The code of the character in lower case.
abbrev pub lower_code : Char → ℕ
lower_code c = if ltb 64 (code c) && ltb (code c) 91 then code c + 32 else code c

unfoldable pub same_ignoring_case : String → String → Bool
same_ignoring_case String.[] String.[] = true
same_ignoring_case String.[] (String.◌∷◌ d t) = false
same_ignoring_case (String.◌∷◌ c s) String.[] = false
same_ignoring_case (String.◌∷◌ c s) (String.◌∷◌ d t) =
    let rest = same_ignoring_case s t in lower_code c == lower_code d && rest

-- What follows a prefix, as `startsWith` and `replace` find it.
unfoldable pub after_prefix : String → String → Option String
after_prefix prefix s = if starts_with s prefix then some (slice s (len prefix) (len s)) else none

pub after_prefix-append :
    (prefix rest : String) → after_prefix prefix (str_append prefix rest) ≡ some rest
unfolding after_prefix
after_prefix-append prefix rest =
    rw (starts_with-append prefix rest, len-append prefix rest, slice-append_right prefix rest)

abbrev pub is_in : String → List String → Bool
is_in u [] = false
is_in u (x ∷ xs) = str_eq x u || is_in u xs

pub All-is_in : (us : List String) → All (λ u. is_in u us ≡ true) us
All-is_in [] = tt
All-is_in (u ∷ us) = (ground (arith, eq_iff u u), more us (All-is_in us))
  where
    more :
        (vs : List String) → All (λ v. is_in v us ≡ true) vs → All (λ v. is_in v (u ∷ us) ≡ true) vs
    more [] all = tt
    more (v ∷ vs) all = (ground (arith, all.0), more vs all.1)

-- The n-th character of a text, or the other one past its end.
unfoldable pub char_of : String → ℕ → Char → Char
char_of String.[] n other = other
char_of (String.◌∷◌ c s) zero other = c
char_of (String.◌∷◌ c s) (suc n) other = char_of s n other

-- `toLowerCase`, of the letters A to Z.
unfoldable pub to_lower : String → String
to_lower String.[] = ""
to_lower (String.◌∷◌ c s) =
    let rest = to_lower s in
    let upper = ltb 64 (code c) && ltb (code c) 91 in
    String.◌∷◌ (if upper then char_of "abcdefghijklmnopqrstuvwxyz" (code c - 65) c else c) rest

-- A text up to its first colon.
unfoldable pub before_colon : String → String
before_colon String.[] = ""
before_colon (String.◌∷◌ c s) =
    let rest = before_colon s in if code c == 58 then "" else String.◌∷◌ c rest

-- `toUpperCase`, of the letters a to z.
unfoldable pub to_upper : String → String
to_upper String.[] = ""
to_upper (String.◌∷◌ c s) =
    let rest = to_upper s in
    let lower = ltb 96 (code c) && ltb (code c) 123 in
    String.◌∷◌ (if lower then char_of "ABCDEFGHIJKLMNOPQRSTUVWXYZ" (code c - 97) c else c) rest

-- `startsWith`, read off the characters, and `includes`.
unfoldable pub begins : String → String → Bool
begins String.[] s = true
begins (String.◌∷◌ c p) String.[] = false
begins (String.◌∷◌ c p) (String.◌∷◌ d s) = let rest = begins p s in code c == code d && rest

unfoldable pub contains : String → String → Bool
contains p String.[] = begins p ""
contains p (String.◌∷◌ c s) = let rest = contains p s in begins p (String.◌∷◌ c s) || rest

begins_self : (s : String) → begins s s ≡ true
unfolding begins
begins_self String.[] = refl
begins_self (String.◌∷◌ c s) = ground (arith, begins_self s)

pub contains_self : (s : String) → contains s s ≡ true
unfolding contains begins
contains_self String.[] = refl
contains_self (String.◌∷◌ c s) = ground (arith, begins_self (String.◌∷◌ c s))

-- A text contains what it ends in.
pub contains-append : (s p : String) → contains p (str_append s p) ≡ true
unfolding contains
contains-append String.[] p =
    subst (λ t. contains p t ≡ true) (sym (Prim.Native.String.append.nil p)) (contains_self p)
contains-append (String.◌∷◌ c s) p =
    subst (λ t. contains p t ≡ true) (sym (Prim.Native.String.append.cons c s p))
      (ground (arith, contains-append s p))

-- A text up to its first underscore, and what follows that.
unfoldable pub before_underscore : String → String
before_underscore String.[] = ""
before_underscore (String.◌∷◌ c s) =
    let rest = before_underscore s in if code c == 95 then "" else String.◌∷◌ c rest

unfoldable pub after_underscore : String → Option String
after_underscore String.[] = none
after_underscore (String.◌∷◌ c s) =
    let rest = after_underscore s in if code c == 95 then some s else rest

-- `split` at the colons: the parts between the colons.
unfoldable pub split_colon : String → List String
split_colon String.[] = "" ∷ []
split_colon (String.◌∷◌ c s) =
    let rest = split_colon s in
    if code c == 58
    then "" ∷ rest
    else elim rest [ [] ↦ [] | part ∷ parts ↦ String.◌∷◌ c part ∷ parts ]

unfoldable pub no_colon : String → Bool
no_colon String.[] = true
no_colon (String.◌∷◌ c s) = let rest = no_colon s in not (code c == 58) && rest

split_colon-whole : (s : String) → no_colon s ≡ true → split_colon s ≡ s ∷ []
unfolding split_colon no_colon
split_colon-whole String.[] h = refl
split_colon-whole (String.◌∷◌ c s) h = ground (arith, split_colon-whole s (ground arith))

split_colon-colon : (b : String) → split_colon (str_append ":" b) ≡ "" ∷ split_colon b
unfolding split_colon char_of
split_colon-colon b =
    subst (λ t. split_colon t ≡ "" ∷ split_colon b)
      (sym (
        Prim.Native.String.append.cons ":" "" b
        ∙ ap (λ t. String.◌∷◌ ":" t) (Prim.Native.String.append.nil b)))
      refl

-- Two parts without a colon, joined by one, are split again.
pub split_colon-append :
    (a b : String)
    → no_colon a ≡ true
    → no_colon b ≡ true
    → split_colon (str_append a (str_append ":" b)) ≡ a ∷ b ∷ []
unfolding split_colon no_colon
split_colon-append String.[] b first second =
    subst (λ t. split_colon t ≡ "" ∷ b ∷ [])
      (sym (Prim.Native.String.append.nil (str_append ":" b)))
      (ground (arith, split_colon-colon b, split_colon-whole b second))
split_colon-append (String.◌∷◌ c s) b first second =
    subst (λ t. split_colon t ≡ String.◌∷◌ c s ∷ b ∷ [])
      (sym (Prim.Native.String.append.cons c s (str_append ":" b)))
      (ground (arith, split_colon-append s b (ground arith) second))
