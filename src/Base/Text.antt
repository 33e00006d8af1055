-- ===== src/Base/Text.antt =====
-- Go strings as lists of code points (valid UTF-8, so that comparing code points orders as
-- comparing bytes does), with the operations of package strings that the program calls.
use Prim.Native.Nat.{ℕ, ◌+◌}
use Prim.Native.Char.{code}
use Prim.Native.String.{String}
use mathlib.Core.Path.{◌≡◌, refl}
use mathlib.Core.Logic.{◌↔◌}
use mathlib.Core.Bool.{Bool, true, false, ◌&&◌, ◌||◌}
use mathlib.Core.List.{List, [], ◌∷◌, map}
use native.Mathlib.Omega.{arith}
use ztre.Base.Tests.{◌==◌, ==_iff, ltb, leb, if◌then◌else◌, and-true}

abbrev pub GoString : Type 0
GoString = List ℕ

-- A string literal.
abbrev pub lit : String → GoString
lit String.[] = []
lit (String.◌∷◌ c s) = code c ∷ lit s

unfoldable pub text_eq : GoString → GoString → Bool
text_eq [] [] = true
text_eq [] (y ∷ ys) = false
text_eq (x ∷ xs) [] = false
text_eq (x ∷ xs) (y ∷ ys) = x == y && text_eq xs ys

pub text_eq_refl : (s : GoString) → text_eq s s ≡ true
unfolding text_eq
text_eq_refl [] = refl
text_eq_refl (x ∷ xs) = ground (arith, text_eq_refl xs)

pub text_eq-eq : (s t : GoString) → text_eq s t ≡ true → s ≡ t
unfolding text_eq
text_eq-eq [] [] h = refl
text_eq-eq [] (y ∷ ys) h = cc
text_eq-eq (x ∷ xs) [] h = cc
text_eq-eq (x ∷ xs) (y ∷ ys) h =
    let (p, q) = and-true (x == y) (text_eq xs ys) h in cc ((==_iff x y).0 p, text_eq-eq xs ys q)

pub text_eq_iff : (s t : GoString) → (text_eq s t ≡ true) ↔ (s ≡ t)
text_eq_iff s t = (text_eq-eq s t, λ e. rw e (text_eq_refl t))

abbrev pub is_empty : GoString → Bool
is_empty [] = true
is_empty (c ∷ s) = false

-- strings.HasPrefix(s, p), with the prefix first.
unfoldable pub has_prefix : GoString → GoString → Bool
has_prefix [] s = true
has_prefix (p ∷ ps) [] = false
has_prefix (p ∷ ps) (c ∷ s) = p == c && has_prefix ps s

-- strings.Contains(s, sub).
unfoldable pub contains : GoString → GoString → Bool
unfolding has_prefix
contains [] sub = has_prefix sub []
contains (c ∷ s) sub = has_prefix sub (c ∷ s) || contains s sub

-- strings.HasSuffix(s, suffix).
unfoldable pub has_suffix : GoString → GoString → Bool
unfolding text_eq
has_suffix [] suffix = text_eq [] suffix
has_suffix (c ∷ s) suffix = text_eq (c ∷ s) suffix || has_suffix s suffix

-- strings.ToLower: the ASCII letters, and the Unicode tables `unicode_lower` above them.
unfoldable pub to_lower : (ℕ → ℕ) → GoString → GoString
to_lower unicode_lower =
    map (λ c. if ltb c 128 then (if leb 65 c && leb c 90 then c + 32 else c) else unicode_lower c)

-- The order of Go's `<` on strings.
unfoldable pub text_lt : GoString → GoString → Bool
text_lt s [] = false
text_lt [] (y ∷ ys) = true
text_lt (x ∷ xs) (y ∷ ys) = ltb x y || (x == y && text_lt xs ys)
