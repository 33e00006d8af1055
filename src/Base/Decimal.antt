-- ===== src/Base/Decimal.antt =====
-- The decimal digits of fmt's %d for a uint32.
use Prim.Native.Nat.{ℕ, zero, suc, ◌+◌, ◌-◌, ◌*◌, ◌/◌, ◌%◌, ◌^◌, ◌<◌}
use mathlib.Core.Path.{◌≡◌, ap, ◌∙◌}
use mathlib.Core.Logic.{inl, inr}
use mathlib.Core.List.{[], ◌∷◌}
use native.Mathlib.Nat.{pow-suc}
use native.Mathlib.Omega.{arith}
use ztre.Base.Tests.{ltb, if◌then◌else◌, Bool-cases, ltb→lt}
use ztre.Base.Text.{GoString}

abbrev pub zero_char : ℕ
zero_char = b'0'

-- The digits of `n` in front of `acc`; a uint32 has ten at most.
unfoldable pub digits : ℕ → ℕ → GoString → GoString
digits zero n acc = acc
digits (suc fuel) n acc =
    let acc' = (zero_char + n % 10) ∷ acc in
    let rest = digits fuel (n / 10) acc' in if ltb n 10 then acc' else rest

unfoldable pub decimal : ℕ → GoString
unfolding digits
decimal n = digits 10 n []

-- The number that a text of digits stands for, after the number `n` read so far.
abbrev pub value : GoString → ℕ → ℕ
value [] n = n
value (c ∷ s) n = value s (n * 10 + (c - zero_char))

smaller : (fuel n : ℕ) → n < 10 ^ suc fuel → n / 10 < 10 ^ fuel
smaller fuel n h = let p : 10 ^ suc fuel ≡ 10 ^ fuel * 10 = pow-suc 10 fuel in omega arith

value-digits :
    (fuel n : ℕ) (acc : GoString) → n < 10 ^ fuel → value (digits fuel n acc) 0 ≡ value acc n
unfolding digits
value-digits zero n acc h = ap (value acc) (omega arith)
value-digits (suc fuel) n acc h = elim (Bool-cases (ltb n 10)) [
  | inl last ↦ rw last (ap (value acc) (omega (arith, ltb→lt n 10 last)))
  | inr more ↦ rw more (
      value-digits fuel (n / 10) ((zero_char + n % 10) ∷ acc) (smaller fuel n h)
      ∙ ap (value acc) (omega arith))
]

-- The decimal digits of a uint32 read back as the number.
pub value-decimal : (n : ℕ) → n < 2 ^ 32 → value (decimal n) 0 ≡ n
unfolding decimal
value-decimal n h = value-digits 10 n [] (omega arith)
