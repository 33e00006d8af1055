-- ===== src/Float64.antt =====
-- Go's float64 as an interface: the operations that the risk and decision engines use, and the laws
-- of IEEE 754 that their theorems rest on, each of which holds with NaN and the infinities too.
use ztre.Base.{
  ℕ, zero, suc, ◌^◌, ◌==◌, leb, if◌then◌else◌, ℤ, pos, negsuc, ◌≤ℤ◌, ◌≤◌, ◌+◌, ◌*◌, ◌/◌, ◌≡◌, Bool,
  true, arith, leb_ℤ, ltb_ℤ, pos_part, neg_part, sub_ℕ,
}

pub record Float64 : Type 1 where
  pub Num : Type 0
  -- float64(n)
  pub of_int : ℤ → Num
  -- The literal that is n thousandths.
  pub thousandths : ℤ → Num
  pub add : Num → Num → Num
  pub sub : Num → Num → Num
  pub mul : Num → Num → Num
  pub div : Num → Num → Num
  -- math.Sqrt
  pub sqrt : Num → Num
  -- math.Abs
  pub abs : Num → Num
  pub lt : Num → Num → Bool
  pub le : Num → Num → Bool

abbrev pub zero_of : (f : Float64) → f.Num
zero_of f = f.of_int (pos 0)

-- Rounding is monotone. The bounds on the factors keep a product off infinity times zero.
pub record IsIeee (f : Float64) : Type 0 where
  pub le_lt_trans : (a b c : f.Num) → f.le a b ≡ true → f.lt b c ≡ true → f.lt a c ≡ true
  pub lt_le_trans : (a b c : f.Num) → f.lt a b ≡ true → f.le b c ≡ true → f.lt a c ≡ true
  pub of_int_mono : (m n : ℤ) → m ≤ℤ n → f.le (f.of_int m) (f.of_int n) ≡ true
  pub add_mono_left :
      (a b c : f.Num)
      → f.le (zero_of f) a ≡ true
      → f.le a b ≡ true
      → f.le (zero_of f) c ≡ true
      → f.le (f.add a c) (f.add b c) ≡ true
  pub add_mono_right :
      (a b c : f.Num)
      → f.le (zero_of f) a ≡ true
      → f.le a b ≡ true
      → f.le (zero_of f) c ≡ true
      → f.le (f.add c a) (f.add c b) ≡ true
  pub mul_mono :
      (w a b : f.Num) (m : ℕ)
      → f.le (zero_of f) w ≡ true
      → f.le w (f.of_int (pos m)) ≡ true
      → f.le (zero_of f) a ≡ true
      → f.le a b ≡ true
      → f.le b (f.of_int (pos m)) ≡ true
      → f.le (f.mul w a) (f.mul w b) ≡ true
  pub add_nonneg :
      (a b : f.Num)
      → f.le (zero_of f) a ≡ true
      → f.le (zero_of f) b ≡ true
      → f.le (zero_of f) (f.add a b) ≡ true
  pub mul_nonneg :
      (w a : f.Num) (m : ℕ)
      → f.le (zero_of f) w ≡ true
      → f.le w (f.of_int (pos m)) ≡ true
      → f.le (zero_of f) a ≡ true
      → f.le a (f.of_int (pos m)) ≡ true
      → f.le (zero_of f) (f.mul w a) ≡ true

-- Fixed-point numbers in thousandths, on which the models run: a value is thousandths of one, and a
-- product is rounded toward zero.
abbrev fixed_sub : ℤ → ℤ → ℤ
fixed_sub a b = sub_ℕ (pos_part a + neg_part b) (neg_part a + pos_part b)

abbrev fixed_add : ℤ → ℤ → ℤ
fixed_add a b = sub_ℕ (pos_part a + pos_part b) (neg_part a + neg_part b)

abbrev fixed_scale : ℕ → ℤ → ℤ
fixed_scale k (pos n) = pos (k * n)
fixed_scale k (negsuc n) = sub_ℕ 0 (k * (n + 1))

abbrev fixed_mul : ℤ → ℤ → ℤ
fixed_mul (pos a) (pos b) = pos (a * b / 1000)
fixed_mul (pos a) (negsuc b) = sub_ℕ 0 (a * (b + 1) / 1000)
fixed_mul (negsuc a) (pos b) = sub_ℕ 0 ((a + 1) * b / 1000)
fixed_mul (negsuc a) (negsuc b) = pos ((a + 1) * (b + 1) / 1000)

-- A quotient is rounded toward zero, and one by zero is zero.
abbrev fixed_div : ℤ → ℤ → ℤ
fixed_div (pos a) (pos b) = if b == 0 then pos 0 else pos (a * 1000 / b)
fixed_div (pos a) (negsuc b) = sub_ℕ 0 (a * 1000 / (b + 1))
fixed_div (negsuc a) (pos b) = if b == 0 then pos 0 else sub_ℕ 0 ((a + 1) * 1000 / b)
fixed_div (negsuc a) (negsuc b) = pos ((a + 1) * 1000 / (b + 1))

-- The whole square root, bit by bit from the given one down.
abbrev pub root_bits : ℕ → ℕ → ℕ → ℕ
root_bits zero acc n = acc
root_bits (suc b) acc n =
    let t = acc + 2 ^ b in
    let high = root_bits b t n in let low = root_bits b acc n in if leb (t * t) n then high else low

abbrev fixed_sqrt : ℤ → ℤ
fixed_sqrt (pos n) = pos (root_bits 40 0 (n * 1000))
fixed_sqrt (negsuc n) = pos 0

abbrev fixed_abs : ℤ → ℤ
fixed_abs (pos n) = pos n
fixed_abs (negsuc n) = pos (n + 1)

abbrev pub fixed : Float64
fixed = record {
  Num = ℤ;
  of_int = fixed_scale 1000;
  thousandths = λ n. n;
  add = fixed_add;
  sub = fixed_sub;
  mul = fixed_mul;
  div = fixed_div;
  sqrt = fixed_sqrt;
  abs = fixed_abs;
  lt = ltb_ℤ;
  le = leb_ℤ;
}

fixed-le_lt : (a b c : ℤ) → leb_ℤ a b ≡ true → ltb_ℤ b c ≡ true → ltb_ℤ a c ≡ true
fixed-le_lt a b c h k = ground arith

fixed-lt_le : (a b c : ℤ) → ltb_ℤ a b ≡ true → leb_ℤ b c ≡ true → ltb_ℤ a c ≡ true
fixed-lt_le a b c h k = ground arith

fixed-of_int : (m n : ℤ) → m ≤ℤ n → leb_ℤ (fixed_scale 1000 m) (fixed_scale 1000 n) ≡ true
fixed-of_int (pos m) (pos n) h = ground arith
fixed-of_int (pos m) (negsuc n) h = absurd (omega arith)
fixed-of_int (negsuc m) (pos n) h = ground arith
fixed-of_int (negsuc m) (negsuc n) h = ground arith

fixed-add_left : (a b c : ℤ) → leb_ℤ a b ≡ true → leb_ℤ (fixed_add a c) (fixed_add b c) ≡ true
fixed-add_left a b c h = ground arith

fixed-add_right : (a b c : ℤ) → leb_ℤ a b ≡ true → leb_ℤ (fixed_add c a) (fixed_add c b) ≡ true
fixed-add_right a b c h = ground arith

fixed-add_nonneg :
    (a b : ℤ)
    → leb_ℤ (pos 0) a ≡ true
    → leb_ℤ (pos 0) b ≡ true
    → leb_ℤ (pos 0) (fixed_add a b) ≡ true
fixed-add_nonneg a b h k = ground arith

scaled_le : (w a b : ℕ) → a ≤ b → w * a / 1000 ≤ w * b / 1000
scaled_le w a b h = let p : w * a ≤ w * b = grind arith in omega arith

fixed-mul_mono :
    (w a b : ℤ)
    → leb_ℤ (pos 0) w ≡ true
    → leb_ℤ (pos 0) a ≡ true
    → leb_ℤ a b ≡ true
    → leb_ℤ (fixed_mul w a) (fixed_mul w b) ≡ true
fixed-mul_mono (pos w) (pos a) (pos b) h k l = ground (arith, scaled_le w a b)
fixed-mul_mono (pos w) (pos a) (negsuc b) h k l = ground arith
fixed-mul_mono (pos w) (negsuc a) b h k l = ground arith
fixed-mul_mono (negsuc w) a b h k l = ground arith

fixed-mul_nonneg :
    (w a : ℤ)
    → leb_ℤ (pos 0) w ≡ true
    → leb_ℤ (pos 0) a ≡ true
    → leb_ℤ (pos 0) (fixed_mul w a) ≡ true
fixed-mul_nonneg (pos w) (pos a) h k = ground arith
fixed-mul_nonneg (pos w) (negsuc a) h k = ground arith
fixed-mul_nonneg (negsuc w) a h k = ground arith

pub fixed-IsIeee : IsIeee fixed
fixed-IsIeee = record {
  le_lt_trans = fixed-le_lt;
  lt_le_trans = fixed-lt_le;
  of_int_mono = fixed-of_int;
  add_mono_left = λ a b c _ h _. fixed-add_left a b c h;
  add_mono_right = λ a b c _ h _. fixed-add_right a b c h;
  mul_mono = λ w a b m h _ k l _. fixed-mul_mono w a b h k l;
  add_nonneg = fixed-add_nonneg;
  mul_nonneg = λ w a m h _ k _. fixed-mul_nonneg w a h k;
}
