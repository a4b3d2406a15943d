-- ===== src/Base/Int.antt =====
-- The integers, and `i128` on them: the range, the saturating operations, and division that
-- truncates towards zero.
use Prim.Native.Nat.{ℕ, suc, ◌+◌, ◌-◌, ◌*◌, ◌/◌, ◌%◌, ◌≤◌}
use mathlib.Core.Path.{◌≡◌, refl}
use mathlib.Core.Bool.{Bool, true}
use mathlib.Core.Logic.{inl, inr}
use native.Mathlib.Omega.{arith}
use chainsettle_contract.Base.{false, ltb, leb, ◌==◌, if◌then◌else◌, leb→le, Bool-cases}

-- `negsuc n` is -(n + 1).
pub data ℤ : Type 0 where
  pos : ℕ → ℤ
  negsuc : ℕ → ℤ

abbrev pos_part : ℤ → ℕ
pos_part (pos n) = n
pos_part (negsuc n) = 0

abbrev neg_part : ℤ → ℕ
neg_part (pos n) = 0
neg_part (negsuc n) = suc n

abbrev sub_ℕ : ℕ → ℕ → ℤ
sub_ℕ a b = if leb b a then pos (a - b) else negsuc (b - a - 1)

infixl 65 ◌+ℤ◌ ◌-ℤ◌
infixl 70 ◌*ℤ◌ ◌/ℤ◌
infix 50 ◌≤ℤ◌ ◌<ℤ◌
unfoldable pub ◌+ℤ◌ : ℤ → ℤ → ℤ
a +ℤ b = sub_ℕ (pos_part a + pos_part b) (neg_part a + neg_part b)

unfoldable pub ◌-ℤ◌ : ℤ → ℤ → ℤ
a -ℤ b = sub_ℕ (pos_part a + neg_part b) (neg_part a + pos_part b)

unfoldable pub ◌*ℤ◌ : ℤ → ℤ → ℤ
a *ℤ b =
    sub_ℕ (pos_part a * pos_part b + neg_part a * neg_part b)
      (pos_part a * neg_part b + neg_part a * pos_part b)

-- Truncates towards zero. The program divides by positive numbers only.
unfoldable pub ◌/ℤ◌ : ℤ → ℤ → ℤ
pos a /ℤ pos b = pos (a / b)
pos a /ℤ negsuc b = sub_ℕ 0 (a / suc b)
negsuc a /ℤ pos b = sub_ℕ 0 (suc a / b)
negsuc a /ℤ negsuc b = pos (suc a / suc b)

abbrev pub ◌≤ℤ◌ : ℤ → ℤ → Type 0
a ≤ℤ b = pos_part a + neg_part b ≤ pos_part b + neg_part a

abbrev ◌<ℤ◌ : ℤ → ℤ → Type 0
a <ℤ b = suc (pos_part a + neg_part b) ≤ pos_part b + neg_part a

abbrev pub ltb_ℤ : ℤ → ℤ → Bool
ltb_ℤ a b = ltb (pos_part a + neg_part b) (pos_part b + neg_part a)

abbrev pub leb_ℤ : ℤ → ℤ → Bool
leb_ℤ a b = leb (pos_part a + neg_part b) (pos_part b + neg_part a)

abbrev pub eqb_ℤ : ℤ → ℤ → Bool
eqb_ℤ a b = (pos_part a + neg_part b) == (pos_part b + neg_part a)

abbrev pub min_ℤ : ℤ → ℤ → ℤ
min_ℤ a b = if ltb_ℤ b a then b else a

abbrev pub max_ℤ : ℤ → ℤ → ℤ
max_ℤ a b = if ltb_ℤ a b then b else a

-- `i128::MAX`, and `-i128::MIN - 1`.
abbrev pub i128_max : ℕ
i128_max = 170141183460469231731687303715884105727

abbrev pub in_i128 : ℤ → Bool
in_i128 (pos n) = leb n i128_max
in_i128 (negsuc n) = leb n i128_max

-- The nearest value of the range, which the saturating operations return.
abbrev saturate : ℤ → ℤ
saturate (pos n) = if leb n i128_max then pos n else pos i128_max
saturate (negsuc n) = if leb n i128_max then negsuc n else negsuc i128_max

unfoldable pub saturating_add : ℤ → ℤ → ℤ
saturating_add a b = saturate (a +ℤ b)

unfoldable pub saturating_sub : ℤ → ℤ → ℤ
saturating_sub a b = saturate (a -ℤ b)

unfoldable pub saturating_mul : ℤ → ℤ → ℤ
saturating_mul a b = saturate (a *ℤ b)

-- Machine words of 32 and 64 bits.
abbrev pub u32_max : ℕ
u32_max = 4294967295

abbrev pub u64_max : ℕ
u64_max = 18446744073709551615

-- `as u32` of an `i128`: the low 32 bits of the two's complement.
abbrev pub as_u32 : ℤ → ℕ
as_u32 (pos n) = n % 4294967296
as_u32 (negsuc n) = 4294967295 - n % 4294967296

pub +ℤ_parts :
    (a b : ℤ)
    → pos_part (a +ℤ b) + neg_part a + neg_part b ≡ neg_part (a +ℤ b) + pos_part a + pos_part b
unfolding ◌+ℤ◌
+ℤ_parts a b = ground arith

pub -ℤ_parts :
    (a b : ℤ)
    → pos_part (a -ℤ b) + neg_part a + pos_part b ≡ neg_part (a -ℤ b) + pos_part a + neg_part b
unfolding ◌-ℤ◌
-ℤ_parts a b = ground arith

pub eq_of_parts : (a b : ℤ) → pos_part a + neg_part b ≡ pos_part b + neg_part a → a ≡ b
eq_of_parts a b h = ground arith

-- With these `omega` and `grind` work with the operations shut.
pub ruleset int_laws = (arith, +ℤ_parts, -ℤ_parts, eq_of_parts)

-- An operand of zero or more is a natural number.
nonneg_pos : (a : ℤ) → pos 0 ≤ℤ a → a ≡ pos (pos_part a)
nonneg_pos (pos n) h = refl
nonneg_pos (negsuc n) h = absurd (omega arith)

-- Where the exact result is in range, the saturating subtraction is exact.
saturating_sub_exact : (a b : ℤ) → in_i128 (a -ℤ b) ≡ true → saturating_sub a b ≡ a -ℤ b
unfolding saturating_sub
saturating_sub_exact a b h = ground arith

saturating_mul_nonneg : (a b : ℤ) → pos 0 ≤ℤ a → pos 0 ≤ℤ b → pos 0 ≤ℤ saturating_mul a b
unfolding saturating_mul ◌*ℤ◌
saturating_mul_nonneg (pos a) (pos b) h k = ground arith
saturating_mul_nonneg (negsuc a) b h k = absurd (omega arith)
saturating_mul_nonneg (pos a) (negsuc b) h k = absurd (omega arith)

/ℤ_nonneg : (a b : ℤ) → pos 0 ≤ℤ a → pos 0 ≤ℤ b → pos 0 ≤ℤ a /ℤ b
unfolding ◌/ℤ◌
/ℤ_nonneg (pos a) (pos b) h k = omega arith
/ℤ_nonneg (negsuc a) b h k = absurd (omega arith)
/ℤ_nonneg (pos a) (negsuc b) h k = absurd (omega arith)

pub pos_add : (a b : ℕ) → pos a +ℤ pos b ≡ pos (a + b)
unfolding ◌+ℤ◌
pos_add a b = ground arith

-- A value held between zero and a bound that is not negative.
pub held_between :
    (v n : ℤ) → pos 0 ≤ℤ n → (pos 0 ≤ℤ max_ℤ (min_ℤ v n) (pos 0)) × (max_ℤ (min_ℤ v n) (pos 0) ≤ℤ n)
held_between v n h = ground arith

pub pos_mul : (a b : ℕ) → pos a *ℤ pos b ≡ pos (a * b)
unfolding ◌*ℤ◌
pos_mul a b = ground arith

pub pos_sub : (a b : ℕ) → b ≤ a → pos a -ℤ pos b ≡ pos (a - b)
unfolding ◌-ℤ◌
pos_sub a b h = ground arith

pub pos_div : (a b : ℕ) → pos a /ℤ pos b ≡ pos (a / b)
unfolding ◌/ℤ◌
pos_div a b = refl

-- A saturating product of natural numbers is one, no larger than the exact product and in range.
pub pos_saturating_mul :
    (a b : ℕ) → (n : ℕ) × (saturating_mul (pos a) (pos b) ≡ pos n) × (n ≤ a * b) × (n ≤ i128_max)
unfolding saturating_mul
pos_saturating_mul a b = rw (pos_mul a b) (elim (Bool-cases (leb (a * b) i128_max)) [
  | inl inside ↦ rw inside ((a * b, refl, omega arith, leb→le (a * b) i128_max inside))
  | inr outside ↦ rw outside ((i128_max, refl, ground arith, omega arith))
])

-- In range the saturating product is exact.
pub saturating_mul_exact :
    (a b : ℕ) → a * b ≤ i128_max → saturating_mul (pos a) (pos b) ≡ pos (a * b)
unfolding saturating_mul
saturating_mul_exact a b h = rw (pos_mul a b) (ground arith)

-- Between zero and the largest value.
abbrev pub IsAmount : ℤ → Type 0
IsAmount a = (pos 0 ≤ℤ a) × (a ≤ℤ pos i128_max)

pub IsAmount-in_i128 : (a : ℤ) → IsAmount a → in_i128 a ≡ true
IsAmount-in_i128 (pos a) h = ground arith
IsAmount-in_i128 (negsuc a) h = absurd (omega arith)

pub saturating_sub_amount : (a b : ℤ) → IsAmount (a -ℤ b) → saturating_sub a b ≡ a -ℤ b
saturating_sub_amount a b h = saturating_sub_exact a b (IsAmount-in_i128 (a -ℤ b) h)

-- `a ≡ b` as an equation that `omega` reads.
infix 4 ◌≈◌
abbrev pub ◌≈◌ : ℤ → ℤ → Type 0
a ≈ b = pos_part a + neg_part b ≡ pos_part b + neg_part a

pub ≈_of_eq : {a b : ℤ} → a ≡ b → a ≈ b
≈_of_eq {a} {b} h = rw h refl

pub in_i128-le : (a : ℤ) → in_i128 a ≡ true → a ≤ℤ pos i128_max
in_i128-le a h = ground arith

-- What the guards `amount <= 0` and `a < b` leave.
pub is_positive : (a : ℤ) → leb_ℤ a (pos 0) ≡ false → pos 1 ≤ℤ a
is_positive a h = ground arith

pub not_less : (a b : ℤ) → ltb_ℤ a b ≡ false → b ≤ℤ a
not_less a b h = ground arith

-- What is free of `a` after `b`, both amounts, is exact.
pub free_amount : (a b : ℤ) → b ≤ℤ a → pos 0 ≤ℤ b → a ≤ℤ pos i128_max → saturating_sub a b ≡ a -ℤ b
free_amount a b l n m = saturating_sub_amount a b (omega int_laws, omega int_laws)

pub saturating_add_exact : (a b : ℤ) → in_i128 (a +ℤ b) ≡ true → saturating_add a b ≡ a +ℤ b
unfolding saturating_add
saturating_add_exact a b h = ground arith
