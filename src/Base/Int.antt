-- ===== src/Base/Int.antt =====
-- Signed integers over the native numbers, under the library's names (its ℤ stands on the unary ℕ).
-- Sums and orders go through the two parts of an integer, which are numbers that `omega` reads.
use afs_as.Base.{
  ℕ, suc, ◌+◌, ◌-◌, ◌*◌, ◌^◌, ◌≤◌, ◌<◌, ◌≡◌, refl, ◌⊎◌, Bool, true, false, ◌↔◌, ap, sym, ◌∙◌, ◌==◌,
  arith, ltb, leb, if◌then◌else◌,
}

-- `negsuc n` is -(n + 1).
pub data ℤ : Type 0 where
  pos : ℕ → ℤ
  negsuc : ℕ → ℤ

abbrev pub pos_part : ℤ → ℕ
pos_part (pos n) = n
pos_part (negsuc n) = 0

abbrev pub neg_part : ℤ → ℕ
neg_part (pos n) = 0
neg_part (negsuc n) = suc n

-- a - b, as an integer.
abbrev pub sub_ℕ : ℕ → ℕ → ℤ
sub_ℕ a b = if leb b a then pos (a - b) else negsuc (b - a - 1)

infixl 65 ◌+ℤ◌ ◌-ℤ◌
infixl 70 ◌*ℤ◌
unfoldable pub ◌+ℤ◌ : ℤ → ℤ → ℤ
a +ℤ b = sub_ℕ (pos_part a + pos_part b) (neg_part a + neg_part b)

unfoldable pub ◌-ℤ◌ : ℤ → ℤ → ℤ
a -ℤ b = sub_ℕ (pos_part a + neg_part b) (neg_part a + pos_part b)

unfoldable pub ◌*ℤ◌ : ℤ → ℤ → ℤ
a *ℤ b =
    sub_ℕ (pos_part a * pos_part b + neg_part a * neg_part b)
      (pos_part a * neg_part b + neg_part a * pos_part b)

-- One lemma for each operation lets `omega` work with the operations shut, at any depth.
pub +ℤ_parts :
    (a b : ℤ)
    → pos_part (a +ℤ b) + neg_part a + neg_part b ≡ neg_part (a +ℤ b) + pos_part a + pos_part b
unfolding ◌+ℤ◌
+ℤ_parts a b = ground arith

pub -ℤ_parts :
    (a b : ℤ)
    → pos_part (a -ℤ b) + neg_part a + pos_part b ≡ neg_part (a -ℤ b) + pos_part a + neg_part b
unfolding ◌-ℤ◌
-ℤ_parts a b = ground arith

pub eq_of_parts : (a b : ℤ) → pos_part a + neg_part b ≡ pos_part b + neg_part a → a ≡ b
eq_of_parts a b h = ground arith

pub ruleset int_laws = (arith, +ℤ_parts, -ℤ_parts, eq_of_parts)

-- The range of i64.
abbrev pub IsI64 : ℤ → Type 0
IsI64 a = (pos_part a < 2 ^ 63) × (neg_part a ≤ 2 ^ 63)

-- `a as u64`, and `w as i64`: the two's complement pattern of 64 bits.
unfoldable pub u64_of_i64 : ℤ → ℕ
u64_of_i64 (pos n) = n
u64_of_i64 (negsuc n) = 2 ^ 64 - 1 - n

unfoldable pub i64_of_u64 : ℕ → ℤ
i64_of_u64 w = if ltb w (2 ^ 63) then pos w else negsuc (2 ^ 64 - 1 - w)

pub i64_of_u64-u64_of_i64 : (a : ℤ) → IsI64 a → i64_of_u64 (u64_of_i64 a) ≡ a
unfolding i64_of_u64 u64_of_i64
i64_of_u64-u64_of_i64 (pos n) h = ground arith
i64_of_u64-u64_of_i64 (negsuc n) h = ground arith

pub u64_of_i64-lt : (a : ℤ) → IsI64 a → u64_of_i64 a < 2 ^ 64
unfolding u64_of_i64
u64_of_i64-lt (pos n) h = omega arith
u64_of_i64-lt (negsuc n) h = omega arith

-- `i64::try_from` on a wider integer.
unfoldable pub is_i64 : ℤ → Bool
is_i64 (pos n) = ltb n (2 ^ 63)
is_i64 (negsuc n) = ltb n (2 ^ 63)

pub is_i64-IsI64 : (a : ℤ) → is_i64 a ≡ true → IsI64 a
unfolding is_i64
is_i64-IsI64 (pos n) h = ground arith
is_i64-IsI64 (negsuc n) h = ground arith

pub IsI64-is_i64 : (a : ℤ) → IsI64 a → is_i64 a ≡ true
unfolding is_i64
IsI64-is_i64 (pos n) h = ground arith
IsI64-is_i64 (negsuc n) h = ground arith

-- An equation of integers, in the form that `omega` reads.
pub parts_of : {a b : ℤ} → a ≡ b → pos_part a + neg_part b ≡ pos_part b + neg_part a
parts_of {a} e = rw (← e)

pub *ℤ_parts :
    (a b : ℤ)
    → pos_part (a *ℤ b) + (pos_part a * neg_part b + neg_part a * pos_part b)
      ≡ neg_part (a *ℤ b) + (pos_part a * pos_part b + neg_part a * neg_part b)
unfolding ◌*ℤ◌
*ℤ_parts a b = ground arith

abbrev pub negate : ℤ → ℤ
negate a = pos 0 -ℤ a

pub *ℤ_comm : (a b : ℤ) → a *ℤ b ≡ b *ℤ a
*ℤ_comm a b = eq_of_parts _ _ (omega (arith, *ℤ_parts a b, *ℤ_parts b a))

pub +ℤ_distrib : (a b c : ℤ) → (a +ℤ b) *ℤ c ≡ a *ℤ c +ℤ b *ℤ c
+ℤ_distrib a b c = eq_of_parts _ _ (
    omega (
      arith,
      ap (λ (t : ℕ). t * pos_part c) (+ℤ_parts a b),
      ap (λ (t : ℕ). t * neg_part c) (+ℤ_parts a b),
      *ℤ_parts (a +ℤ b) c,
      *ℤ_parts a c,
      *ℤ_parts b c,
      +ℤ_parts (a *ℤ c) (b *ℤ c),
    ))

pub *ℤ_distrib : (a b c : ℤ) → c *ℤ (a +ℤ b) ≡ c *ℤ a +ℤ c *ℤ b
*ℤ_distrib a b c = *ℤ_comm c (a +ℤ b) ∙ +ℤ_distrib a b c ∙ rw (*ℤ_comm a c, *ℤ_comm b c)

pub *ℤ_negate : (a c : ℤ) → negate a *ℤ c ≡ negate (a *ℤ c)
*ℤ_negate a c = eq_of_parts _ _ (
    omega (
      arith,
      ap (λ (t : ℕ). t * pos_part c) (-ℤ_parts (pos 0) a),
      ap (λ (t : ℕ). t * neg_part c) (-ℤ_parts (pos 0) a),
      *ℤ_parts (negate a) c,
      *ℤ_parts a c,
      -ℤ_parts (pos 0) (a *ℤ c),
    ))

pub one-*ℤ : (a : ℤ) → pos 1 *ℤ a ≡ a
one-*ℤ a = eq_of_parts _ _ (omega (arith, *ℤ_parts (pos 1) a))

pub zero-*ℤ : (a : ℤ) → pos 0 *ℤ a ≡ pos 0
zero-*ℤ a = eq_of_parts _ _ (omega (arith, *ℤ_parts (pos 0) a))

pub minus_one-*ℤ : (a : ℤ) → negsuc 0 *ℤ a ≡ negate a
minus_one-*ℤ a = eq_of_parts _ _ (omega (arith, *ℤ_parts (negsuc 0) a, -ℤ_parts (pos 0) a))

-- `a == b` on integers.
unfoldable pub int_eq : ℤ → ℤ → Bool
int_eq (pos n) (pos m) = n == m
int_eq (negsuc n) (negsuc m) = n == m
int_eq _ _ = false

pub int_eq_iff : (a b : ℤ) → (int_eq a b ≡ true) ↔ (a ≡ b)
unfolding int_eq
int_eq_iff (pos n) (pos m) = ground arith
int_eq_iff (pos n) (negsuc m) = ground arith
int_eq_iff (negsuc n) (pos m) = ground arith
int_eq_iff (negsuc n) (negsuc m) = ground arith

-- The range of i32 and of i128.
unfoldable pub is_i32 : ℤ → Bool
is_i32 (pos n) = ltb n (2 ^ 31)
is_i32 (negsuc n) = ltb n (2 ^ 31)

unfoldable pub is_i128 : ℤ → Bool
is_i128 (pos n) = ltb n (2 ^ 127)
is_i128 (negsuc n) = ltb n (2 ^ 127)

pub *ℤ_sub : (c a b : ℤ) → c *ℤ (a -ℤ b) ≡ c *ℤ a +ℤ negate c *ℤ b
*ℤ_sub c a b = eq_of_parts _ _ (
    omega (
      arith,
      ap (λ (t : ℕ). t * pos_part c) (-ℤ_parts a b),
      ap (λ (t : ℕ). t * neg_part c) (-ℤ_parts a b),
      *ℤ_parts c (a -ℤ b),
      *ℤ_parts c a,
      *ℤ_parts (negate c) b,
      ap (λ (t : ℕ). t * pos_part b) (-ℤ_parts (pos 0) c),
      ap (λ (t : ℕ). t * neg_part b) (-ℤ_parts (pos 0) c),
      +ℤ_parts (c *ℤ a) (negate c *ℤ b),
    ))

pub negate_swap : (c v : ℤ) → negate c *ℤ v ≡ c *ℤ negate v
negate_swap c v =
    *ℤ_negate c v ∙ ap negate (*ℤ_comm c v) ∙ sym (*ℤ_negate v c) ∙ *ℤ_comm (negate v) c
