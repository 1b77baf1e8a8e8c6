-- ===== src/Base/Bits.antt =====
-- Laws of the bit operations at variables: a disjoint `|` is a sum, and a mask is a remainder.
use Prim.Native.Nat.{
  ℕ, zero, suc, ◌+◌, ◌-◌, ◌*◌, ◌/◌, ◌%◌, ◌^◌, ◌≤◌, ◌<◌, min, max, bit_and, bit_or, digits,
  bit_and-bitwise, bit_or-bitwise,
}
use mathlib.Core.Path.{◌≡◌, ◌∙◌, refl, ap}
use native.Mathlib.Nat.{pow-suc, div-add-mod', mod-lt}
use native.Mathlib.Omega.{arith}

-- Any digit-wise operation: `over` is what is left once the first number has run out, and `join` acts
-- on two digits. The libraries define the native operations this way.
module _ (over : ℕ → ℕ) (join : ℕ → ℕ → ℕ) where
  enough : (n m a b : ℕ) → a ≤ n → a ≤ m → digits over join n a b ≡ digits over join m a b
  enough zero zero zero b small room = refl
  enough zero (suc m) zero b small room = refl
  enough (suc n) zero zero b small room = refl
  enough (suc n) (suc m) zero b small room = refl
  enough zero m (suc a) b small room = absurd (omega arith)
  enough (suc n) zero (suc a) b small room = absurd (omega arith)
  enough (suc n) (suc m) (suc a) b small room =
      let rest = enough n m (suc a / 2) (b / 2) (omega arith) (omega arith) in
      ap (λ (t : ℕ). t * 2 + join (suc a % 2) (b % 2)) rest

  -- One digit is split off, if `over` and `join` agree on a first digit 0.
  split_digit :
      (a b : ℕ)
      → over b ≡ over (b / 2) * 2 + join 0 (b % 2)
      → digits over join a a b ≡ digits over join (a / 2) (a / 2) (b / 2) * 2 + join (a % 2) (b % 2)
  split_digit zero b agree = agree
  split_digit (suc a) b agree =
      let rest = enough a (suc a / 2) (suc a / 2) (b / 2) (omega arith) (omega arith) in
      ap (λ (t : ℕ). t * 2 + join (suc a % 2) (b % 2)) rest

bit_and_step : (a b : ℕ) → bit_and a b ≡ bit_and (a / 2) (b / 2) * 2 + min (a % 2) (b % 2)
bit_and_step a b =
    rw (bit_and-bitwise a b, bit_and-bitwise (a / 2) (b / 2))
      (split_digit (λ d. 0) min a b (omega arith))

pub bit_or_step : (a b : ℕ) → bit_or a b ≡ bit_or (a / 2) (b / 2) * 2 + max (a % 2) (b % 2)
bit_or_step a b =
    rw (bit_or-bitwise a b, bit_or-bitwise (a / 2) (b / 2))
      (split_digit (λ d. d) max a b (omega arith))

-- An operation that maps 0 and 0 to 0, one digit at a time, is settled by induction on the number.
by_halves :
    (op val : ℕ → ℕ)
    → op 0 ≡ val 0
    → ((a : ℕ) → op (a / 2) ≡ val (a / 2) → op a ≡ val a)
    → (n a : ℕ) → a ≤ n
    → op a ≡ val a
by_halves op val base more n zero h = base
by_halves op val base more zero (suc a) h = absurd (omega arith)
by_halves op val base more (suc n) (suc a) h =
    more (suc a) (by_halves op val base more n (suc a / 2) (omega arith))

pub bit_or-zero : (a : ℕ) → bit_or a 0 ≡ a
bit_or-zero a =
    by_halves (λ x. bit_or x 0) (λ x. x) refl (λ x rest. omega (arith, bit_or_step x 0, rest)) a a
      (omega arith)

bit_and-zero : (a : ℕ) → bit_and a 0 ≡ 0
bit_and-zero a =
    by_halves (λ x. bit_and x 0) (λ x. 0) refl (λ x rest. omega (arith, bit_and_step x 0, rest)) a a
      (omega arith)

pow_pos : (k : ℕ) → 0 < 2 ^ k
pow_pos zero = omega arith
pow_pos (suc k) = omega (arith, pow-suc 2 k, pow_pos k)

or_double : (p b : ℕ) → bit_or p (b / 2) ≡ p + b / 2 → bit_or (p * 2) b ≡ p * 2 + b
or_double p b h =
    let e : p * 2 / 2 ≡ p = omega arith in omega (arith, bit_or_step (p * 2) b, rw (← e) at h)

and_double :
    (p m b : ℕ) → bit_and (p + b / 2) m ≡ b / 2 → bit_and ((p + b / 2) * 2 + b % 2) (m * 2 + 1) ≡ b
and_double p m b h =
    let e : ((p + b / 2) * 2 + b % 2) / 2 ≡ p + b / 2 = omega arith in
    let f : (m * 2 + 1) / 2 ≡ m = omega arith in
    bit_and_step ((p + b / 2) * 2 + b % 2) (m * 2 + 1) ∙ rw (e, f, h) (omega arith)

-- `hi | lo`, where `lo` lies below the lowest bit of `hi`.
pub bit_or-disjoint : (k a b : ℕ) → b < 2 ^ k → bit_or (a * 2 ^ k) b ≡ a * 2 ^ k + b
bit_or-disjoint zero a b h =
    let e : b ≡ 0 = omega arith in rw e (omega (arith, bit_or-zero (a * 1)))
bit_or-disjoint (suc k) a b h =
    let e : a * 2 ^ suc k ≡ a * 2 ^ k * 2 = omega (arith, ap (λ (t : ℕ). a * t) (pow-suc 2 k)) in
    rw e (or_double (a * 2 ^ k) b (bit_or-disjoint k a (b / 2) (omega (arith, pow-suc 2 k))))

bit_and-low : (k a b : ℕ) → b < 2 ^ k → bit_and (a * 2 ^ k + b) (2 ^ k - 1) ≡ b
bit_and-low zero a b h =
    let e : b ≡ 0 = omega arith in rw e (omega (arith, bit_and-zero (a * 1 + 0)))
bit_and-low (suc k) a b h =
    let e : a * 2 ^ suc k + b ≡ (a * 2 ^ k + b / 2) * 2 + b % 2 =
      omega (arith, ap (λ (t : ℕ). a * t) (pow-suc 2 k)) in
    let m : 2 ^ suc k - 1 ≡ (2 ^ k - 1) * 2 + 1 = omega (arith, pow-suc 2 k, pow_pos k) in
    rw (e, m)
      (and_double (a * 2 ^ k) (2 ^ k - 1) b (bit_and-low k a (b / 2) (omega (arith, pow-suc 2 k))))

-- `x & (2^k - 1)` keeps the low `k` bits.
pub bit_and-mask : (k x : ℕ) → bit_and x (2 ^ k - 1) ≡ x % 2 ^ k
bit_and-mask k x =
    rw (div-add-mod' x (2 ^ k)) at (bit_and-low k (x / 2 ^ k) (x % 2 ^ k) (mod-lt x (pow_pos k)))
