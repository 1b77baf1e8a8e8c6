-- ===== src/X86/Mem/Bits.antt =====
-- The bytes of `encode_mem` of src/x86/encode.rs as numbers: a disjoint `|` is a sum.
use afs_as.Base.{ℕ, ◌+◌, ◌*◌, ◌%◌, ◌^◌, ◌<◌, ◌≡◌, refl, ◌∙◌, ap, true, some, [], ◌∷◌, ◌++◌, arith}
use afs_as.Base.Bits.{bit_or-disjoint, bit_and-mask}
use afs_as.Base.Bytes.{Bytes, to_le, from_le, le4}
use afs_as.Base.Int.{ℤ, pos, negsuc, is_i32}
use afs_as.X86.Rex.{shl}
use afs_as.X86.Mem.{fields, pattern, is_i8}
use afs_as.X86.Mem.Decode.{signed, read_disp8, read_disp32}
use Prim.Native.Nat.{bit_and, bit_or}

shl_low : (k a : ℕ) → a * 2 ^ k < 256 → shl a k ≡ a * 2 ^ k
shl_low k a h = omega (arith, h)

pub fields_sum : (a b c : ℕ) → a < 4 → b < 8 → c < 8 → fields a b c ≡ a * 64 + b * 8 + c
unfolding fields
fields_sum a b c ha hb hc =
    let e : shl a 6 ≡ (a * 8) * 2 ^ 3 = omega (arith, ha) in
    let e' : shl a 6 ≡ a * 2 ^ 6 = omega (arith, ha) in
    let f : shl b 3 ≡ b * 2 ^ 3 = omega (arith, hb) in
    let g : bit_or (a * 2 ^ 6) (b * 2 ^ 3) ≡ a * 2 ^ 6 + b * 2 ^ 3 =
      bit_or-disjoint 6 a (b * 2 ^ 3) (omega (arith, hb)) in
    let s : a * 2 ^ 6 + b * 2 ^ 3 ≡ (a * 8 + b) * 2 ^ 3 = omega arith in
    rw (e', f, g, s) (omega (arith, bit_or-disjoint 3 (a * 8 + b) c (omega (arith, hc))))

pub low_fields : (b c : ℕ) → b < 8 → c < 8 → bit_or (shl b 3) c ≡ b * 8 + c
low_fields b c hb hc =
    let f : shl b 3 ≡ b * 2 ^ 3 = omega (arith, hb) in
    rw f (omega (arith, bit_or-disjoint 3 b c (omega (arith, hc))))

pub low_three : (n : ℕ) → bit_and n 7 ≡ n % 8
low_three n = bit_and-mask 3 n

pub signed-pattern8 : (v : ℤ) → is_i8 v ≡ true → signed 7 (pattern 8 v) ≡ v
unfolding is_i8 signed pattern
signed-pattern8 (pos n) h = ground arith
signed-pattern8 (negsuc n) h = ground arith

pub pattern-lt : (v : ℤ) → pattern 32 v < 2 ^ 32
unfolding pattern
pattern-lt (pos n) = omega arith
pattern-lt (negsuc n) = omega arith

pub signed-pattern32 : (v : ℤ) → is_i32 v ≡ true → signed 31 (pattern 32 v) ≡ v
unfolding is_i32 signed pattern
signed-pattern32 (pos n) h = ground arith
signed-pattern32 (negsuc n) h = ground arith

pub read_disp8-pattern :
    (v : ℤ) (s : Bytes) → is_i8 v ≡ true → read_disp8 ((pattern 8 v ∷ []) ++ s) ≡ some (v, s)
unfolding read_disp8
read_disp8-pattern v s h = rw (signed-pattern8 v h) refl

pub read_disp32-pattern :
    (v : ℤ) (s : Bytes) → is_i32 v ≡ true → read_disp32 (to_le 4 (pattern 32 v) ++ s) ≡ some (v, s)
unfolding read_disp32
read_disp32-pattern v s h =
    let e : from_le (to_le 4 (pattern 32 v)) ≡ pattern 32 v = le4 (pattern 32 v) (pattern-lt v) in
    let f : signed 31 (from_le (to_le 4 (pattern 32 v))) ≡ v =
      ap (signed 31) e ∙ signed-pattern32 v h in
    ap (λ (d : ℤ). some (d, s)) f
