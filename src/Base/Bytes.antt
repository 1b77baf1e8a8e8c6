-- ===== src/Base/Bytes.antt =====
-- Little-endian byte strings: Rust's `to_le_bytes` and `from_le_bytes` on u16, u32 and u64.
use afs_as.Base.Tests.{ltb, if◌then◌else◌}
use afs_as.Base.Lists.{All, length, get_elem?}
use afs_as.Base.Results.{Result, ok, panic, ◌>>=◌}
use mathlib.Core.Option.{none, some}
use Prim.Native.Nat.{ℕ, zero, suc, ◌+◌, ◌*◌, ◌/◌, ◌%◌, ◌^◌, ◌≤◌, ◌<◌}
use mathlib.Core.Path.{◌≡◌, refl}
use mathlib.Core.List.{List, [], ◌∷◌, ◌++◌}
use native.Mathlib.Omega.{arith}

abbrev pub Bytes : Type 0
Bytes = List ℕ

abbrev pub IsByte : ℕ → Type 0
IsByte b = b < 256

-- The lowest `n` bytes of `v`, lowest first.
abbrev pub to_le : ℕ → ℕ → Bytes
to_le zero v = []
to_le (suc n) v = v % 256 ∷ to_le n (v / 256)

-- `from_le_bytes`.
abbrev pub from_le : Bytes → ℕ
from_le [] = 0
from_le (b ∷ bs) = b + 256 * from_le bs

pub to_le-IsByte : (n v : ℕ) → All IsByte (to_le n v)
to_le-IsByte zero v = tt
to_le-IsByte (suc n) v = (omega arith, to_le-IsByte n (v / 256))

pub le2 : (v : ℕ) → v < 2 ^ 16 → from_le (to_le 2 v) ≡ v
le2 v h = omega arith

pub le4 : (v : ℕ) → v < 2 ^ 32 → from_le (to_le 4 v) ≡ v
le4 v h = omega arith

pub le8 : (v : ℕ) → v < 2 ^ 64 → from_le (to_le 8 v) ≡ v
le8 v h = omega arith

-- `b[i]`: an index past the end is a panic.
unfoldable pub index : {E : Type 0} → Bytes → ℕ → Result E ℕ
index b i = elim (get_elem? b i) [ none ↦ panic | some x ↦ ok x ]

-- `[b[off], b[off + 1], …]`, `n` bytes.
pub read_bytes : {E : Type 0} → ℕ → Bytes → ℕ → Result E Bytes
read_bytes zero b off = ok []
read_bytes (suc n) b off = do x ← index b off; xs ← read_bytes n b (off + 1); ok (x ∷ xs)

unfoldable pub rd : {E : Type 0} → ℕ → Bytes → ℕ → Result E ℕ
unfolding read_bytes index
rd n b off = do bs ← read_bytes n b off; ok (from_le bs)

pub index_total :
    {E : Type 0} (b : Bytes) (i : ℕ) → i < length b → (x : ℕ) × (index {E = E} b i ≡ ok x)
unfolding index
index_total [] i h = absurd (omega arith)
index_total (x ∷ b) zero h = (x, refl)
index_total (x ∷ b) (suc i) h = index_total b i (omega arith)

index_shift :
    {E : Type 0} (pre ys : Bytes) (i j : ℕ)
    → i ≡ length pre + j
    → index {E = E} (pre ++ ys) i ≡ index ys j
unfolding index
index_shift [] ys i j h = let e : i ≡ j = omega arith in rw e
index_shift (x ∷ pre) ys zero j h = absurd (omega arith)
index_shift (x ∷ pre) ys (suc i) j h = index_shift pre ys i j (omega arith)

read_bytes_skip :
    {E : Type 0} (n : ℕ) (pre ys : Bytes) (i j : ℕ)
    → i ≡ length pre + j
    → read_bytes {E = E} n (pre ++ ys) i ≡ read_bytes n ys j
unfolding read_bytes
read_bytes_skip zero pre ys i j h = refl
read_bytes_skip {E} (suc n) pre ys i j h = simp (
  index_shift {E = E} pre ys i j h,
  read_bytes_skip {E = E} n pre ys (i + 1) (j + 1) (omega arith),
)

-- A field behind a prefix is the field of what follows the prefix.
pub rd_skip :
    {E : Type 0} (n : ℕ) (pre ys : Bytes) (k : ℕ)
    → rd {E = E} n (pre ++ ys) (length pre + k) ≡ rd n ys k
unfolding rd
rd_skip n pre ys k = rw (read_bytes_skip n pre ys (length pre + k) k refl)

pub rd_skip_zero :
    {E : Type 0} (n : ℕ) (pre ys : Bytes) → rd {E = E} n (pre ++ ys) (length pre) ≡ rd n ys 0
unfolding rd
rd_skip_zero n pre ys = rw (read_bytes_skip n pre ys (length pre) 0 (omega arith))

read_bytes_total :
    {E : Type 0} (n : ℕ) (b : Bytes) (off : ℕ)
    → off + n ≤ length b
    → (bs : Bytes) × (read_bytes {E = E} n b off ≡ ok bs)
unfolding read_bytes
read_bytes_total zero b off h = ([], refl)
read_bytes_total {E} (suc n) b off h =
    let (x, e) = index_total {E = E} b off (omega arith) in
    let (xs, f) = read_bytes_total {E = E} n b (off + 1) (omega arith) in (x ∷ xs, rw (e, f))

-- A field within the bytes is read without a panic.
pub rd_total :
    {E : Type 0} (n : ℕ) (b : Bytes) (off : ℕ)
    → off + n ≤ length b
    → (v : ℕ) × (rd {E = E} n b off ≡ ok v)
unfolding rd
rd_total {E} n b off h = let (bs, e) = read_bytes_total {E = E} n b off h in (from_le bs, rw e)

pub index_skip :
    {E : Type 0} (pre ys : Bytes) (k : ℕ) → index {E = E} (pre ++ ys) (length pre + k) ≡ index ys k
index_skip pre ys k = index_shift pre ys (length pre + k) k refl

-- A usize of 64 bits: an overflow of `+` is a panic, as in a build with overflow checks.
unfoldable pub usize : {E : Type 0} → ℕ → Result E ℕ
usize n = if ltb n (2 ^ 64) then ok n else panic
