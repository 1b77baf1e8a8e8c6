-- ===== src/Elf/Rela.antt =====
-- `Elf64Rela` of src/elf.rs, the 24 bytes of a relocation entry.
use afs_as.Base.{
  ℕ, ◌+◌, ◌^◌, ◌<◌, ◌≡◌, refl, arith, ◌++◌, length, length-append, leb, ltb, lt→ltb, le→leb, true,
  Result, ok, err, guard, ◌>>=◌, ◌>>◌, ◌*◌, ◌/◌, ◌%◌, ◌≤◌,
}
use afs_as.Base.Bytes.{Bytes, to_le, index, rd, rd_skip, rd_skip_zero, rd_total, le8, usize}
use afs_as.Base.Int.{ℤ, IsI64, u64_of_i64, i64_of_u64, i64_of_u64-u64_of_i64, u64_of_i64-lt}
use afs_as.Base.Bits.{bit_or-disjoint}
use Prim.Native.Nat.{bit_or}
use mathlib.Core.List.{append_assoc}
use afs_as.Elf.Constants.{rela_size}
use afs_as.Elf.Error.{ElfError, at, rela_entry_out_of_bounds}

pub record Elf64Rela : Type 0 where
  pub r_offset : ℕ
  pub r_info : ℕ
  pub r_addend : ℤ

-- What the field types of the source hold.
pub record IsFit (h : Elf64Rela) : Type 0 where
  pub r_offset : h.r_offset < 2 ^ 64
  pub r_info : h.r_info < 2 ^ 64
  pub r_addend : IsI64 h.r_addend

-- The bytes that `write` appends to `out`.
unfoldable pub bytes_of : Elf64Rela → Bytes
bytes_of h = to_le 8 h.r_offset ++ (to_le 8 h.r_info ++ (to_le 8 (u64_of_i64 h.r_addend)))

unfoldable pub write : Elf64Rela → Bytes → Bytes
unfolding bytes_of
write h out = out ++ bytes_of h

unfoldable pub parse : Bytes → ℕ → Result ElfError Elf64Rela
parse b off = do
  end ← usize (off + rela_size)
  guard (leb end (length b)) (at off rela_entry_out_of_bounds)
  x_r_offset ← rd 8 b off
  x_r_info ← rd 8 b (off + 8)
  x_r_addend ← rd 8 b (off + 16)
  ok (record { r_offset = x_r_offset; r_info = x_r_info; r_addend = i64_of_u64 x_r_addend })

pub length-bytes_of : (h : Elf64Rela) → length (bytes_of h) ≡ 24
unfolding bytes_of
length-bytes_of h = refl

-- A relocation entry whose fields fit their types, written behind any bytes within 64-bit offsets and
-- followed by any others, is read back whole.
pub rela_parse-write :
    (h : Elf64Rela) (out rest : Bytes)
    → IsFit h
    → length out + 24 < 2 ^ 64
    → parse (write h out ++ rest) (length out) ≡ ok h
unfolding parse write usize
rela_parse-write h out rest fits small = rw append_assoc (
    simp (room, bound, rd_skip, rd_skip_zero)
      (unfold rd index bytes_of in
        rw (
          le8 _ fits.r_offset,
          le8 _ fits.r_info,
          le8 _ (u64_of_i64-lt _ fits.r_addend),
          i64_of_u64-u64_of_i64 _ fits.r_addend,
        )))
  where
    room : ltb (length out + 24) (2 ^ 64) ≡ true
    room = lt→ltb _ _ small

    bound : leb (length out + 24) (length (out ++ (bytes_of h ++ rest))) ≡ true
    bound = le→leb _ _ (
        omega (
          arith,
          length-append out (bytes_of h ++ rest),
          length-append (bytes_of h) rest,
          length-bytes_of h,
        ))

-- Within the bytes, reading succeeds: no field is read past the end.
pub parse_total :
    (b : Bytes) (off : ℕ)
    → off + 24 < 2 ^ 64
    → off + 24 ≤ length b
    → (h : Elf64Rela) × (parse b off ≡ ok h)
unfolding parse usize
parse_total b off small room =
    let (v0, e0) = rd_total {E = ElfError} 8 b off (omega arith) in
    let (v1, e1) = rd_total {E = ElfError} 8 b (off + 8) (omega arith) in
    let (v2, e2) = rd_total {E = ElfError} 8 b (off + 16) (omega arith) in
    (
      record { r_offset = v0; r_info = v1; r_addend = i64_of_u64 v2 },
      rw (lt→ltb _ _ small, le→leb _ _ room, e0, e1, e2),
    )

-- Past the end, the entry is refused at its offset.
pub parse_short :
    (b : Bytes) (off : ℕ)
    → off + 24 < 2 ^ 64
    → length b < off + 24
    → parse b off ≡ err (at off rela_entry_out_of_bounds)
unfolding parse usize
parse_short b off small short = ground arith

-- `(self.r_info >> 32) as u32`
unfoldable pub sym : Elf64Rela → ℕ
sym r = r.r_info / 2 ^ 32 % 2 ^ 32

-- `self.r_info as u32`
unfoldable pub r_type : Elf64Rela → ℕ
r_type r = r.r_info % 2 ^ 32

unfoldable pub info : ℕ → ℕ → ℕ
info sym r_type = bit_or (sym * 2 ^ 32 % 2 ^ 64) r_type

-- A word packed from a symbol index and a type below 2^32 gives both back, and fits 64 bits.
pub r_info_fields :
    (r : Elf64Rela) (s t : ℕ)
    → s < 2 ^ 32
    → t < 2 ^ 32
    → r.r_info ≡ info s t
    → (sym r ≡ s) × (r_type r ≡ t) × (info s t < 2 ^ 64)
unfolding sym r_type info
r_info_fields r s t hs ht e =
    let w : s * 2 ^ 32 % 2 ^ 64 ≡ s * 2 ^ 32 = omega arith in
    let sum : bit_or (s * 2 ^ 32 % 2 ^ 64) t ≡ s * 2 ^ 32 + t = rw w (bit_or-disjoint 32 s t ht) in
    (omega arith, omega arith, omega arith)
