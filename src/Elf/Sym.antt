-- ===== src/Elf/Sym.antt =====
-- `Elf64Sym` of src/elf.rs, the 24 bytes of a symbol table entry.
use afs_as.Base.{
  ℕ, ◌+◌, ◌^◌, ◌<◌, ◌≡◌, refl, arith, [], ◌∷◌, ◌++◌, length, length-append, leb, ltb, lt→ltb,
  le→leb, true, Result, ok, err, guard, ◌>>=◌, ◌>>◌, ◌*◌, ◌/◌, ◌%◌, ◌≤◌,
}
use afs_as.Base.Bytes.{
  Bytes, to_le, index, rd, rd_skip, rd_skip_zero, rd_total, index_total, index_skip, le2, le4, le8,
  usize,
}
use afs_as.Base.{◌∙◌}
use afs_as.Base.Bits.{bit_or-disjoint, bit_and-mask}
use Prim.Native.Nat.{bit_and, bit_or}
use mathlib.Core.List.{append_assoc}
use afs_as.Elf.Constants.{sym_size}
use afs_as.Elf.Error.{ElfError, at, symbol_entry_out_of_bounds}

pub record Elf64Sym : Type 0 where
  pub st_name : ℕ
  pub st_info : ℕ
  pub st_other : ℕ
  pub st_shndx : ℕ
  pub st_value : ℕ
  pub st_size : ℕ

-- What the field types of the source hold.
pub record IsFit (h : Elf64Sym) : Type 0 where
  pub st_name : h.st_name < 2 ^ 32
  pub st_info : h.st_info < 2 ^ 8
  pub st_other : h.st_other < 2 ^ 8
  pub st_shndx : h.st_shndx < 2 ^ 16
  pub st_value : h.st_value < 2 ^ 64
  pub st_size : h.st_size < 2 ^ 64

-- The bytes that `write` appends to `out`.
unfoldable pub bytes_of : Elf64Sym → Bytes
bytes_of h =
    to_le 4 h.st_name
    ++ (h.st_info ∷ []
        ++ (h.st_other ∷ [] ++ (to_le 2 h.st_shndx ++ (to_le 8 h.st_value ++ (to_le 8 h.st_size)))))

unfoldable pub write : Elf64Sym → Bytes → Bytes
unfolding bytes_of
write h out = out ++ bytes_of h

unfoldable pub parse : Bytes → ℕ → Result ElfError Elf64Sym
parse b off = do
  end ← usize (off + sym_size)
  guard (leb end (length b)) (at off symbol_entry_out_of_bounds)
  x_st_name ← rd 4 b off
  x_st_info ← index b (off + 4)
  x_st_other ← index b (off + 5)
  x_st_shndx ← rd 2 b (off + 6)
  x_st_value ← rd 8 b (off + 8)
  x_st_size ← rd 8 b (off + 16)
  ok (record {
    st_name = x_st_name;
    st_info = x_st_info;
    st_other = x_st_other;
    st_shndx = x_st_shndx;
    st_value = x_st_value;
    st_size = x_st_size;
  })

pub length-bytes_of : (h : Elf64Sym) → length (bytes_of h) ≡ 24
unfolding bytes_of
length-bytes_of h = refl

-- A symbol entry whose fields fit their types, written behind any bytes within 64-bit offsets and
-- followed by any others, is read back whole.
pub sym_parse-write :
    (h : Elf64Sym) (out rest : Bytes)
    → IsFit h
    → length out + 24 < 2 ^ 64
    → parse (write h out ++ rest) (length out) ≡ ok h
unfolding parse write usize
sym_parse-write h out rest fits small = rw append_assoc (
    simp (room, bound, rd_skip, rd_skip_zero, index_skip)
      (unfold rd index bytes_of in
        rw (le4 _ fits.st_name, le2 _ fits.st_shndx, le8 _ fits.st_value, le8 _ fits.st_size)))
  where
    room : ltb (length out + 24) (2 ^ 64) ≡ true
    room = lt→ltb _ _ small

    bound : leb (length out + 24) (length (out ++ (bytes_of h ++ rest))) ≡ true
    bound = le→leb _ _ (
        omega (
          arith,
          length-append out (bytes_of h ++ rest),
          length-append (bytes_of h) rest,
          length-bytes_of h,
        ))

-- Within the bytes, reading succeeds: no field is read past the end.
pub parse_total :
    (b : Bytes) (off : ℕ)
    → off + 24 < 2 ^ 64
    → off + 24 ≤ length b
    → (h : Elf64Sym) × (parse b off ≡ ok h)
unfolding parse usize
parse_total b off small room =
    let (v0, e0) = rd_total {E = ElfError} 4 b off (omega arith) in
    let (v1, e1) = index_total {E = ElfError} b (off + 4) (omega arith) in
    let (v2, e2) = index_total {E = ElfError} b (off + 5) (omega arith) in
    let (v3, e3) = rd_total {E = ElfError} 2 b (off + 6) (omega arith) in
    let (v4, e4) = rd_total {E = ElfError} 8 b (off + 8) (omega arith) in
    let (v5, e5) = rd_total {E = ElfError} 8 b (off + 16) (omega arith) in
    (
      record {
        st_name = v0;
        st_info = v1;
        st_other = v2;
        st_shndx = v3;
        st_value = v4;
        st_size = v5;
      },
      rw (lt→ltb _ _ small, le→leb _ _ room, e0, e1, e2, e3, e4, e5),
    )

-- Past the end, the entry is refused at its offset.
pub parse_short :
    (b : Bytes) (off : ℕ)
    → off + 24 < 2 ^ 64
    → length b < off + 24
    → parse b off ≡ err (at off symbol_entry_out_of_bounds)
unfolding parse usize
parse_short b off small short = ground arith

unfoldable pub bind : Elf64Sym → ℕ
bind s = s.st_info / 2 ^ 4

unfoldable pub typ : Elf64Sym → ℕ
typ s = bit_and s.st_info 0xf

-- `(bind << 4) | (typ & 0xf)`, on bytes.
unfoldable pub info : ℕ → ℕ → ℕ
info bind typ = bit_or (bind * 2 ^ 4 % 2 ^ 8) (bit_and typ 0xf)

info_sum : (b t : ℕ) → info b t ≡ b % 16 * 2 ^ 4 + t % 16
unfolding info
info_sum b t =
    let e : b * 2 ^ 4 % 2 ^ 8 ≡ b % 16 * 2 ^ 4 = omega arith in
    rw (e, bit_and-mask 4 t) (bit_or-disjoint 4 (b % 16) (t % 16) (omega arith))

-- A byte packed from two numbers below 16 gives both back, and fits a byte.
pub st_info_fields :
    (s : Elf64Sym) (b t : ℕ)
    → b < 16
    → t < 16
    → s.st_info ≡ info b t
    → (bind s ≡ b) × (typ s ≡ t) × (info b t < 2 ^ 8)
unfolding bind typ
st_info_fields s b t hb ht e =
    let sum = info_sum b t in (omega arith, bit_and-mask 4 s.st_info ∙ omega arith, omega arith)
