-- ===== src/Elf/Shdr.antt =====
-- `Elf64Shdr` of src/elf.rs, the 64 bytes of a section header.
use afs_as.Base.{
  ℕ, ◌+◌, ◌^◌, ◌<◌, ◌≡◌, refl, arith, ◌++◌, length, length-append, leb, ltb, lt→ltb, le→leb, true,
  Result, ok, err, guard, ◌>>=◌, ◌>>◌, ◌≤◌,
}
use afs_as.Base.Bytes.{Bytes, to_le, index, rd, rd_skip, rd_skip_zero, rd_total, le4, le8, usize}
use mathlib.Core.List.{append_assoc}
use afs_as.Elf.Constants.{shdr_size}
use afs_as.Elf.Error.{ElfError, at, shdr_offset_overflow, shdr_out_of_bounds}

pub record Elf64Shdr : Type 0 where
  pub sh_name : ℕ
  pub sh_type : ℕ
  pub sh_flags : ℕ
  pub sh_addr : ℕ
  pub sh_offset : ℕ
  pub sh_size : ℕ
  pub sh_link : ℕ
  pub sh_info : ℕ
  pub sh_addralign : ℕ
  pub sh_entsize : ℕ

-- What the field types of the source hold.
pub record IsFit (h : Elf64Shdr) : Type 0 where
  pub sh_name : h.sh_name < 2 ^ 32
  pub sh_type : h.sh_type < 2 ^ 32
  pub sh_flags : h.sh_flags < 2 ^ 64
  pub sh_addr : h.sh_addr < 2 ^ 64
  pub sh_offset : h.sh_offset < 2 ^ 64
  pub sh_size : h.sh_size < 2 ^ 64
  pub sh_link : h.sh_link < 2 ^ 32
  pub sh_info : h.sh_info < 2 ^ 32
  pub sh_addralign : h.sh_addralign < 2 ^ 64
  pub sh_entsize : h.sh_entsize < 2 ^ 64

-- The bytes that `write` appends to `out`.
unfoldable pub bytes_of : Elf64Shdr → Bytes
bytes_of h =
    to_le 4 h.sh_name
    ++ (to_le 4 h.sh_type
        ++ (to_le 8 h.sh_flags
            ++ (to_le 8 h.sh_addr
                ++ (to_le 8 h.sh_offset
                    ++ (to_le 8 h.sh_size
                        ++ (to_le 4 h.sh_link
                            ++ (to_le 4 h.sh_info
                                ++ (to_le 8 h.sh_addralign ++ (to_le 8 h.sh_entsize)))))))))

unfoldable pub write : Elf64Shdr → Bytes → Bytes
unfolding bytes_of
write h out = out ++ bytes_of h

unfoldable pub parse : Bytes → ℕ → Result ElfError Elf64Shdr
parse b off = do
  guard (ltb (off + shdr_size) (2 ^ 64)) (at off shdr_offset_overflow)
  guard (leb (off + shdr_size) (length b)) (at off shdr_out_of_bounds)
  x_sh_name ← rd 4 b off
  x_sh_type ← rd 4 b (off + 4)
  x_sh_flags ← rd 8 b (off + 8)
  x_sh_addr ← rd 8 b (off + 16)
  x_sh_offset ← rd 8 b (off + 24)
  x_sh_size ← rd 8 b (off + 32)
  x_sh_link ← rd 4 b (off + 40)
  x_sh_info ← rd 4 b (off + 44)
  x_sh_addralign ← rd 8 b (off + 48)
  x_sh_entsize ← rd 8 b (off + 56)
  ok (record {
    sh_name = x_sh_name;
    sh_type = x_sh_type;
    sh_flags = x_sh_flags;
    sh_addr = x_sh_addr;
    sh_offset = x_sh_offset;
    sh_size = x_sh_size;
    sh_link = x_sh_link;
    sh_info = x_sh_info;
    sh_addralign = x_sh_addralign;
    sh_entsize = x_sh_entsize;
  })

pub length-bytes_of : (h : Elf64Shdr) → length (bytes_of h) ≡ 64
unfolding bytes_of
length-bytes_of h = refl

-- A section header whose fields fit their types, written behind any bytes within 64-bit offsets and
-- followed by any others, is read back whole.
pub shdr_parse-write :
    (h : Elf64Shdr) (out rest : Bytes)
    → IsFit h
    → length out + 64 < 2 ^ 64
    → parse (write h out ++ rest) (length out) ≡ ok h
unfolding parse write usize
shdr_parse-write h out rest fits small = rw append_assoc (
    simp (room, bound, rd_skip, rd_skip_zero)
      (unfold rd index bytes_of in
        rw (
          le4 _ fits.sh_name,
          le4 _ fits.sh_type,
          le8 _ fits.sh_flags,
          le8 _ fits.sh_addr,
          le8 _ fits.sh_offset,
          le8 _ fits.sh_size,
          le4 _ fits.sh_link,
          le4 _ fits.sh_info,
          le8 _ fits.sh_addralign,
          le8 _ fits.sh_entsize,
        )))
  where
    room : ltb (length out + 64) (2 ^ 64) ≡ true
    room = lt→ltb _ _ small

    bound : leb (length out + 64) (length (out ++ (bytes_of h ++ rest))) ≡ true
    bound = le→leb _ _ (
        omega (
          arith,
          length-append out (bytes_of h ++ rest),
          length-append (bytes_of h) rest,
          length-bytes_of h,
        ))

-- Within the bytes, reading succeeds: no field is read past the end.
pub parse_total :
    (b : Bytes) (off : ℕ)
    → off + 64 < 2 ^ 64
    → off + 64 ≤ length b
    → (h : Elf64Shdr) × (parse b off ≡ ok h)
unfolding parse usize
parse_total b off small room =
    let (v0, e0) = rd_total {E = ElfError} 4 b off (omega arith) in
    let (v1, e1) = rd_total {E = ElfError} 4 b (off + 4) (omega arith) in
    let (v2, e2) = rd_total {E = ElfError} 8 b (off + 8) (omega arith) in
    let (v3, e3) = rd_total {E = ElfError} 8 b (off + 16) (omega arith) in
    let (v4, e4) = rd_total {E = ElfError} 8 b (off + 24) (omega arith) in
    let (v5, e5) = rd_total {E = ElfError} 8 b (off + 32) (omega arith) in
    let (v6, e6) = rd_total {E = ElfError} 4 b (off + 40) (omega arith) in
    let (v7, e7) = rd_total {E = ElfError} 4 b (off + 44) (omega arith) in
    let (v8, e8) = rd_total {E = ElfError} 8 b (off + 48) (omega arith) in
    let (v9, e9) = rd_total {E = ElfError} 8 b (off + 56) (omega arith) in
    (
      record {
        sh_name = v0;
        sh_type = v1;
        sh_flags = v2;
        sh_addr = v3;
        sh_offset = v4;
        sh_size = v5;
        sh_link = v6;
        sh_info = v7;
        sh_addralign = v8;
        sh_entsize = v9;
      },
      rw (lt→ltb _ _ small, le→leb _ _ room, e0, e1, e2, e3, e4, e5, e6, e7, e8, e9),
    )

-- Past the end, the entry is refused at its offset.
pub parse_short :
    (b : Bytes) (off : ℕ)
    → off + 64 < 2 ^ 64
    → length b < off + 64
    → parse b off ≡ err (at off shdr_out_of_bounds)
unfolding parse usize
parse_short b off small short = ground arith
