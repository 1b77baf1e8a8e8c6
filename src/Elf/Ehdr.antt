-- ===== src/Elf/Ehdr.antt =====
-- `Elf64Ehdr` of src/elf.rs, the 64 bytes of the file header.
use afs_as.Base.{
  ℕ, ◌^◌, ◌<◌, ◌≤◌, ◌≡◌, ◌≢◌, refl, arith, Bool-cases, inl, inr, [], ◌∷◌, ◌++◌, length,
  length-append, leb, le→leb, leb→le, ◌==◌, true, false, Bool, ◌&&◌, Result, ok, panic, guard,
  ◌>>=◌, ◌>>◌, replicate,
}
use afs_as.Base.Bytes.{Bytes, to_le, index, rd, rd_total, index_total, le2, le4, le8}
use afs_as.Elf.Constants.{ehdr_size, shdr_size, elfmag, elfclass64, elfdata2lsb, ev_current}
use afs_as.Elf.Error.{
  ElfError, at, shorter_than_header, bad_magic, not_elfclass64, not_little_endian, bad_ei_version,
}

pub record Elf64Ehdr : Type 0 where
  pub osabi : ℕ
  pub abiversion : ℕ
  pub e_type : ℕ
  pub e_machine : ℕ
  pub e_entry : ℕ
  pub e_phoff : ℕ
  pub e_shoff : ℕ
  pub e_flags : ℕ
  pub e_phentsize : ℕ
  pub e_phnum : ℕ
  pub e_shentsize : ℕ
  pub e_shnum : ℕ
  pub e_shstrndx : ℕ

-- What the field types of the source hold.
pub record IsFit (h : Elf64Ehdr) : Type 0 where
  pub osabi : h.osabi < 2 ^ 8
  pub abiversion : h.abiversion < 2 ^ 8
  pub e_type : h.e_type < 2 ^ 16
  pub e_machine : h.e_machine < 2 ^ 16
  pub e_entry : h.e_entry < 2 ^ 64
  pub e_phoff : h.e_phoff < 2 ^ 64
  pub e_shoff : h.e_shoff < 2 ^ 64
  pub e_flags : h.e_flags < 2 ^ 32
  pub e_phentsize : h.e_phentsize < 2 ^ 16
  pub e_phnum : h.e_phnum < 2 ^ 16
  pub e_shentsize : h.e_shentsize < 2 ^ 16
  pub e_shnum : h.e_shnum < 2 ^ 16
  pub e_shstrndx : h.e_shstrndx < 2 ^ 16

-- The bytes that `write` appends to `out`; it writes the entry sizes of the format, whatever the
-- field `e_shentsize` holds.
unfoldable pub bytes_of : Elf64Ehdr → Bytes
bytes_of h =
    elfmag
    ++ ((elfclass64 ∷ elfdata2lsb ∷ ev_current ∷ h.osabi ∷ h.abiversion ∷ [])
        ++ (replicate 7 0
            ++ (to_le 2 h.e_type
                ++ (to_le 2 h.e_machine
                    ++ (to_le 4 1
                        ++ (to_le 8 h.e_entry
                            ++ (to_le 8 h.e_phoff
                                ++ (to_le 8 h.e_shoff
                                    ++ (to_le 4 h.e_flags
                                        ++ (to_le 2 ehdr_size
                                            ++ (to_le 2 h.e_phentsize
                                                ++ (to_le 2 h.e_phnum
                                                    ++ (to_le 2 shdr_size
                                                        ++ (to_le 2 h.e_shnum
                                                            ++ (to_le 2 h.e_shstrndx)))))))))))))))

unfoldable pub write : Elf64Ehdr → Bytes → Bytes
unfolding bytes_of
write h out = out ++ bytes_of h

-- `b[0..4] == ELFMAG`
magic_matches : Bytes → Bool
magic_matches (m0 ∷ m1 ∷ m2 ∷ m3 ∷ _) = m0 == 0x7f && m1 == b'E' && m2 == b'L' && m3 == b'F'
magic_matches _ = false

unfoldable pub parse : Bytes → Result ElfError Elf64Ehdr
unfolding magic_matches
parse b = do
  guard (leb ehdr_size (length b)) (at 0 shorter_than_header)
  guard (magic_matches b) (at 0 bad_magic)
  class ← index b 4
  guard (class == elfclass64) (at 4 (not_elfclass64 class))
  endian ← index b 5
  guard (endian == elfdata2lsb) (at 5 (not_little_endian endian))
  version ← index b 6
  guard (version == ev_current) (at 6 (bad_ei_version version))
  x_osabi ← index b 7
  x_abiversion ← index b 8
  x_e_type ← rd 2 b 16
  x_e_machine ← rd 2 b 18
  x_e_entry ← rd 8 b 24
  x_e_phoff ← rd 8 b 32
  x_e_shoff ← rd 8 b 40
  x_e_flags ← rd 4 b 48
  x_e_phentsize ← rd 2 b 54
  x_e_phnum ← rd 2 b 56
  x_e_shentsize ← rd 2 b 58
  x_e_shnum ← rd 2 b 60
  x_e_shstrndx ← rd 2 b 62
  ok (record {
    osabi = x_osabi;
    abiversion = x_abiversion;
    e_type = x_e_type;
    e_machine = x_e_machine;
    e_entry = x_e_entry;
    e_phoff = x_e_phoff;
    e_shoff = x_e_shoff;
    e_flags = x_e_flags;
    e_phentsize = x_e_phentsize;
    e_phnum = x_e_phnum;
    e_shentsize = x_e_shentsize;
    e_shnum = x_e_shnum;
    e_shstrndx = x_e_shstrndx;
  })

pub length-bytes_of : (h : Elf64Ehdr) → length (bytes_of h) ≡ 64
unfolding bytes_of
length-bytes_of h = refl

-- A file header whose fields fit their types, at the start of a file, is read back whole, if it
-- holds the entry size that `write` puts there.
pub ehdr_parse-write :
    (h : Elf64Ehdr) (rest : Bytes)
    → IsFit h
    → h.e_shentsize ≡ shdr_size
    → parse (write h [] ++ rest) ≡ ok h
unfolding parse write
ehdr_parse-write h rest fits size = rw bound (
    unfold rd index in
    rw
      (
        le2 _ fits.e_type,
        le2 _ fits.e_machine,
        le8 _ fits.e_entry,
        le8 _ fits.e_phoff,
        le8 _ fits.e_shoff,
        le4 _ fits.e_flags,
        le2 _ fits.e_phentsize,
        le2 _ fits.e_phnum,
        le2 _ fits.e_shnum,
        le2 _ fits.e_shstrndx,
      )
      (rw (← size)))
  where
    bound : leb ehdr_size (length (bytes_of h ++ rest)) ≡ true
    bound = le→leb _ _ (omega (arith, length-append (bytes_of h) rest, length-bytes_of h))

-- No file makes the reading of its header panic: the header is read, or the file is refused.
pub parse-ne-panic : (b : Bytes) → parse b ≢ panic
unfolding parse
parse-ne-panic b e = elim (Bool-cases (leb ehdr_size (length b))) [
  | inr short ↦ cc (rw short at e)
  | inl long ↦
      let room : 64 ≤ length b = leb→le _ _ long in
      let (v4, e4) = index_total {E = ElfError} b 4 (omega arith) in
      let (v5, e5) = index_total {E = ElfError} b 5 (omega arith) in
      let (v6, e6) = index_total {E = ElfError} b 6 (omega arith) in
      let (v7, e7) = index_total {E = ElfError} b 7 (omega arith) in
      let (v8, e8) = index_total {E = ElfError} b 8 (omega arith) in
      let (v16, e16) = rd_total {E = ElfError} 2 b 16 (omega arith) in
      let (v18, e18) = rd_total {E = ElfError} 2 b 18 (omega arith) in
      let (v24, e24) = rd_total {E = ElfError} 8 b 24 (omega arith) in
      let (v32, e32) = rd_total {E = ElfError} 8 b 32 (omega arith) in
      let (v40, e40) = rd_total {E = ElfError} 8 b 40 (omega arith) in
      let (v48, e48) = rd_total {E = ElfError} 4 b 48 (omega arith) in
      let (v54, e54) = rd_total {E = ElfError} 2 b 54 (omega arith) in
      let (v56, e56) = rd_total {E = ElfError} 2 b 56 (omega arith) in
      let (v58, e58) = rd_total {E = ElfError} 2 b 58 (omega arith) in
      let (v60, e60) = rd_total {E = ElfError} 2 b 60 (omega arith) in
      let (v62, e62) = rd_total {E = ElfError} 2 b 62 (omega arith) in
      ground (
        arith,
        rw (long, e4, e5, e6, e7, e8, e16, e18, e24, e32, e40, e48, e54, e56, e58, e60, e62) at e,
      )
]
