-- ===== src/Elf/Layout.antt =====
-- The pieces that `write_elf` of src/elf.rs lays out: padding, placing and the section-count escape.
pub mod Exact
use afs_as.Base.{
  ℕ, ◌+◌, ◌-◌, ◌*◌, ◌/◌, ◌^◌, max, Bool, not, ◌||◌, ◌==◌, ◌++◌, length, replicate, leb, ltb,
  if◌then◌else◌, Result, ok, guard, ◌>>=◌, ◌>>◌,
}
use afs_as.Base.Bytes.{Bytes, usize}
use afs_as.Elf.Constants.{ehdr_size, shn_loreserve, shn_xindex}
use afs_as.Elf.Error.{
  ElfError, new, too_large_to_materialize, shstrtab_index_outside, shstrndx_exceeds_u32,
}

-- `align_up`; `div_ceil` rounds the quotient up.
unfoldable pub align_up : ℕ → ℕ → Result ElfError ℕ
align_up v align = if leb align 1 then ok v else usize ((v + (align - 1)) / align * align)

-- What the allocator answers to `try_reserve`: the length in use and the bytes to be added.
abbrev pub Allocator : Type 0
Allocator = ℕ → ℕ → Bool

unfoldable pub reserve_elf_bytes : Allocator → Bytes → ℕ → Result ElfError (Unit {0})
reserve_elf_bytes reserve bytes additional =
    guard (reserve (length bytes) additional)
      (new (too_large_to_materialize (length bytes) additional))

-- The closure `place` behind its computation of the padding: the offset in the file, and the body
-- with the padding and the bytes.
unfoldable pub place_padded : Allocator → Bytes → ℕ → Bytes → Result ElfError (ℕ × Bytes)
place_padded reserve body padding bytes = do
  reserve_elf_bytes reserve body padding
  let padded = body ++ replicate padding 0
  reserve_elf_bytes reserve padded (length bytes)
  ok (ehdr_size + length padded, padded ++ bytes)

unfoldable pub place : Allocator → Bytes → ℕ → Bytes → Result ElfError (ℕ × Bytes)
unfolding place_padded
place reserve body align bytes = do
  let here = ehdr_size + length body
  aligned ← align_up here (max align 1)
  place_padded reserve body (aligned - here) bytes

pub record SectionHeaderEncoding : Type 0 where
  pub e_shnum : ℕ
  pub e_shstrndx : ℕ
  pub null_sh_size : ℕ
  pub null_sh_link : ℕ

-- On a 64-bit target the `try_from` calls other than the one to u32 cannot fail: the branches that
-- reach them are below 0xff00, or convert a usize to u64.
unfoldable pub encode_section_header_table : ℕ → ℕ → Result ElfError SectionHeaderEncoding
encode_section_header_table section_count shstrtab_idx = do
  guard (ltb shstrtab_idx section_count) (new (shstrtab_index_outside shstrtab_idx section_count))
  let extended_count = leb shn_loreserve section_count
  let extended_shstrndx = leb shn_loreserve shstrtab_idx
  guard (not extended_shstrndx || ltb shstrtab_idx (2 ^ 32)) (new shstrndx_exceeds_u32)
  ok (record {
    e_shnum = if extended_count then 0 else section_count;
    e_shstrndx = if extended_shstrndx then shn_xindex else shstrtab_idx;
    null_sh_size = if extended_count then section_count else 0;
    null_sh_link = if extended_shstrndx then shstrtab_idx else 0;
  })

-- What the reader makes of the four fields, in `parse_elf`.
unfoldable pub decode_shnum : ℕ → ℕ → ℕ
decode_shnum e_shnum null_sh_size = if e_shnum == 0 then null_sh_size else e_shnum

unfoldable pub decode_shstrndx : ℕ → ℕ → ℕ
decode_shstrndx e_shstrndx null_sh_link =
    if e_shstrndx == shn_xindex then null_sh_link else e_shstrndx
