-- ===== src/Elf/Constants.antt =====
-- The ELF constants of src/elf.rs, under its names.
use afs_as.Base.{ℕ, ◌∷◌, []}
use afs_as.Base.Bytes.{Bytes}

abbrev pub elfmag : Bytes
elfmag = 0x7f ∷ b'E' ∷ b'L' ∷ b'F' ∷ []

abbrev pub elfclass64 : ℕ
elfclass64 = 2

abbrev pub elfdata2lsb : ℕ
elfdata2lsb = 1

abbrev pub ev_current : ℕ
ev_current = 1

abbrev pub et_rel : ℕ
et_rel = 1

abbrev pub em_x86_64 : ℕ
em_x86_64 = 62

abbrev pub em_aarch64 : ℕ
em_aarch64 = 183

abbrev pub sht_null : ℕ
sht_null = 0

abbrev pub sht_progbits : ℕ
sht_progbits = 1

abbrev pub sht_symtab : ℕ
sht_symtab = 2

abbrev pub sht_strtab : ℕ
sht_strtab = 3

abbrev pub sht_rela : ℕ
sht_rela = 4

abbrev pub sht_nobits : ℕ
sht_nobits = 8

abbrev pub shn_undef : ℕ
shn_undef = 0

abbrev pub shn_loreserve : ℕ
shn_loreserve = 0xff00

abbrev pub shn_abs : ℕ
shn_abs = 0xfff1

abbrev pub shn_common : ℕ
shn_common = 0xfff2

abbrev pub shn_xindex : ℕ
shn_xindex = 0xffff

abbrev pub stb_local : ℕ
stb_local = 0

abbrev pub ehdr_size : ℕ
ehdr_size = 64

abbrev pub shdr_size : ℕ
shdr_size = 64

abbrev pub sym_size : ℕ
sym_size = 24

abbrev pub rela_size : ℕ
rela_size = 24
