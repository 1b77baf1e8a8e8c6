-- ===== src/Elf/Error.antt =====
-- `ElfError` of src/elf.rs: an offset, when parsing, and a message. A message is a constructor with
-- the values that the source formats into its text.
use afs_as.Base.{ℕ, Option, none, some}
use afs_as.Base.Bytes.{Bytes}

pub data Message : Type 0 where
  shorter_than_header bad_magic : Message
  not_elfclass64 not_little_endian bad_ei_version : ℕ → Message
  shdr_offset_overflow shdr_out_of_bounds : Message
  symbol_entry_out_of_bounds rela_entry_out_of_bounds : Message
  string_offset_out_of_bounds unterminated_string non_utf8_string : Message
  alignment_not_power_of_two : Bytes → ℕ → Message
  symbol_index_out_of_range : Bytes → ℕ → ℕ → ℕ → Message
  unsupported_machine : ℕ → Message
  unknown_relocation_type : Bytes → ℕ → ℕ → ℕ → Message
  relocation_in_nobits : Bytes → Message
  rela_out_of_section_bounds : Bytes → ℕ → ℕ → ℕ → Message
  section_index_out_of_range : ℕ → Bytes → ℕ → Message
  shstrtab_index_outside : ℕ → ℕ → Message
  shstrndx_exceeds_u32 section_count_overflows : Message
  too_large_to_materialize : ℕ → ℕ → Message
  shdr_table_size_overflows output_size_overflows : Message

pub record ElfError : Type 0 where
  pub offset : Option ℕ
  pub message : Message

abbrev pub at : ℕ → Message → ElfError
at off m = record { offset = some off; message = m }

abbrev pub new : Message → ElfError
new m = record { offset = none; message = m }
