-- ===== src/Elf/Model.antt =====
-- The object model of src/elf.rs: symbols, relocations, sections and the object file.
use afs_as.Base.{ℕ, Option, some, List, [], length, ◌==◌, if◌then◌else◌}
use afs_as.Base.Bytes.{Bytes}
use afs_as.Base.Int.{ℤ}
use afs_as.Elf.Constants.{sht_progbits, sht_nobits}

-- `SymbolPlace::Section` holds a model index, not a file index.
pub data SymbolPlace : Type 0 where
  undef abs common : SymbolPlace
  section : ℕ → SymbolPlace

pub record Symbol : Type 0 where
  pub name : Bytes
  pub bind : ℕ
  pub typ : ℕ
  pub vis : ℕ
  pub place : SymbolPlace
  pub value : ℕ
  pub size : ℕ

pub record Rela : Type 0 where
  pub offset : ℕ
  pub symbol : ℕ
  pub r_type : ℕ
  pub addend : ℤ

pub record Section : Type 0 where
  pub name : Bytes
  pub sh_type : ℕ
  pub sh_flags : ℕ
  pub sh_addralign : ℕ
  pub contents : Bytes
  pub nobits_size : ℕ
  pub relas : List Rela

unfoldable pub progbits : Bytes → ℕ → ℕ → Section
progbits name flags align = record {
  name = name;
  sh_type = sht_progbits;
  sh_flags = flags;
  sh_addralign = align;
  contents = [];
  nobits_size = 0;
  relas = [];
}

-- `Section::size`
unfoldable pub size_of : Section → ℕ
size_of s = if s.sh_type == sht_nobits then s.nobits_size else length s.contents

pub record ObjectFile : Type 0 where
  pub machine : ℕ
  pub osabi : ℕ
  pub gnu_stack_flags : Option ℕ
  pub sections : List Section
  pub symbols : List Symbol

-- `ObjectFile::new`
unfoldable pub new : ℕ → ℕ → ObjectFile
new machine osabi = record {
  machine = machine;
  osabi = osabi;
  gnu_stack_flags = some 0;
  sections = [];
  symbols = [];
}
