-- ===== src/Elf/Writer/Header.antt =====
-- What `write_elf` of src/elf.rs puts at the start of a file leads to the section header table.
use afs_as.Base.{ℕ, ◌+◌, ◌≡◌, List, [], ◌∷◌, ◌++◌, length, drop, ok}
use afs_as.Base.Bytes.{Bytes}
use afs_as.Elf.Constants.{shdr_size, et_rel, sht_null}
use afs_as.Elf.Ehdr
use afs_as.Elf.Ehdr.{Elf64Ehdr}
use afs_as.Elf.Layout.{SectionHeaderEncoding, decode_shnum, decode_shstrndx}
use afs_as.Elf.Model.{ObjectFile}
use afs_as.Elf.Shdr
use afs_as.Elf.Shdr.{Elf64Shdr}
use afs_as.Elf.Writer.Sections.{Describes}
use afs_as.Elf.Writer.{note_count, count_relocated, write_headers}

abbrev file_header : ObjectFile → SectionHeaderEncoding → ℕ → Elf64Ehdr
file_header obj encoding e_shoff = record {
  osabi = obj.osabi;
  abiversion = 0;
  e_type = et_rel;
  e_machine = obj.machine;
  e_entry = 0;
  e_phoff = 0;
  e_shoff = e_shoff;
  e_flags = 0;
  e_phentsize = 0;
  e_phnum = 0;
  e_shentsize = shdr_size;
  e_shnum = encoding.e_shnum;
  e_shstrndx = encoding.e_shstrndx;
}

-- The section headers of a file: the null header, one for each section of the object, in order, and
-- those of the tables that the writer adds, as many as the file header and the null header say, where
-- the last one is that of the section names.
pub record IsTable (obj : ObjectFile) (h : Elf64Ehdr) (shdrs : List Elf64Shdr) : Type 0 where
  pub null : Elf64Shdr
  pub described : List Elf64Shdr
  pub added : List Elf64Shdr
  pub parts : shdrs ≡ null ∷ (described ++ added)
  pub null_type : null.sh_type ≡ sht_null
  pub sections : Describes obj.sections described
  pub tables : length added ≡ note_count obj.gnu_stack_flags + 3 + count_relocated obj.sections
  pub count : decode_shnum h.e_shnum null.sh_size ≡ length shdrs
  pub names : decode_shstrndx h.e_shstrndx null.sh_link + 1 ≡ length shdrs

-- What the file says of itself.
pub record Leads (obj : ObjectFile) (bytes : Bytes) (h : Elf64Ehdr) : Type 0 where
  pub parsed : Ehdr.parse bytes ≡ ok h
  pub machine : h.e_machine ≡ obj.machine
  pub osabi : h.osabi ≡ obj.osabi
  pub shdrs : List Elf64Shdr
  pub listed : IsTable obj h shdrs
  pub table : drop h.e_shoff bytes ≡ write_headers shdrs []

abbrev names_index : ObjectFile → ℕ
names_index obj =
    1 + length obj.sections + note_count obj.gnu_stack_flags + 2 + count_relocated obj.sections
