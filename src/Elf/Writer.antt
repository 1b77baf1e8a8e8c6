-- ===== src/Elf/Writer.antt =====
-- `write_elf` of src/elf.rs: an object model to the bytes of an ELF64 relocatable file.
pub mod Header
pub mod Sections
use afs_as.Base.{
  ℕ, ◌+◌, ◌-◌, ◌*◌, ◌%◌, ◌^◌, max, Option, none, some, List, [], ◌∷◌, ◌++◌, length, replicate,
  get_elem?, ltb, ◌==◌, if◌then◌else◌, Result, ok, panic, guard, ◌>>=◌, ◌>>◌,
}
use afs_as.Base.Bytes.{Bytes, index}
use afs_as.Base.Text.{text}
use afs_as.Elf.Constants.{
  ehdr_size, shdr_size, sym_size, rela_size, et_rel, sht_null, sht_progbits, sht_symtab, sht_strtab,
  sht_rela, sht_nobits, shn_undef,
}
use afs_as.Elf.Error.{
  ElfError, new, section_count_overflows, shdr_table_size_overflows, output_size_overflows,
}
use afs_as.Elf.Ehdr
use afs_as.Elf.Shdr
use afs_as.Elf.Shdr.{Elf64Shdr}
use afs_as.Elf.Sym
use afs_as.Elf.Rela
use afs_as.Elf.Strtab
use afs_as.Elf.Strtab.{StringTable}
use afs_as.Elf.Model
use afs_as.Elf.Model.{Symbol, Section, ObjectFile}
use afs_as.Elf.Validate.{validate}
use afs_as.Elf.SymbolOrder.{order, first_global, model_to_file, file_shndx, shndx_of}
use afs_as.Elf.Layout.{
  align_up, Allocator, reserve_elf_bytes, place, SectionHeaderEncoding, encode_section_header_table,
}

-- `v[i]` on a vector of the model.
unfoldable pub element : {A : Type 0} → List A → ℕ → Result ElfError A
element xs i = elim (get_elem? xs i) [ none ↦ panic | some x ↦ ok x ]

-- The names of the symbols in file order.
unfoldable pub names_in : List Symbol → List ℕ → Result ElfError (List Bytes)
names_in ss [] = ok []
names_in ss (i ∷ is) = do s ← element ss i; rest ← names_in ss is; ok (s.name ∷ rest)

-- The entry of one symbol.
unfoldable pub symbol_entry : ℕ → Symbol → Sym.Elf64Sym
symbol_entry name s = record {
  st_name = name;
  st_info = Sym.info s.bind s.typ;
  st_other = s.vis;
  st_shndx = shndx_of s.place;
  st_value = s.value;
  st_size = s.size;
}

abbrev null_symbol : Sym.Elf64Sym
null_symbol = record {
  st_name = 0;
  st_info = 0;
  st_other = 0;
  st_shndx = shn_undef;
  st_value = 0;
  st_size = 0;
}

-- The loop over `order.iter().enumerate()`, with `sym_names[k]` in step.
unfoldable pub symbol_entries : List Symbol → List ℕ → List ℕ → Bytes → Result ElfError Bytes
symbol_entries ss (i ∷ is) (name ∷ names) body = do
  s ← element ss i
  symbol_entries ss is names (Sym.write (symbol_entry name s) body)
symbol_entries ss (i ∷ is) [] body = panic
symbol_entries ss [] names body = ok body

-- `body`, `shdrs` and `shstrtab` of the source.
pub record Output : Type 0 where
  pub body : Bytes
  pub shdrs : List Elf64Shdr
  pub names : StringTable

-- A section header with the fields that the writer leaves at 0.
abbrev header : ℕ → ℕ → ℕ → ℕ → ℕ → ℕ → Elf64Shdr
header name typ flags offset size align = record {
  sh_name = name;
  sh_type = typ;
  sh_flags = flags;
  sh_addr = 0;
  sh_offset = offset;
  sh_size = size;
  sh_link = 0;
  sh_info = 0;
  sh_addralign = align;
  sh_entsize = 0;
}

-- `.note.GNU-stack`, which takes no bytes.
unfoldable pub write_note : Output → Option ℕ → Output
write_note out none = out
write_note out (some flags) =
    let interned = Strtab.intern out.names (text ".note.GNU-stack") in
    record out {
      shdrs =
          out.shdrs
          ++ (header interned.0 sht_progbits flags (ehdr_size + length out.body) 0 1 ∷ []);
      names = interned.1;
    }

module _ (reserve : Allocator) where
  unfoldable pub write_section : Output → Section → Result ElfError Output
  write_section out sec =
      let interned = Strtab.intern out.names sec.name in
      let push = λ (body : Bytes) (offset size : ℕ). record out {
        body = body;
        shdrs =
            out.shdrs
            ++ (header interned.0 sec.sh_type sec.sh_flags offset size sec.sh_addralign ∷ []);
        names = interned.1;
      } in
      let nobits : Result ElfError Output = (do
        here ← align_up (ehdr_size + length out.body) (max sec.sh_addralign 1)
        ok (push out.body here sec.nobits_size)) in
      let filled : Result ElfError Output = (do
        (off, body) ← place reserve out.body sec.sh_addralign sec.contents
        ok (push body off (length sec.contents))) in
      if sec.sh_type == sht_nobits then nobits else filled

  unfoldable pub write_sections : Output → List Section → Result ElfError Output
  write_sections out [] = ok out
  write_sections out (sec ∷ secs) = do next ← write_section out sec; write_sections next secs

  -- A table that the writer builds: its name, type, link, info, alignment and entry size.
  unfoldable pub write_table : Output → Bytes → ℕ → ℕ → ℕ → ℕ → ℕ → Bytes → Result ElfError Output
  write_table out name typ link info align entsize bytes = do
    let interned = Strtab.intern out.names name
    (off, body) ← place reserve out.body align bytes
    let base = header interned.0 typ 0 off (length bytes) align
    ok (record out {
      body = body;
      shdrs =
          out.shdrs ++ (record base { sh_link = link; sh_info = info; sh_entsize = entsize } ∷ []);
      names = interned.1;
    })

  unfoldable pub rela_entries : List ℕ → List Model.Rela → Bytes → Result ElfError Bytes
  rela_entries files [] body = ok body
  rela_entries files (r ∷ rs) body = do
    file ← index files r.symbol
    rela_entries files rs (
        Rela.write
          (record { r_offset = r.offset; r_info = Rela.info file r.r_type; r_addend = r.addend })
          body)

  -- One `.rela` table for each section that has relocations; `k` is the section's model index.
  unfoldable pub write_relas : List ℕ → ℕ → Output → ℕ → List Section → Result ElfError Output
  write_relas files symtab_idx out k [] = ok out
  write_relas files symtab_idx out k (sec ∷ secs) = elim sec.relas [
    | [] ↦ write_relas files symtab_idx out (k + 1) secs
    | r ∷ rs ↦ (do
      body ← rela_entries files (r ∷ rs) []
      next ←
          write_table out (text ".rela" ++ sec.name) sht_rela (symtab_idx % 2 ^ 32) (file_shndx k) 8
            rela_size body
      write_relas files symtab_idx next (k + 1) secs)
  ]

-- `usize::from(obj.gnu_stack_flags.is_some())`
abbrev pub note_count : Option ℕ → ℕ
note_count none = 0
note_count (some _) = 1

-- `(0..n_contents).filter(|&i| !relas.is_empty()).len()`
unfoldable pub count_relocated : List Section → ℕ
count_relocated [] = 0
count_relocated (sec ∷ secs) = elim sec.relas [ [] ↦ 0 | _ ∷ _ ↦ 1 ] + count_relocated secs

unfoldable pub write_headers : List Elf64Shdr → Bytes → Bytes
write_headers [] out = out
write_headers (h ∷ hs) out = write_headers hs (Shdr.write h out)

module _ (reserve : Allocator) where
  -- Everything behind the file header, but for the section header table.
  unfoldable pub write_contents : ObjectFile → SectionHeaderEncoding → Result ElfError Output
  write_contents obj encoding = do
    first_global_file_idx ← first_global obj.symbols
    files ← model_to_file obj.symbols
    names ← names_in obj.symbols (order obj.symbols)
    let interned = Strtab.intern_all Strtab.new names
    symtab ← symbol_entries obj.symbols (order obj.symbols) interned.0 (Sym.write null_symbol [])
    let null = record (header 0 sht_null 0 0 encoding.null_sh_size 0) {
      sh_link = encoding.null_sh_link;
    }
    let start : Output = record { body = []; shdrs = null ∷ []; names = Strtab.new }
    contents ← write_sections reserve start obj.sections
    let noted = write_note contents obj.gnu_stack_flags
    let symtab_idx = 1 + length obj.sections + note_count obj.gnu_stack_flags
    with_symtab ←
        write_table reserve noted (text ".symtab") sht_symtab ((symtab_idx + 1) % 2 ^ 32)
          first_global_file_idx 8 sym_size symtab
    with_strtab ←
        write_table reserve with_symtab (text ".strtab") sht_strtab 0 0 1 0 interned.1.contents
    with_relas ← write_relas reserve files symtab_idx with_strtab 0 obj.sections
    write_table reserve with_relas (text ".shstrtab") sht_strtab 0 0 1 0
        (Strtab.intern with_relas.names (text ".shstrtab")).1.contents

  -- The section header table, 8-aligned, and the file header in front of it all.
  unfoldable pub write_file : ObjectFile → SectionHeaderEncoding → Output → Result ElfError Bytes
  write_file obj encoding out = do
    let here = ehdr_size + length out.body
    sh_off ← align_up here 8
    reserve_elf_bytes reserve out.body (sh_off - here)
    let padded = out.body ++ replicate (sh_off - here) 0
    guard (ltb (length out.shdrs * shdr_size) (2 ^ 64)) (new shdr_table_size_overflows)
    reserve_elf_bytes reserve padded (length out.shdrs * shdr_size)
    let body = write_headers out.shdrs padded
    guard (ltb (ehdr_size + length body) (2 ^ 64)) (new output_size_overflows)
    reserve_elf_bytes reserve [] (ehdr_size + length body)
    ok (
        Ehdr.write
          (record {
            osabi = obj.osabi;
            abiversion = 0;
            e_type = et_rel;
            e_machine = obj.machine;
            e_entry = 0;
            e_phoff = 0;
            e_shoff = ehdr_size + length padded;
            e_flags = 0;
            e_phentsize = 0;
            e_phnum = 0;
            e_shentsize = shdr_size;
            e_shnum = encoding.e_shnum;
            e_shstrndx = encoding.e_shstrndx;
          })
          []
        ++ body)

  -- `reserve` is the allocator's answer to `try_reserve`.
  unfoldable pub write_elf : ObjectFile → Result ElfError Bytes
  write_elf obj = do
    validate obj
    let symtab_idx = 1 + length obj.sections + note_count obj.gnu_stack_flags
    let shstrtab_idx = symtab_idx + 2 + count_relocated obj.sections
    guard (ltb (shstrtab_idx + 1) (2 ^ 64)) (new section_count_overflows)
    encoding ← encode_section_header_table (shstrtab_idx + 1) shstrtab_idx
    out ← write_contents obj encoding
    write_file obj encoding out
