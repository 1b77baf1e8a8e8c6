-- ===== src/Elf/Tests.antt =====
-- Runs of src/elf.rs on small objects, and its theorems at them.
use afs_as.Base.{
  ℕ, ◌+◌, ◌^◌, ◌<◌, ◌≤◌, ◌≡◌, ◌≢◌, ◌↔◌, refl, Bool, true, false, none, some, List, [], ◌∷◌, ◌++◌,
  length, drop, max, replicate, All, Result, ok, err, panic, arith, map, get_elem?, inl, inr,
}
use afs_as.Base.Bytes.{Bytes}
use afs_as.Base.Int.{negsuc}
use afs_as.Base.Text.{text}
use afs_as.Elf.Constants.{shdr_size}
use afs_as.Elf.Ehdr
use afs_as.Elf.Shdr
use afs_as.Elf.Sym
use afs_as.Elf.Rela
use afs_as.Elf.Strtab
use afs_as.Elf.Strtab.Laws.{IsName, IsValid, read-intern_all, intern_again}
use afs_as.Elf.Model
use afs_as.Elf.Model.{Symbol, Section, ObjectFile}
use afs_as.Elf.Validate.{validate}
use afs_as.Elf.Validate.Exact.{IsWritable, IsStored, validate_exact}
use afs_as.Elf.SymbolOrder.{order, model_to_file, shndx_of}
use afs_as.Elf.SymbolOrder.Exact.{IsFileIndex, model_to_file_exact}
use afs_as.Elf.SymbolOrder.Place.{shndx_of-injective}
use afs_as.Elf.Writer.{write_elf}
use afs_as.Elf.Layout.{
  align_up, place, SectionHeaderEncoding, encode_section_header_table, decode_shnum,
  decode_shstrndx,
}
use afs_as.Elf.Layout.Exact.{
  IsAligned, IsPlaced, align_up-IsAligned, place-IsPlaced, encode_section_header_table-exact,
}

-- A symbol of the tests: a name, a binding and a place.
abbrev symbol : Bytes → ℕ → Model.SymbolPlace → Symbol
symbol name bind place = record {
  name = name;
  bind = bind;
  typ = 0;
  vis = 0;
  place = place;
  value = 0;
  size = 0;
}

abbrev symbols : List Symbol
symbols =
    symbol (text "main") 1 (Model.section 0)
    ∷ symbol (text "tmp") 0 (Model.section 0)
    ∷ symbol (text "puts") 1 Model.undef
    ∷ []

-- One `R_X86_64_PC32` against `puts`.
abbrev code : Section
code = record {
  name = text ".text";
  sh_type = 1;
  sh_flags = 6;
  sh_addralign = 16;
  contents = 0xe8 ∷ 0 ∷ 0 ∷ 0 ∷ 0 ∷ 0xc3 ∷ [];
  nobits_size = 0;
  relas = record { offset = 1; symbol = 2; r_type = 2; addend = negsuc 3 } ∷ [];
}

abbrev object : ObjectFile
object = record {
  machine = 62;
  osabi = 0;
  gnu_stack_flags = some 0;
  sections = code ∷ [];
  symbols = symbols;
}

abbrev file_header : Ehdr.Elf64Ehdr
file_header = record {
  osabi = 9;
  abiversion = 0;
  e_type = 1;
  e_machine = 62;
  e_entry = 0;
  e_phoff = 0;
  e_shoff = 0x1234;
  e_flags = 0;
  e_phentsize = 0;
  e_phnum = 0;
  e_shentsize = shdr_size;
  e_shnum = 8;
  e_shstrndx = 7;
}

file_header-IsFit : Ehdr.IsFit file_header
file_header-IsFit = record {
  osabi = omega arith;
  abiversion = omega arith;
  e_type = omega arith;
  e_machine = omega arith;
  e_entry = omega arith;
  e_phoff = omega arith;
  e_shoff = omega arith;
  e_flags = omega arith;
  e_phentsize = omega arith;
  e_phnum = omega arith;
  e_shentsize = omega arith;
  e_shnum = omega arith;
  e_shstrndx = omega arith;
}

ehdr_parse-write_example : Ehdr.parse (Ehdr.write file_header [] ++ (1 ∷ 2 ∷ [])) ≡ ok file_header
ehdr_parse-write_example = Ehdr.ehdr_parse-write file_header (1 ∷ 2 ∷ []) file_header-IsFit refl

parse-ne-panic_example : Ehdr.parse (0x7f ∷ b'E' ∷ []) ≢ panic
parse-ne-panic_example = Ehdr.parse-ne-panic (0x7f ∷ b'E' ∷ [])

abbrev section_header : Shdr.Elf64Shdr
section_header = record {
  sh_name = 1;
  sh_type = 1;
  sh_flags = 6;
  sh_addr = 0;
  sh_offset = 64;
  sh_size = 0x10000;
  sh_link = 0;
  sh_info = 0;
  sh_addralign = 16;
  sh_entsize = 0;
}

section_header-IsFit : Shdr.IsFit section_header
section_header-IsFit = record {
  sh_name = omega arith;
  sh_type = omega arith;
  sh_flags = omega arith;
  sh_addr = omega arith;
  sh_offset = omega arith;
  sh_size = omega arith;
  sh_link = omega arith;
  sh_info = omega arith;
  sh_addralign = omega arith;
  sh_entsize = omega arith;
}

shdr_parse-write_example :
    Shdr.parse (Shdr.write section_header (7 ∷ 8 ∷ []) ++ (9 ∷ [])) 2 ≡ ok section_header
shdr_parse-write_example =
    Shdr.shdr_parse-write section_header (7 ∷ 8 ∷ []) (9 ∷ []) section_header-IsFit (omega arith)

abbrev entry : Sym.Elf64Sym
entry = record {
  st_name = 5;
  st_info = 0x12;
  st_other = 2;
  st_shndx = 1;
  st_value = 0x400;
  st_size = 24;
}

entry-IsFit : Sym.IsFit entry
entry-IsFit = record {
  st_name = omega arith;
  st_info = omega arith;
  st_other = omega arith;
  st_shndx = omega arith;
  st_value = omega arith;
  st_size = omega arith;
}

sym_parse-write_example : Sym.parse (Sym.write entry (7 ∷ []) ++ (9 ∷ [])) 1 ≡ ok entry
sym_parse-write_example = Sym.sym_parse-write entry (7 ∷ []) (9 ∷ []) entry-IsFit (omega arith)

st_info_fields_example : (Sym.bind entry ≡ 1) × (Sym.typ entry ≡ 2) × (Sym.info 1 2 < 2 ^ 8)
unfolding Sym.info
st_info_fields_example = Sym.st_info_fields entry 1 2 (omega arith) (omega arith) refl

abbrev rela : Rela.Elf64Rela
rela = record { r_offset = 1; r_info = 0x300000002; r_addend = negsuc 3 }

rela-IsFit : Rela.IsFit rela
rela-IsFit = record { r_offset = omega arith; r_info = omega arith; r_addend = omega arith }

rela_parse-write_example : Rela.parse (Rela.write rela (7 ∷ []) ++ (9 ∷ [])) 1 ≡ ok rela
rela_parse-write_example = Rela.rela_parse-write rela (7 ∷ []) (9 ∷ []) rela-IsFit (omega arith)

r_info_fields_example : (Rela.sym rela ≡ 3) × (Rela.r_type rela ≡ 2) × (Rela.info 3 2 < 2 ^ 64)
unfolding Rela.info
r_info_fields_example = Rela.r_info_fields rela 3 2 (omega arith) (omega arith) refl

-- A name that repeats, and the empty one.
abbrev names : List Bytes
names = text "main" ∷ text "puts" ∷ text "main" ∷ [] ∷ []

names-intern_all : (Strtab.intern_all Strtab.new names).0 ≡ 1 ∷ 6 ∷ 1 ∷ 0 ∷ []
unfolding Strtab.intern_all Strtab.intern Strtab.new afs_as.Base.Text.text_eq
names-intern_all = refl

names-IsName : All IsName names
unfolding afs_as.Base.Text.is_utf8
names-IsName = (main, (puts, (main, ((tt, refl), tt))))
  where
    main : IsName (text "main")
    main = ((omega arith, (omega arith, (omega arith, (omega arith, tt)))), refl)

    puts : IsName (text "puts")
    puts = ((omega arith, (omega arith, (omega arith, (omega arith, tt)))), refl)

names_small : length (Strtab.intern_all Strtab.new names).1.contents < 2 ^ 32
unfolding Strtab.intern_all Strtab.intern Strtab.new afs_as.Base.Text.text_eq
names_small = omega arith

read-intern_all_example :
    IsValid (Strtab.intern_all Strtab.new names).1
    × (map
          (Strtab.read (Strtab.intern_all Strtab.new names).1.contents)
          (Strtab.intern_all Strtab.new names).0
        ≡ map ok names)
read-intern_all_example = read-intern_all names names_small names-IsName

intern_again_example :
    Strtab.intern (Strtab.intern Strtab.new (text "main")).1 (text "main")
    ≡ ((Strtab.intern Strtab.new (text "main")).0, (Strtab.intern Strtab.new (text "main")).1)
intern_again_example = intern_again Strtab.new (text "main")

object-validate : validate object ≡ ok tt
unfolding validate afs_as.Elf.Validate.validate_sections afs_as.Elf.Validate.is_power_of_two
    afs_as.Elf.Validate.validate_relas afs_as.Elf.Validate.validate_rela
    afs_as.Elf.Validate.validate_width afs_as.Elf.Validate.width_for afs_as.Elf.Reloc.x86_64_width
    afs_as.Base.Bytes.usize afs_as.Elf.Validate.validate_symbols
object-validate = refl

object-IsStored : All IsStored object.sections
object-IsStored = ((omega arith, omega arith), tt)

validate_exact_example : (validate object ≡ ok tt) ↔ IsWritable object
validate_exact_example = validate_exact object object-IsStored

symbols-order : (order symbols ≡ 1 ∷ 0 ∷ 2 ∷ []) × (model_to_file symbols ≡ ok (2 ∷ 1 ∷ 3 ∷ []))
unfolding order model_to_file afs_as.Elf.SymbolOrder.fill_files afs_as.Elf.SymbolOrder.file_index
    afs_as.Elf.SymbolOrder.indexes
symbols-order = (refl, refl)

model_to_file_exact_example :
    (file : ℕ) × IsFileIndex symbols 1 (symbol (text "tmp") 0 (Model.section 0)) file
model_to_file_exact_example =
    model_to_file_exact symbols 1 (symbol (text "tmp") 0 (Model.section 0)) (omega arith) refl

-- A section at index 65520 gets the number of `SHN_ABS`.
shndx_of_collides : shndx_of (Model.section 65520) ≡ shndx_of Model.abs
unfolding shndx_of
shndx_of_collides = refl

shndx_of-injective_example : Model.section 3 ≡ Model.section 3
shndx_of-injective_example =
    shndx_of-injective (Model.section 3) (Model.section 3) (omega arith) (omega arith) refl

align_up-21 : align_up 21 8 ≡ ok 24
unfolding align_up afs_as.Base.Bytes.usize
align_up-21 = refl

align_up-IsAligned_example : IsAligned 21 8 24
align_up-IsAligned_example = align_up-IsAligned 21 8 (omega arith) align_up-21

place-three :
    place (λ used more. true) (1 ∷ 2 ∷ 3 ∷ []) 8 (9 ∷ [])
    ≡ ok (72, 1 ∷ 2 ∷ 3 ∷ 0 ∷ 0 ∷ 0 ∷ 0 ∷ 0 ∷ 9 ∷ [])
unfolding place align_up afs_as.Base.Bytes.usize afs_as.Elf.Layout.reserve_elf_bytes
place-three = refl

place-IsPlaced_example :
    IsPlaced (1 ∷ 2 ∷ 3 ∷ []) (9 ∷ []) (max 8 1) 72 (1 ∷ 2 ∷ 3 ∷ 0 ∷ 0 ∷ 0 ∷ 0 ∷ 0 ∷ 9 ∷ [])
place-IsPlaced_example =
    place-IsPlaced (λ used more. true) (1 ∷ 2 ∷ 3 ∷ []) (9 ∷ []) 8 72
      (1 ∷ 2 ∷ 3 ∷ 0 ∷ 0 ∷ 0 ∷ 0 ∷ 0 ∷ 9 ∷ []) place-three

-- More sections than the header's 16 bits count.
encode_section_header_table-exact_example :
    (e : SectionHeaderEncoding) × (encode_section_header_table 70000 69999 ≡ ok e)
    × (decode_shnum e.e_shnum e.null_sh_size ≡ 70000)
    × (decode_shstrndx e.e_shstrndx e.null_sh_link ≡ 69999)
    × (e.e_shnum < 2 ^ 16)
    × (e.e_shstrndx < 2 ^ 16)
encode_section_header_table-exact_example =
    encode_section_header_table-exact 70000 69999 (omega arith) (omega arith)

-- What the writer makes of the object, where the allocator grants everything.
written : Bytes
unfolding afs_as.Elf.Writer.write_elf afs_as.Elf.Writer.write_file afs_as.Elf.Writer.write_contents
    afs_as.Elf.Writer.write_headers afs_as.Elf.Writer.count_relocated afs_as.Elf.Writer.write_relas
    afs_as.Elf.Writer.rela_entries afs_as.Elf.Writer.write_table afs_as.Elf.Writer.write_sections
    afs_as.Elf.Writer.write_section afs_as.Elf.Writer.write_note afs_as.Elf.Writer.symbol_entries
    afs_as.Elf.Writer.symbol_entry afs_as.Elf.Writer.names_in afs_as.Elf.Writer.element
    afs_as.Elf.Validate.validate afs_as.Elf.Validate.validate_symbols
    afs_as.Elf.Validate.validate_place afs_as.Elf.Validate.validate_sections
    afs_as.Elf.Validate.validate_relas afs_as.Elf.Validate.validate_rela
    afs_as.Elf.Validate.validate_width afs_as.Elf.Validate.width_for
    afs_as.Elf.Validate.is_power_of_two afs_as.Elf.SymbolOrder.order afs_as.Elf.SymbolOrder.locals
    afs_as.Elf.SymbolOrder.indexes afs_as.Elf.SymbolOrder.first_global
    afs_as.Elf.SymbolOrder.model_to_file afs_as.Elf.SymbolOrder.fill_files
    afs_as.Elf.SymbolOrder.file_index afs_as.Elf.SymbolOrder.shndx_of
    afs_as.Elf.SymbolOrder.file_shndx afs_as.Elf.Layout.align_up afs_as.Elf.Layout.place
    afs_as.Elf.Layout.place_padded afs_as.Elf.Layout.reserve_elf_bytes
    afs_as.Elf.Layout.encode_section_header_table Strtab.intern_all Strtab.intern Strtab.new
    Ehdr.write Ehdr.bytes_of Shdr.write Shdr.bytes_of Sym.write Sym.bytes_of Rela.write
    Rela.bytes_of Sym.info Rela.info afs_as.Base.Bytes.usize afs_as.Base.Bytes.index
    afs_as.Base.Text.text_eq afs_as.Base.Text.lookup afs_as.Base.Int.u64_of_i64
    afs_as.Elf.Reloc.x86_64_width
written = elim (write_elf (λ used more. true) object) [ ok bytes ↦ bytes | _ ↦ [] ]
