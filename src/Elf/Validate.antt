-- ===== src/Elf/Validate.antt =====
-- `validate` of src/elf.rs: what is checked of an object before it is written.
pub mod Exact
use afs_as.Base.{
  ℕ, zero, suc, ◌+◌, ◌/◌, ◌%◌, Bool, true, false, not, ◌||◌, Option, none, some, List, [], ◌∷◌,
  length, leb, ◌==◌, if◌then◌else◌, Result, ok, err, guard, ◌>>=◌, ◌>>◌,
}
use afs_as.Base.Bytes.{usize}
use afs_as.Elf.Constants.{em_x86_64, em_aarch64, sht_nobits}
use afs_as.Elf.Error.{
  ElfError, new, alignment_not_power_of_two, symbol_index_out_of_range, unsupported_machine,
  unknown_relocation_type, relocation_in_nobits, rela_out_of_section_bounds,
  section_index_out_of_range,
}
use afs_as.Elf.Model.{SymbolPlace, section, Symbol, Rela, Section, ObjectFile}
use afs_as.Elf.Reloc.{x86_64_width, aarch64_width}

-- `u64::is_power_of_two`, by halving `bits` times at most.
power_of_two_within : ℕ → ℕ → Bool
power_of_two_within zero n = false
power_of_two_within (suc bits) n = elim (n % 2 == 0) [
  | true ↦ power_of_two_within bits (n / 2)
  | false ↦ n == 1
]

unfoldable pub is_power_of_two : ℕ → Bool
unfolding power_of_two_within
is_power_of_two n = power_of_two_within 64 n

-- The outer option is the unsupported machine, the inner the unknown type.
unfoldable pub width_for : ℕ → ℕ → Option (Option ℕ)
width_for machine r_type =
    if machine == em_x86_64
    then some (x86_64_width r_type)
    else if machine == em_aarch64
    then some (aarch64_width r_type)
    else none

unfoldable pub validate_width : ℕ → Section → Rela → Result ElfError ℕ
validate_width machine sec r = elim (width_for machine r.r_type) [
  | none ↦ err (new (unsupported_machine machine))
  | some none ↦ err (new (unknown_relocation_type sec.name r.offset r.r_type machine))
  | some (some width) ↦ ok width
]

unfoldable pub validate_rela : ObjectFile → Section → Rela → Result ElfError (Unit {0})
validate_rela obj sec r = do
  guard (not (leb (length obj.symbols) r.symbol))
      (new (symbol_index_out_of_range sec.name r.offset r.symbol (length obj.symbols)))
  width ← validate_width obj.machine sec r
  guard (not (sec.sh_type == sht_nobits)) (new (relocation_in_nobits sec.name))
  end ← usize (r.offset + width)
  guard (leb end (length sec.contents))
      (new (rela_out_of_section_bounds sec.name r.offset width (length sec.contents)))

unfoldable pub validate_relas : ObjectFile → Section → List Rela → Result ElfError (Unit {0})
validate_relas obj sec [] = ok tt
validate_relas obj sec (r ∷ rs) = do validate_rela obj sec r; validate_relas obj sec rs

unfoldable pub validate_sections : ObjectFile → List Section → Result ElfError (Unit {0})
validate_sections obj [] = ok tt
validate_sections obj (sec ∷ secs) = do
  guard (sec.sh_addralign == 0 || is_power_of_two sec.sh_addralign)
      (new (alignment_not_power_of_two sec.name sec.sh_addralign))
  validate_relas obj sec sec.relas
  validate_sections obj secs

unfoldable pub validate_place : ObjectFile → ℕ → Symbol → SymbolPlace → Result ElfError (Unit {0})
validate_place obj i sym (section idx) =
    guard (not (leb (length obj.sections) idx)) (new (section_index_out_of_range i sym.name idx))
validate_place obj i sym _ = ok tt

unfoldable pub validate_symbols : ObjectFile → ℕ → List Symbol → Result ElfError (Unit {0})
unfolding validate_place
validate_symbols obj i [] = ok tt
validate_symbols obj i (sym ∷ syms) = do
  validate_place obj i sym sym.place
  validate_symbols obj (i + 1) syms

unfoldable pub validate : ObjectFile → Result ElfError (Unit {0})
validate obj = do validate_sections obj obj.sections; validate_symbols obj 0 obj.symbols
