-- ===== src/Elf/SymbolOrder.antt =====
-- The symbol order of `write_elf` in src/elf.rs: locals first, each part in model order, and the
-- map from model indexes to file indexes.
pub mod Exact
pub mod Place
use afs_as.Base.{
  ℕ, zero, suc, ◌+◌, ◌%◌, ◌^◌, Bool, not, List, [], ◌∷◌, ◌++◌, length, replicate, set, ltb, ◌==◌,
  if◌then◌else◌, Result, ok, panic, ◌>>=◌,
}
use afs_as.Elf.Error.{ElfError}
use afs_as.Elf.Constants.{stb_local, shn_undef, shn_abs, shn_common}
use afs_as.Elf.Model.{SymbolPlace, undef, abs, common, section, Symbol}

abbrev pub is_local : Symbol → Bool
is_local s = s.bind == stb_local

-- `(first..).filter(|&i| test(symbols[i]))`, where `symbols` starts at index `first`.
unfoldable pub indexes : (Symbol → Bool) → ℕ → List Symbol → List ℕ
indexes test first [] = []
indexes test first (s ∷ ss) =
    let rest = indexes test (first + 1) ss in if test s then first ∷ rest else rest

unfoldable pub locals : List Symbol → List ℕ
locals ss = indexes is_local 0 ss

unfoldable pub order : List Symbol → List ℕ
unfolding locals
order ss = locals ss ++ indexes (λ s. not (is_local s)) 0 ss

-- `1 + k as u32`, an addition of u32 numbers.
unfoldable pub file_index : ℕ → Result ElfError ℕ
file_index k = let file = 1 + k % 2 ^ 32 in if ltb file (2 ^ 32) then ok file else panic

-- The index of the first global symbol in the file, where index 0 is the null symbol.
unfoldable pub first_global : List Symbol → Result ElfError ℕ
first_global ss = file_index (length (locals ss))

-- `model_to_file[model_idx] = 1 + file_minus_1` over `order.iter().enumerate()`.
unfoldable pub fill_files : ℕ → List ℕ → List ℕ → Result ElfError (List ℕ)
fill_files k [] files = ok files
fill_files k (i ∷ is) files = do file ← file_index k; fill_files (k + 1) is (set files i file)

unfoldable pub model_to_file : List Symbol → Result ElfError (List ℕ)
model_to_file ss = fill_files 0 (order ss) (replicate (length ss) 0)

-- `(1 + model_idx) as u16`
unfoldable pub file_shndx : ℕ → ℕ
file_shndx model_idx = (1 + model_idx) % 2 ^ 16

unfoldable pub shndx_of : SymbolPlace → ℕ
unfolding file_shndx
shndx_of undef = shn_undef
shndx_of abs = shn_abs
shndx_of common = shn_common
shndx_of (section idx) = file_shndx idx
