-- ===== src/Elf/SymbolOrder/Place.antt =====
-- The section numbers of symbols tell the places of the model apart.
use afs_as.Base.{◌+◌, ◌<◌, ◌≡◌, refl, ap, arith}
use afs_as.Elf.Constants.{shn_loreserve}
use afs_as.Elf.Model.{SymbolPlace, undef, abs, common, section}
use afs_as.Elf.SymbolOrder.{file_shndx, shndx_of}

-- A place whose file index is below the reserved range.
abbrev pub IsOrdinary : SymbolPlace → Type 0
IsOrdinary (section idx) = idx + 1 < shn_loreserve
IsOrdinary _ = Unit {0}

-- Two places with the same `st_shndx` are the same place, if sections are numbered below the
-- reserved range.
pub shndx_of-injective :
    (p q : SymbolPlace) → IsOrdinary p → IsOrdinary q → shndx_of p ≡ shndx_of q → p ≡ q
unfolding shndx_of file_shndx
shndx_of-injective undef undef a b e = refl
shndx_of-injective undef abs a b e = absurd (omega (arith, e))
shndx_of-injective undef common a b e = absurd (omega (arith, e))
shndx_of-injective undef (section j) a b e = absurd (omega (arith, b, e))
shndx_of-injective abs undef a b e = absurd (omega (arith, e))
shndx_of-injective abs abs a b e = refl
shndx_of-injective abs common a b e = absurd (omega (arith, e))
shndx_of-injective abs (section j) a b e = absurd (omega (arith, b, e))
shndx_of-injective common undef a b e = absurd (omega (arith, e))
shndx_of-injective common abs a b e = absurd (omega (arith, e))
shndx_of-injective common common a b e = refl
shndx_of-injective common (section j) a b e = absurd (omega (arith, b, e))
shndx_of-injective (section i) undef a b e = absurd (omega (arith, a, e))
shndx_of-injective (section i) abs a b e = absurd (omega (arith, a, e))
shndx_of-injective (section i) common a b e = absurd (omega (arith, a, e))
shndx_of-injective (section i) (section j) a b e =
    let q : i ≡ j = omega (arith, a, b, e) in ap section q
