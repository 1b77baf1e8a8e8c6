-- ===== src/Elf/Reloc.antt =====
-- `reloc::x86_64` and `reloc::aarch64` of src/elf.rs: the width in bytes of the field that a
-- relocation type patches, `none` for a type that the writer refuses.
use afs_as.Base.{ℕ, Bool, false, ◌||◌, Option, none, some, List, [], ◌∷◌, ◌==◌, if◌then◌else◌}

-- A Rust `match` on a set of constants.
abbrev pub one_of : ℕ → List ℕ → Bool
one_of x [] = false
one_of x (y ∷ ys) = x == y || one_of x ys

abbrev x86_64_words : List ℕ
x86_64_words = 2 ∷ 4 ∷ 9 ∷ 10 ∷ 11 ∷ 41 ∷ 42 ∷ []

unfoldable pub x86_64_width : ℕ → Option ℕ
x86_64_width r_type =
    if r_type == 0
    then some 0
    else if one_of r_type (1 ∷ 24 ∷ [])
    then some 8
    else if one_of r_type x86_64_words
    then some 4
    else none

abbrev aarch64_words : List ℕ
aarch64_words =
    258 ∷ 261 ∷ 275 ∷ 277 ∷ 278 ∷ 279 ∷ 280 ∷ 282 ∷ 283 ∷ 284 ∷ 285 ∷ 286 ∷ 299 ∷ 311 ∷ 312 ∷ 541
    ∷ 542 ∷ []

unfoldable pub aarch64_width : ℕ → Option ℕ
aarch64_width r_type =
    if r_type == 0
    then some 0
    else if one_of r_type (257 ∷ 260 ∷ [])
    then some 8
    else if one_of r_type (259 ∷ 262 ∷ [])
    then some 2
    else if one_of r_type aarch64_words
    then some 4
    else none
