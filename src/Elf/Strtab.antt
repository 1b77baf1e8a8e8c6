-- ===== src/Elf/Strtab.antt =====
-- `StringTable` of src/elf.rs: names stored once, each ended by a NUL.
pub mod Laws
use afs_as.Base.{
  ℕ, ◌+◌, ◌%◌, ◌^◌, Bool, Option, none, some, List, [], ◌∷◌, ◌++◌, length, take, drop, leb, ◌==◌,
  if◌then◌else◌, Result, ok, err,
}
use afs_as.Base.Bytes.{Bytes}
use afs_as.Base.Text.{lookup, is_utf8}
use afs_as.Elf.Error.{
  ElfError, at, string_offset_out_of_bounds, unterminated_string, non_utf8_string,
}

-- `names` is the source's `index`, a `HashMap<String, u32>`.
pub record StringTable : Type 0 where
  pub contents : Bytes
  pub names : List (Bytes × ℕ)

unfoldable pub new : StringTable
new = record { contents = 0 ∷ []; names = [] }

unfoldable pub intern : StringTable → Bytes → ℕ × StringTable
unfolding lookup
intern t [] = (0, t)
intern t (c ∷ cs) = elim (lookup (c ∷ cs) t.names) [
  | some off ↦ (off, t)
  | none ↦
      let off = length t.contents % 2 ^ 32 in
      (
        off,
        record { contents = (t.contents ++ (c ∷ cs)) ++ (0 ∷ []); names = (c ∷ cs, off) ∷ t.names },
      )
]

-- `iter().position(|&c| c == 0)`
unfoldable pub position_zero : Bytes → Option ℕ
position_zero [] = none
position_zero (b ∷ bs) =
    if b == 0 then some 0 else elim (position_zero bs) [ none ↦ none | some n ↦ some (n + 1) ]

unfoldable pub read : Bytes → ℕ → Result ElfError Bytes
unfolding position_zero
read b start =
    if leb (length b) start
    then err (at start string_offset_out_of_bounds)
    else elim (position_zero (drop start b)) [
      | none ↦ err (at start unterminated_string)
      | some n ↦
          let s = take n (drop start b) in
          if is_utf8 s then ok s else err (at start non_utf8_string)
    ]

-- `names.iter().map(|s| strtab.intern(s)).collect()`
unfoldable pub intern_all : StringTable → List Bytes → List ℕ × StringTable
intern_all t [] = ([], t)
intern_all t (s ∷ ss) =
    let first = intern t s in let others = intern_all first.1 ss in (first.0 ∷ others.0, others.1)
