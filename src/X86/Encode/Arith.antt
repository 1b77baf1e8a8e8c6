-- ===== src/X86/Encode/Arith.antt =====
-- What a processor reads in the bytes of `encode_arith` of src/x86/encode.rs.
use afs_as.Base.{
  ℕ, ◌+◌, ◌*◌, ◌%◌, ◌<◌, ◌≡◌, ◌≢◌, refl, ap, sym, ◌∙◌, true, false, Option, none, some, List, [],
  ◌∷◌, ◌++◌, inl, inr, Bool-cases, ok, >>=-eq-ok, guard-eq-ok, arith,
}
use afs_as.Base.Bytes.{Bytes}
use afs_as.Base.Text.{text_eq, lookup}
use afs_as.X86.Reg.{Width, b, w, l, q, x, Reg}
use afs_as.X86.Reg.Names.{IsReg}
use afs_as.X86.Operand.{reg}
use afs_as.X86.Parts.{Encoded, new, width_setup, finish}
use afs_as.X86.Encode.{byte_or, width_eq, check_width}
use afs_as.X86.Encode.Operation.{
  Operation, addition, inclusive_or, addition_with_carry, subtraction_with_borrow, conjunction,
  subtraction, exclusive_or, comparison, spelled, operation_at, computation_of, computation_in,
  read_computation,
}
use afs_as.X86.Encode.Reader.{odd, width_at, Pair, read_registers}
use afs_as.X86.Encode.Exact.{IsOpcode, is_wide, is_small}
use afs_as.X86.Encode.Moves.{width_eq_lem}
use afs_as.X86.Encode.Registers.{pair_form, pair_lem}
use afs_as.X86.Encode.Families.{or_unreachable, arith_stems, arith_idx, arith_parts, encode_arith}

-- Every value of a table is below `n`.
abbrev AllBelow : ℕ → List (Bytes × ℕ) → Type 0
AllBelow n [] = Unit {0}
AllBelow n (entry ∷ m) = (entry.1 < n) × AllBelow n m

lookup-lt :
    (k : Bytes) (n v : ℕ) (m : List (Bytes × ℕ)) → AllBelow n m → lookup k m ≡ some v → v < n
unfolding lookup
lookup-lt k n v [] below h = cc h
lookup-lt k n v ((j, found) ∷ m) (small, below) h = elim (Bool-cases (text_eq j k)) [
  | inl e ↦ let same : found ≡ v = ground (arith, rw (e, lookup) at h) in omega (arith, small, same)
  | inr e ↦ lookup-lt k n v m below (rw (e, lookup) at h)
]

arith_idx-lt : (stem : Bytes) (idx : ℕ) → arith_idx stem ≡ some idx → idx < 8
unfolding arith_idx
arith_idx-lt stem idx h =
    lookup-lt stem 8 idx arith_stems
      (
        omega arith,
        (
          omega arith,
          (
            omega arith,
            (omega arith, (omega arith, (omega arith, (omega arith, (omega arith, tt))))),
          ),
        ),
      )
      h

or_unreachable-exact :
    (idx : Option ℕ) (found : ℕ) → or_unreachable idx ≡ ok found → idx ≡ some found
unfolding or_unreachable
or_unreachable-exact none found h = cc h
or_unreachable-exact (some a) found h = ap some (ground (arith, h))

odd_lem : (idx : ℕ) → odd (idx * 8 + 1) ≡ true
odd_lem idx = let r : (idx * 8 + 1) % 2 ≡ 1 = omega arith in rw r refl

wide_row :
    (width : Width) (idx : ℕ)
    → idx < 8
    → width_at (idx * 8 + 1) (is_wide width) (is_small width) ≡ width
    → IsOpcode width (idx * 8 + 1)
wide_row width idx h parity = record {
  no_rex_byte = λ r. absurd (omega (arith, h, r));
  no_size_byte = λ r. absurd (omega (arith, h, r));
  parity = parity;
}

-- The row of opcodes for a register source.
row_lem :
    (width : Width) (idx : ℕ)
    → idx < 8
    → width ≢ x
    → IsOpcode width (idx * 8 + byte_or width 0x00 0x01)
unfolding width_eq width_at
row_lem b idx h n =
    let e : odd (idx * 8 + 0) ≡ false = let r : (idx * 8 + 0) % 2 ≡ 0 = omega arith in rw r refl in
    record {
      no_rex_byte = λ r. absurd (omega (arith, h, r));
      no_size_byte = λ r. absurd (omega (arith, h, r));
      parity = rw e refl;
    }
row_lem w idx h n = wide_row w idx h (rw (odd_lem idx) refl)
row_lem l idx h n = wide_row l idx h (rw (odd_lem idx) refl)
row_lem q idx h n = wide_row q idx h (rw (odd_lem idx) refl)
row_lem x idx h n = absurd (n refl)

row_registers :
    (stem : Bytes) (idx : ℕ) (width : Width) (src dst : Reg) (mnemonic : Bytes) (enc : Encoded)
    (s : Bytes)
    → arith_idx stem ≡ some idx
    → width ≢ x
    → IsReg src
    → IsReg dst
    → encode_arith stem width (reg src ∷ reg dst ∷ []) mnemonic ≡ ok enc
    → read_registers (enc.bytes ++ s)
      ≡ some
          (record { opcode = idx * 8 + byte_or width 0x00 0x01; register = src; operand = dst }, s)
unfolding encode_arith arith_parts check_width
row_registers stem idx width src dst mnemonic enc s row n known_src known_dst h =
    let (found, c, h1) = >>=-eq-ok (or_unreachable (arith_idx stem)) _ h in
    let same : found ≡ idx =
      let r = or_unreachable-exact (arith_idx stem) found c in ground (arith, r, row) in
    let (next, e, f) =
      >>=-eq-ok (arith_parts found width (reg src ∷ reg dst ∷ []) mnemonic (width_setup width new))
        _ h1 in
    let (same_src, g) = guard-eq-ok _ _ _ e in
    let (same_dst, k) = guard-eq-ok _ _ _ g in
    let form : pair_form width (found * 8 + byte_or width 0x00 0x01) src dst ≡ next = cc k in
    let form' : pair_form width (idx * 8 + byte_or width 0x00 0x01) src dst ≡ next =
      ap (λ (i : ℕ). pair_form width (i * 8 + byte_or width 0x00 0x01) src dst) (sym same) ∙ form in
    pair_lem width (idx * 8 + byte_or width 0x00 0x01) src dst enc
      (row_lem width idx (arith_idx-lt stem idx row) n) known_src known_dst
      (width_eq_lem src.width width same_src) (width_eq_lem dst.width width same_dst) n
      (ap finish form' ∙ f) s

-- The place of an operation in the table.
unfoldable place_of : Operation → ℕ
place_of addition = 0
place_of inclusive_or = 1
place_of addition_with_carry = 2
place_of subtraction_with_borrow = 3
place_of conjunction = 4
place_of subtraction = 5
place_of exclusive_or = 6
place_of comparison = 7

spelled-arith_idx : (op : Operation) → arith_idx (spelled op) ≡ some (place_of op)
unfolding arith_idx lookup text_eq spelled place_of
spelled-arith_idx addition = refl
spelled-arith_idx inclusive_or = refl
spelled-arith_idx addition_with_carry = refl
spelled-arith_idx subtraction_with_borrow = refl
spelled-arith_idx conjunction = refl
spelled-arith_idx subtraction = refl
spelled-arith_idx exclusive_or = refl
spelled-arith_idx comparison = refl

operation_at-bytes : (op : Operation) → operation_at (place_of op * 8 + 0) ≡ some op
unfolding operation_at place_of
operation_at-bytes addition = refl
operation_at-bytes inclusive_or = refl
operation_at-bytes addition_with_carry = refl
operation_at-bytes subtraction_with_borrow = refl
operation_at-bytes conjunction = refl
operation_at-bytes subtraction = refl
operation_at-bytes exclusive_or = refl
operation_at-bytes comparison = refl

operation_at-words : (op : Operation) → operation_at (place_of op * 8 + 1) ≡ some op
unfolding operation_at place_of
operation_at-words addition = refl
operation_at-words inclusive_or = refl
operation_at-words addition_with_carry = refl
operation_at-words subtraction_with_borrow = refl
operation_at-words conjunction = refl
operation_at-words subtraction = refl
operation_at-words exclusive_or = refl
operation_at-words comparison = refl

operation_at-place_of :
    (op : Operation) (width : Width)
    → operation_at (place_of op * 8 + byte_or width 0x00 0x01) ≡ some op
operation_at-place_of op width = elim (Bool-cases (width_eq width b)) [
  | inl e ↦ rw e (operation_at-bytes op)
  | inr e ↦ rw e (operation_at-words op)
]

-- An operation between registers that `encode_arith` encodes, under the mnemonic of one of the eight
-- operations, with registers that there are and an operand size that is a general register's, is
-- read as that operation with that source and that destination, and nothing behind its bytes is read.
pub encode_arith-registers :
    (op : Operation) (width : Width) (src dst : Reg) (mnemonic : Bytes) (enc : Encoded) (s : Bytes)
    → width ≢ x
    → IsReg src
    → IsReg dst
    → encode_arith (spelled op) width (reg src ∷ reg dst ∷ []) mnemonic ≡ ok enc
    → read_computation (enc.bytes ++ s)
      ≡ some (record { operation = op; source = src; destination = dst }, s)
unfolding read_computation computation_in computation_of
encode_arith-registers op width src dst mnemonic enc s n known_src known_dst h =
    let pair =
      row_registers (spelled op) (place_of op) width src dst mnemonic enc s (spelled-arith_idx op) n
        known_src known_dst h in
    let found : Pair = record {
      opcode = place_of op * 8 + byte_or width 0x00 0x01;
      register = src;
      operand = dst;
    } in
    ap computation_in pair ∙ ap (λ o. computation_of o found s) (operation_at-place_of op width)
