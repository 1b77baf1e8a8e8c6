-- ===== src/X86/Encode/Families.antt =====
-- The further families of integer instructions of src/x86/encode.rs.
use afs_as.Base.{
  ℕ, suc, ◌+◌, ◌-◌, ◌*◌, ◌^◌, Bool, not, ◌&&◌, ◌||◌, Option, none, some, List, [], ◌∷◌, ◌++◌, ltb,
  ◌==◌, Result, ok, err, panic, ◌>>=◌, ◌>>◌, guard, if◌then◌else◌,
}
use afs_as.Base.Bytes.{Bytes, to_le}
use afs_as.Base.Int.{ℤ, pos, negsuc, is_i32}
use afs_as.Base.Text.{text, lookup}
use afs_as.X86.Reg.{Width, b, w, l, q, Reg, low3}
use afs_as.X86.Operand.{Operand, reg, imm, EncodeError, unsupported, immediate_range}
use afs_as.X86.Rex.{shl}
use Prim.Native.Nat.{bit_or}
use afs_as.X86.Mem.{pattern, fields, is_i8, is_gp}
use afs_as.X86.Parts.{Encoded, Parts, new, width_setup, finish, modrm_rr}
use afs_as.X86.Parts
use afs_as.X86.Encode.{width_eq, check_width, push_opcode, push_tail, merge_r, merge_b, byte_or}

-- `unreachable!` in the last arm of a match.
unfoldable pub or_unreachable : {A : Type 0} → Option A → Result EncodeError A
or_unreachable none = panic
or_unreachable (some a) = ok a

-- `p.opcode.extend_from_slice`
abbrev pub push_opcodes : Parts → Bytes → Parts
push_opcodes p bytes = record p { opcode = p.opcode ++ bytes }

-- `as` to a signed integer of `k + 1` bits, and back to i64.
unfoldable pub cast : ℕ → ℤ → ℤ
cast k v =
    let bits = pattern (suc k) v in
    if ltb bits (2 ^ k) then pos bits else negsuc (2 ^ suc k - 1 - bits)

-- `i16::try_from(v).is_ok() || u16::try_from(v).is_ok()`
unfoldable pub is_16 : ℤ → Bool
is_16 (pos n) = ltb n (2 ^ 16)
is_16 (negsuc n) = ltb n (2 ^ 15)

-- The bytes of an immediate at the operand size; a wide one is 32 bits.
unfoldable pub imm_bytes : Width → ℤ → Bytes
imm_bytes b v = pattern 8 v ∷ []
imm_bytes w v = to_le 2 (pattern 16 v)
imm_bytes _ v = to_le 4 (pattern 32 v)

-- `w == Width::Q && i32::try_from(*imm).is_err()` is an error.
unfoldable pub check_imm : Width → ℤ → Bytes → Result EncodeError (Unit {0})
check_imm width v mnemonic =
    guard (not (width_eq width q && not (is_i32 v))) (immediate_range mnemonic)

unfoldable pub is_accumulator : Reg → Bool
is_accumulator r = r.num == 0 && is_gp r

abbrev pub arith_stems : List (Bytes × ℕ)
arith_stems =
    (text "add", 0)
    ∷ (text "or", 1)
    ∷ (text "adc", 2)
    ∷ (text "sbb", 3)
    ∷ (text "and", 4)
    ∷ (text "sub", 5)
    ∷ (text "xor", 6)
    ∷ (text "cmp", 7)
    ∷ []

unfoldable pub arith_idx : Bytes → Option ℕ
unfolding lookup
arith_idx stem = lookup stem arith_stems

-- The immediate at the operand size.
unfoldable pub arith_imm : Width → ℤ → ℤ
arith_imm b v = cast 7 v
arith_imm w v = cast 15 v
arith_imm l v = cast 31 v
arith_imm _ v = v

-- The short form of the accumulator.
unfoldable pub arith_short : ℕ → Width → Parts → ℤ → Reg → Bytes → Result EncodeError Parts
arith_short idx width p v dst mnemonic = do
  check_width dst width mnemonic
  check_imm width v mnemonic
  ok (push_tail (push_opcode p (idx * 8 + byte_or width 0x04 0x05)) (imm_bytes width v))

-- The immediate behind the operand of the group.
unfoldable pub arith_tail : Width → ℤ → Bytes → Parts → Result EncodeError Parts
arith_tail width v mnemonic p =
    if width_eq width b || is_i8 v
    then ok (push_tail p (pattern 8 v ∷ []))
    else check_imm width v mnemonic >> ok (push_tail p (imm_bytes width v))

unfoldable pub arith_group : ℕ → Width → Parts → ℤ → Operand → Bytes → Result EncodeError Parts
arith_group idx width p v (reg dst) mnemonic = do
  check_width dst width mnemonic
  arith_tail width v mnemonic (push_tail (merge_b p dst) (fields 3 idx (low3 dst) ∷ []))
arith_group idx width p v (Operand.mem m) mnemonic = do
  next ← Parts.mem p idx m
  arith_tail width v mnemonic next
arith_group idx width p v _ mnemonic = err (unsupported mnemonic)

unfoldable pub group_opcode : Width → ℤ → ℕ
group_opcode width v = if width_eq width b then 0x80 else if is_i8 v then 0x83 else 0x81

-- `v` is the immediate at the operand size.
unfoldable pub arith_immediate : ℕ → Width → Parts → ℤ → Operand → Bytes → Result EncodeError Parts
arith_immediate idx width p v (reg dst) mnemonic =
    if is_accumulator dst && (width_eq width b || not (is_i8 v))
    then arith_short idx width p v dst mnemonic
    else arith_group idx width (push_opcode p (group_opcode width v)) v (reg dst) mnemonic
arith_immediate idx width p v rm mnemonic =
    arith_group idx width (push_opcode p (group_opcode width v)) v rm mnemonic

unfoldable pub arith_parts : ℕ → Width → List Operand → Bytes → Parts → Result EncodeError Parts
arith_parts idx width (reg src ∷ reg dst ∷ []) mnemonic p = do
  check_width src width mnemonic
  check_width dst width mnemonic
  ok (modrm_rr (push_opcode p (idx * 8 + byte_or width 0x00 0x01)) src dst)
arith_parts idx width (reg src ∷ Operand.mem m ∷ []) mnemonic p = do
  check_width src width mnemonic
  Parts.mem (push_opcode (merge_r p src) (idx * 8 + byte_or width 0x00 0x01)) (low3 src) m
arith_parts idx width (Operand.mem m ∷ reg dst ∷ []) mnemonic p = do
  check_width dst width mnemonic
  Parts.mem (push_opcode (merge_r p dst) (idx * 8 + byte_or width 0x02 0x03)) (low3 dst) m
arith_parts idx width (imm v ∷ rm ∷ []) mnemonic p =
    arith_immediate idx width p (arith_imm width v) rm mnemonic
arith_parts idx width _ mnemonic p = err (unsupported mnemonic)

unfoldable pub encode_arith : Bytes → Width → List Operand → Bytes → Result EncodeError Encoded
encode_arith stem width ops mnemonic = do
  idx ← or_unreachable (arith_idx stem)
  p ← arith_parts idx width ops mnemonic (width_setup width new)
  finish p

-- The operand of `test $imm, %reg`.
unfoldable pub test_reg : Width → Parts → Reg → Parts
test_reg width p r =
    if is_accumulator r
    then push_opcode p (byte_or width 0xa8 0xa9)
    else push_tail (merge_b (push_opcode p (byte_or width 0xf6 0xf7)) r)
        (bit_or (shl 3 6) (low3 r) ∷ [])

unfoldable pub test_parts : Width → List Operand → Bytes → Parts → Result EncodeError Parts
test_parts width (reg a ∷ reg c ∷ []) mnemonic p = do
  check_width a width mnemonic
  check_width c width mnemonic
  ok (modrm_rr (push_opcode p (byte_or width 0x84 0x85)) a c)
test_parts width (imm v ∷ reg r ∷ []) mnemonic p = do
  check_width r width mnemonic
  check_imm width v mnemonic
  ok (push_tail (test_reg width p r) (imm_bytes width v))
test_parts width _ mnemonic p = err (unsupported mnemonic)

unfoldable pub encode_test : Width → List Operand → Bytes → Result EncodeError Encoded
encode_test width ops mnemonic = do
  p ← test_parts width ops mnemonic (width_setup width new)
  finish p

unfoldable pub reg_rm_parts : Width → List Operand → Bytes → Parts → Result EncodeError Parts
reg_rm_parts width (reg src ∷ reg dst ∷ []) mnemonic p = do
  check_width src width mnemonic
  check_width dst width mnemonic
  ok (modrm_rr p src dst)
reg_rm_parts width (reg src ∷ Operand.mem m ∷ []) mnemonic p = do
  check_width src width mnemonic
  Parts.mem (merge_r p src) (low3 src) m
reg_rm_parts width _ mnemonic p = err (unsupported mnemonic)

unfoldable pub encode_reg_rm :
    Bytes → Bytes → Width → List Operand → Bytes → Result EncodeError Encoded
encode_reg_rm byte_opcode wide_opcode width ops mnemonic = do
  p ←
      reg_rm_parts width ops mnemonic (
        push_opcodes (width_setup width new)
          (if width_eq width b then byte_opcode else wide_opcode))
  finish p
