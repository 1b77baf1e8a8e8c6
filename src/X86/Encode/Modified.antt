-- ===== src/X86/Encode/Modified.antt =====
-- The families of src/x86/encode.rs with a register or memory operand that the ModRM byte names alone:
-- multiplication, the two-byte opcodes, group 3, shifts and extensions.
use afs_as.Base.{
  ℕ, Bool, true, not, ◌&&◌, Option, none, some, List, [], ◌∷◌, ◌++◌, ◌==◌, Result, ok, err, ◌>>=◌,
  ◌>>◌, guard, if◌then◌else◌,
}
use afs_as.Base.Bytes.{Bytes, to_le}
use afs_as.Base.Int.{ℤ, pos, int_eq, is_i32}
use afs_as.Base.Text.{text, lookup}
use afs_as.X86.Reg.{Width, b, w, l, q, Reg, low3}
use afs_as.X86.Operand.{Operand, reg, imm, EncodeError, unsupported, immediate_range}
use afs_as.X86.Mem.{pattern, fields, is_i8, is_gp}
use afs_as.X86.Parts.{Encoded, Parts, new, width_setup, finish}
use afs_as.X86.Parts
use afs_as.X86.Encode.{width_eq, check_width, push_opcode, push_tail, merge_r, merge_b, byte_or}
use afs_as.X86.Encode.Families.{or_unreachable, push_opcodes, is_16}

-- The immediate of `imul`.
unfoldable pub imul_tail : Width → ℤ → Bytes → Result EncodeError Bytes
imul_tail width v mnemonic =
    if is_i8 v
    then ok (pattern 8 v ∷ [])
    else if width_eq width w
    then guard (is_16 v) (immediate_range mnemonic) >> ok (to_le 2 (pattern 16 v))
    else guard (is_i32 v) (immediate_range mnemonic) >> ok (to_le 4 (pattern 32 v))

unfoldable pub encode_imul_imm : Width → List Operand → Bytes → Result EncodeError Encoded
encode_imul_imm width (imm v ∷ reg src ∷ reg dst ∷ []) mnemonic = do
  guard (not (width_eq width b)) (unsupported mnemonic)
  check_width src width mnemonic
  check_width dst width mnemonic
  tail ← imul_tail width v mnemonic
  let p = merge_b (merge_r (width_setup width new) dst) src in
      let coded = push_opcode p (if is_i8 v then 0x6b else 0x69) in
      finish (push_tail coded ((fields 3 (low3 dst) (low3 src) ∷ []) ++ tail))
encode_imul_imm width _ mnemonic = err (unsupported mnemonic)

-- `src` into `dst`, with the opcode bytes behind the prefixes.
unfoldable pub rm_parts :
    Bytes → Width → Width → List Operand → Bytes → Parts → Result EncodeError Parts
rm_parts opcode src_width dst_width (reg src ∷ reg dst ∷ []) mnemonic p = do
  check_width src src_width mnemonic
  check_width dst dst_width mnemonic
  ok (
      push_tail (push_opcodes (merge_b (merge_r p dst) src) opcode)
        (fields 3 (low3 dst) (low3 src) ∷ []))
rm_parts opcode src_width dst_width (Operand.mem m ∷ reg dst ∷ []) mnemonic p = do
  check_width dst dst_width mnemonic
  Parts.mem (push_opcodes (merge_r p dst) opcode) (low3 dst) m
rm_parts opcode src_width dst_width _ mnemonic p = err (unsupported mnemonic)

unfoldable pub encode_rm_0f : ℕ → Width → List Operand → Bytes → Result EncodeError Encoded
encode_rm_0f op2 width ops mnemonic = do
  p ← rm_parts (0x0f ∷ op2 ∷ []) width width ops mnemonic (width_setup width new)
  finish p

abbrev pub group_stems : List (Bytes × ℕ)
group_stems =
    (text "not", 2) ∷ (text "neg", 3) ∷ (text "mul", 4) ∷ (text "div", 6) ∷ (text "idiv", 7) ∷ []

unfoldable pub group_parts : ℕ → Width → List Operand → Bytes → Parts → Result EncodeError Parts
group_parts ext width (reg r ∷ []) mnemonic p = do
  check_width r width mnemonic
  ok (push_tail (merge_b p r) (fields 3 ext (low3 r) ∷ []))
group_parts ext width (Operand.mem m ∷ []) mnemonic p = Parts.mem p ext m
group_parts ext width _ mnemonic p = err (unsupported mnemonic)

unfoldable pub encode_group3_5 : Bytes → Width → List Operand → Bytes → Result EncodeError Encoded
unfolding lookup
encode_group3_5 stem width ops mnemonic = do
  ext ← or_unreachable (lookup stem group_stems)
  p ←
      group_parts ext width ops mnemonic
        (push_opcode (width_setup width new) (byte_or width 0xf6 0xf7))
  finish p

abbrev pub shift_stems : List (Bytes × ℕ)
shift_stems = (text "shl", 4) ∷ (text "shr", 5) ∷ (text "sar", 7) ∷ []

-- The opcode, and the operand.
abbrev pub shift_reg : ℕ → Parts → ℕ → Reg → Parts
shift_reg ext p opcode r = push_tail (merge_b (push_opcode p opcode) r) (fields 3 ext (low3 r) ∷ [])

unfoldable pub is_cl : Reg → Bool
is_cl r = r.num == 1 && (width_eq r.width b && is_gp r)

unfoldable pub shift_parts : ℕ → Width → List Operand → Bytes → Parts → Result EncodeError Parts
shift_parts ext width (imm v ∷ reg r ∷ []) mnemonic p = do
  check_width r width mnemonic
  ok (
      if int_eq v (pos 1)
      then shift_reg ext p (byte_or width 0xd0 0xd1) r
      else push_tail (shift_reg ext p (byte_or width 0xc0 0xc1) r) (pattern 8 v ∷ []))
shift_parts ext width (reg cl ∷ reg r ∷ []) mnemonic p =
    if is_cl cl
    then check_width r width mnemonic >> ok (shift_reg ext p (byte_or width 0xd2 0xd3) r)
    else err (unsupported mnemonic)
shift_parts ext width _ mnemonic p = err (unsupported mnemonic)

unfoldable pub encode_shift : Bytes → Width → List Operand → Bytes → Result EncodeError Encoded
unfolding lookup
encode_shift stem width ops mnemonic = do
  ext ← or_unreachable (lookup stem shift_stems)
  p ← shift_parts ext width ops mnemonic (width_setup width new)
  finish p

-- The width of the source and of the destination, and the opcode.
abbrev pub Extension : Type 0
Extension = Width × Width × Bytes

abbrev pub extensions : List (Bytes × Extension)
extensions =
    (text "movzbl", (b, l, 0x0f ∷ 0xb6 ∷ []))
    ∷ (text "movzbq", (b, q, 0x0f ∷ 0xb6 ∷ []))
    ∷ (text "movzwl", (w, l, 0x0f ∷ 0xb7 ∷ []))
    ∷ (text "movzwq", (w, q, 0x0f ∷ 0xb7 ∷ []))
    ∷ (text "movsbl", (b, l, 0x0f ∷ 0xbe ∷ []))
    ∷ (text "movsbq", (b, q, 0x0f ∷ 0xbe ∷ []))
    ∷ (text "movswl", (w, l, 0x0f ∷ 0xbf ∷ []))
    ∷ (text "movswq", (w, q, 0x0f ∷ 0xbf ∷ []))
    ∷ (text "movslq", (l, q, 0x63 ∷ []))
    ∷ []

-- `if dst_w == Width::Q { p.rex.w = true }`
abbrev pub wide_for : Width → Parts
wide_for width = if width_eq width q then record new { rex = record new.rex { w = true } } else new

unfoldable pub extend : Extension → List Operand → Bytes → Result EncodeError Encoded
extend (src_width, dst_width, opcode) ops mnemonic = do
  p ← rm_parts opcode src_width dst_width ops mnemonic (wide_for dst_width)
  finish p

unfoldable pub encode_extension : Bytes → List Operand → Result EncodeError (Option Encoded)
unfolding lookup
encode_extension mnemonic ops = elim (lookup mnemonic extensions) [
  | none ↦ ok none
  | some extension ↦ do encoded ← extend extension ops mnemonic; ok (some encoded)
]
