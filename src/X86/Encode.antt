-- ===== src/X86/Encode.antt =====
-- Instruction families of src/x86/encode.rs: `encode_mov`, `encode_lea`, the branches and `encode_setcc`.
pub mod Reader
pub mod Prefix
pub mod Exact
pub mod Moves
pub mod Registers
pub mod Families
pub mod Modified
pub mod Operation
pub mod Arith
use afs_as.Base.{
  ℕ, ◌+◌, Bool, true, false, Option, none, some, List, [], ◌∷◌, ◌++◌, Result, ok, err, panic, ◌>>=◌,
  ◌>>◌, guard, ok_or, ◌==◌, if◌then◌else◌,
}
use afs_as.Base.Bytes.{Bytes, to_le}
use afs_as.Base.Int.{ℤ, pos, negsuc, is_i32}
use afs_as.Base.Text.{text, lookup}
use afs_as.X86.Reg.{Width, b, w, l, q, x, RegClass, Reg, low3}
use afs_as.X86.Operand.{
  MemOperand, Operand, reg, imm, sym, indirect_reg, indirect_mem, EncodeError, suffix_width,
  unsupported, unknown_condition, immediate_range,
}
use afs_as.X86.Rex.{Rex, slot_r, slot_b, merge_reg, shl}
use afs_as.X86.Mem.{pattern, fields}
use afs_as.X86.Parts.{
  InsnReloc, LabelFix, Encoded, Parts, new, r_x86_64_plt32, width_setup, finish, modrm_rr,
}
use afs_as.X86.Parts
use Prim.Native.Nat.{bit_or}

-- `a == b` on widths.
unfoldable pub width_eq : Width → Width → Bool
width_eq b b = true
width_eq w w = true
width_eq l l = true
width_eq q q = true
width_eq x x = true
width_eq _ _ = false

unfoldable pub check_width : Reg → Width → Bytes → Result EncodeError (Unit {0})
check_width r width mnemonic = guard (width_eq r.width width) (suffix_width mnemonic width r)

unfoldable pub is_xmm : RegClass → Bool
is_xmm RegClass.xmm = true
is_xmm _ = false

unfoldable pub gp_reg : Operand → Option Reg
gp_reg (reg r) = if is_xmm r.class then none else some r
gp_reg _ = none

abbrev pub conditions : List (Bytes × ℕ)
conditions =
    (text "o", 0)
    ∷ (text "no", 1)
    ∷ (text "b", 2)
    ∷ (text "c", 2)
    ∷ (text "nae", 2)
    ∷ (text "ae", 3)
    ∷ (text "nb", 3)
    ∷ (text "nc", 3)
    ∷ (text "e", 4)
    ∷ (text "z", 4)
    ∷ (text "ne", 5)
    ∷ (text "nz", 5)
    ∷ (text "be", 6)
    ∷ (text "na", 6)
    ∷ (text "a", 7)
    ∷ (text "nbe", 7)
    ∷ (text "s", 8)
    ∷ (text "ns", 9)
    ∷ (text "p", 10)
    ∷ (text "pe", 10)
    ∷ (text "np", 11)
    ∷ (text "po", 11)
    ∷ (text "l", 12)
    ∷ (text "nge", 12)
    ∷ (text "ge", 13)
    ∷ (text "nl", 13)
    ∷ (text "le", 14)
    ∷ (text "ng", 14)
    ∷ (text "g", 15)
    ∷ (text "nle", 15)
    ∷ []

unfoldable pub cond_code : Bytes → Option ℕ
unfolding lookup
cond_code cc = lookup cc conditions

-- `p.opcode.push(opcode)`
abbrev pub push_opcode : Parts → ℕ → Parts
push_opcode p opcode = record p { opcode = p.opcode ++ (opcode ∷ []) }

abbrev pub push_tail : Parts → Bytes → Parts
push_tail p bytes = record p { tail = p.tail ++ bytes }

abbrev pub merge_r : Parts → Reg → Parts
merge_r p r = record p { rex = merge_reg p.rex r slot_r }

abbrev pub merge_b : Parts → Reg → Parts
merge_b p r = record p { rex = merge_reg p.rex r slot_b }

abbrev pub byte_or : Width → ℕ → ℕ → ℕ
byte_or width narrow wide = if width_eq width b then narrow else wide

abbrev pub call_ext : ℕ → ℕ
call_ext opcode = if opcode == 0xe8 then 2 else 4

-- `rel32` with a zero field, and the relocation that gas writes.
abbrev pub branch_reloc : Bytes → InsnReloc
branch_reloc s = record { offset = 1; sym = s; r_type = r_x86_64_plt32; addend = negsuc 3 }

unfoldable pub encode_call_jmp : List Operand → ℕ → Bytes → Result EncodeError Encoded
encode_call_jmp (sym s ∷ []) opcode what =
    ok (record { bytes = opcode ∷ to_le 4 0; reloc = some (branch_reloc s); label_fix = none })
encode_call_jmp (indirect_reg r ∷ []) opcode what = do
  check_width r q what
  finish (push_tail (push_opcode (merge_b new r) 0xff) (fields 3 (call_ext opcode) (low3 r) ∷ []))
encode_call_jmp (indirect_mem m ∷ []) opcode what = do
  p ← Parts.mem (push_opcode new 0xff) (call_ext opcode) m
  finish p
encode_call_jmp _ opcode what = err (unsupported what)

unfoldable pub jcc_to : ℕ → List Operand → Result EncodeError Encoded
jcc_to code (sym label ∷ []) = ok (record {
  bytes = 0x0f ∷ (0x80 + code) ∷ to_le 4 0;
  reloc = none;
  label_fix = some (record { label = label; disp_offset = 2 });
})
jcc_to code _ = err (unsupported (text "jcc"))

unfoldable pub encode_jcc : Bytes → List Operand → Result EncodeError Encoded
encode_jcc cc ops = do code ← ok_or (cond_code cc) (unknown_condition cc); jcc_to code ops

unfoldable pub set_to : ℕ → List Operand → Result EncodeError Encoded
set_to code (operand ∷ []) = do
  r ← ok_or (gp_reg operand) (unsupported (text "setcc"))
  check_width r b (text "setcc")
  let p = record (merge_b new r) { opcode = 0x0f ∷ (0x90 + code) ∷ [] } in
      finish (push_tail p (bit_or (shl 3 6) (low3 r) ∷ []))
set_to code _ = err (unsupported (text "setcc"))

unfoldable pub encode_setcc : Bytes → List Operand → Result EncodeError Encoded
encode_setcc cc ops = do code ← ok_or (cond_code cc) (unknown_condition cc); set_to code ops

-- `mov $imm, %reg`
unfoldable pub mov_imm : Width → Parts → ℤ → Reg → Result EncodeError Parts
mov_imm b p v dst =
    ok (push_tail (push_opcode (merge_b p dst) (0xb0 + low3 dst)) (pattern 8 v ∷ []))
mov_imm l p v dst =
    ok (push_tail (push_opcode (merge_b p dst) (0xb8 + low3 dst)) (to_le 4 (pattern 32 v)))
mov_imm w p v dst =
    ok (push_tail (push_opcode (merge_b p dst) (0xb8 + low3 dst)) (to_le 2 (pattern 16 v)))
mov_imm q p v dst = ok (
    if is_i32 v
    then push_tail (push_opcode (merge_b p dst) 0xc7)
        (bit_or (shl 3 6) (low3 dst) ∷ to_le 4 (pattern 32 v))
    else push_tail (push_opcode (merge_b p dst) (0xb8 + low3 dst)) (to_le 8 (pattern 64 v)))
mov_imm x p v dst = panic

-- The immediate of `mov $imm, mem`.
unfoldable pub mov_imm_tail : Width → ℤ → Bytes → Result EncodeError Bytes
mov_imm_tail b v mnemonic = ok (pattern 8 v ∷ [])
mov_imm_tail w v mnemonic = ok (to_le 2 (pattern 16 v))
mov_imm_tail q v mnemonic = do
  guard (is_i32 v) (immediate_range mnemonic)
  ok (to_le 4 (pattern 32 v))
mov_imm_tail _ v mnemonic = ok (to_le 4 (pattern 32 v))

unfoldable pub mov_parts : Width → List Operand → Bytes → Parts → Result EncodeError Parts
mov_parts width (reg src ∷ reg dst ∷ []) mnemonic p = do
  check_width src width mnemonic
  check_width dst width mnemonic
  ok (modrm_rr (push_opcode p (byte_or width 0x88 0x89)) src dst)
mov_parts width (reg src ∷ Operand.mem m ∷ []) mnemonic p = do
  check_width src width mnemonic
  Parts.mem (push_opcode (merge_r p src) (byte_or width 0x88 0x89)) (low3 src) m
mov_parts width (Operand.mem m ∷ reg dst ∷ []) mnemonic p = do
  check_width dst width mnemonic
  Parts.mem (push_opcode (merge_r p dst) (byte_or width 0x8a 0x8b)) (low3 dst) m
mov_parts width (imm v ∷ reg dst ∷ []) mnemonic p = do
  check_width dst width mnemonic
  mov_imm width p v dst
mov_parts width (imm v ∷ Operand.mem m ∷ []) mnemonic p = do
  next ← Parts.mem (push_opcode p (byte_or width 0xc6 0xc7)) 0 m
  tail ← mov_imm_tail width v mnemonic
  ok (push_tail next tail)
mov_parts width _ mnemonic p = err (unsupported mnemonic)

unfoldable pub encode_mov : Width → List Operand → Bytes → Result EncodeError Encoded
encode_mov width ops mnemonic = do
  p ← mov_parts width ops mnemonic (width_setup width new)
  finish p

unfoldable pub encode_lea : Width → List Operand → Bytes → Result EncodeError Encoded
encode_lea width (Operand.mem m ∷ reg dst ∷ []) mnemonic = do
  check_width dst width mnemonic
  guard (if width_eq width b then false else true) (unsupported mnemonic)
  p ← Parts.mem (push_opcode (merge_r (width_setup width new) dst) 0x8d) (low3 dst) m
  finish p
encode_lea width _ mnemonic = err (unsupported mnemonic)
