-- ===== src/X86/Mem.antt =====
-- `encode_mem` of src/x86/encode.rs: the ModRM byte, the SIB byte and the displacement of a memory
-- operand. The prefix that the source changes in place is an argument and part of the result.
pub mod Decode
pub mod Bits
pub mod Shapes
pub mod Encoded
pub mod Exact
pub mod Refused
pub mod Bounds
use afs_as.Base.{
  ℕ, ◌+◌, ◌-◌, ◌*◌, ◌%◌, ◌^◌, Bool, true, false, not, ◌&&◌, ◌||◌, Option, none, some, List, [], ◌∷◌,
  ◌++◌, length, ltb, ◌==◌, Result, ok, err, ◌>>=◌, ◌>>◌, guard, if◌then◌else◌,
}
use afs_as.Base.Bytes.{Bytes, to_le}
use afs_as.Base.Int.{ℤ, pos, negsuc, int_eq, is_i32}
use afs_as.X86.Reg.{Width, RegClass, Reg, low3, rex_bit}
use afs_as.X86.Operand.{
  MemOperand, EncodeError, scale_without_index, no_address, stack_pointer_index, index_width,
  base_width, invalid_scale, displacement_range,
}
use afs_as.X86.Rex.{Rex, RexSlot, slot_b, slot_x, merge_reg, shl}
use Prim.Native.Nat.{bit_and, bit_or}

pub record MemEnc : Type 0 where
  pub bytes : Bytes
  pub rip_disp_offset : Option ℕ

-- The two's complement pattern of `k` bits: `as` to a narrower integer.
unfoldable pub pattern : ℕ → ℤ → ℕ
pattern k (pos n) = n % 2 ^ k
pattern k (negsuc n) = 2 ^ k - 1 - n % 2 ^ k

-- `i8::try_from(value).is_ok()`
unfoldable pub is_i8 : ℤ → Bool
is_i8 (pos n) = ltb n 128
is_i8 (negsuc n) = ltb n 128

unfoldable pub is_quad : Reg → Bool
is_quad r = elim r.width [ Width.q ↦ true | _ ↦ false ]

unfoldable pub is_gp : Reg → Bool
is_gp r = elim r.class [ RegClass.gp ↦ true | _ ↦ false ]

unfoldable pub is_stack_pointer : Reg → Bool
is_stack_pointer r = r.num == 4 && (is_gp r && not (rex_bit r))

unfoldable pub is_none : Option Reg → Bool
is_none none = true
is_none (some r) = false

unfoldable pub merge_index : Option Reg → Rex → Result EncodeError Rex
merge_index none rex = ok rex
merge_index (some idx) rex = do
  guard (is_quad idx) (index_width idx)
  guard (not (is_stack_pointer idx)) stack_pointer_index
  ok (merge_reg rex idx slot_x)

unfoldable pub merge_base : Option Reg → Rex → Result EncodeError Rex
merge_base none rex = ok rex
merge_base (some b) rex = do guard (is_quad b) (base_width b); ok (merge_reg rex b slot_b)

unfoldable pub scale_bits : ℕ → Result EncodeError ℕ
scale_bits s =
    if s == 1
    then ok 0
    else if s == 2
    then ok 1
    else if s == 4
    then ok 2
    else if s == 8
    then ok 3
    else err (invalid_scale s)

-- `modbits` and `disp_bytes` beside a base register.
unfoldable pub displacement : ℤ → Reg → ℕ × Bytes
displacement disp b =
    let force_disp8 = int_eq disp (pos 0) && low3 b == 5 in
    if int_eq disp (pos 0) && not force_disp8
    then (0, [])
    else if is_i8 disp
    then (1, pattern 8 disp ∷ [])
    else (2, to_le 4 (pattern 32 disp))

-- `a << 6 | b << 3 | c`
unfoldable pub fields : ℕ → ℕ → ℕ → ℕ
fields a b c = bit_or (bit_or (shl a 6) (shl b 3)) c

unfoldable pub with_base : ℕ → ℕ → ℤ → Reg → Bytes
with_base reg3 scale disp b =
    let (modbits, disp_bytes) = displacement disp b in
    if low3 b == 4
    then (fields modbits reg3 4 ∷ fields scale 4 (low3 b) ∷ []) ++ disp_bytes
    else (fields modbits reg3 (low3 b) ∷ []) ++ disp_bytes

unfoldable pub with_both : ℕ → ℕ → ℤ → Reg → Reg → Bytes
with_both reg3 scale disp b idx =
    let (modbits, disp_bytes) = displacement disp b in
    (fields modbits reg3 4 ∷ fields scale (low3 idx) (low3 b) ∷ []) ++ disp_bytes

unfoldable pub with_index : ℕ → ℕ → ℤ → Reg → Bytes
with_index reg3 scale disp idx =
    (bit_or (shl reg3 3) 4 ∷ fields scale (low3 idx) 5 ∷ []) ++ to_le 4 (pattern 32 disp)

unfoldable pub address_bytes : ℕ → ℕ → ℤ → Option Reg → Option Reg → Result EncodeError Bytes
address_bytes reg3 scale disp (some b) none = ok (with_base reg3 scale disp b)
address_bytes reg3 scale disp (some b) (some idx) = ok (with_both reg3 scale disp b idx)
address_bytes reg3 scale disp none (some idx) = ok (with_index reg3 scale disp idx)
address_bytes reg3 scale disp none none = err no_address

-- The part of `encode_mem` behind the return for `%rip`.
unfoldable pub encode_address : ℕ → MemOperand → Rex → Result EncodeError (MemEnc × Rex)
encode_address reg3 m rex = do
  rex1 ← merge_index m.index rex
  rex2 ← merge_base m.base rex1
  scale ← scale_bits m.scale
  guard (is_i32 m.disp) (displacement_range m.disp)
  out ← address_bytes reg3 scale m.disp m.base m.index
  ok (record { bytes = out; rip_disp_offset = none }, rex2)

unfoldable pub encode_mem : ℕ → MemOperand → Rex → Result EncodeError (MemEnc × Rex)
encode_mem reg_field m rex = do
  guard (not (is_none m.index && not (m.scale == 1))) scale_without_index
  let reg3 = bit_and reg_field 7 in
      elim m.rip_sym [
        | some sym ↦ ok (
          record {
            bytes = (bit_or (shl reg3 3) 5 ∷ []) ++ (0 ∷ 0 ∷ 0 ∷ 0 ∷ []);
            rip_disp_offset = some 1;
          },
          rex,
        )
        | none ↦ encode_address reg3 m rex
      ]
