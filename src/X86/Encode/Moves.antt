-- ===== src/X86/Encode/Moves.antt =====
-- What a processor reads in the bytes of `encode_mov` and `encode_lea` of src/x86/encode.rs.
use afs_as.Base.{
  ◌≡◌, ◌≢◌, refl, true, false, some, [], ◌∷◌, ◌++◌, ok, >>=-eq-ok, guard-eq-ok, if◌then◌else◌,
  arith,
}
use afs_as.Base.Bytes.{Bytes}
use afs_as.X86.Reg.{Width, b, w, l, q, x, Reg, low3}
use afs_as.X86.Reg.Names.{IsReg}
use afs_as.X86.Operand.{MemOperand, EncodeError, suffix_width, unsupported, reg}
use afs_as.X86.Operand
use afs_as.X86.Mem.Exact.{IsEncodable, address_of}
use afs_as.X86.Parts.{Encoded, Parts, new, width_setup, finish}
use afs_as.X86.Parts
use afs_as.X86.Encode.{byte_or, width_eq, check_width, mov_parts, encode_mov, encode_lea}
use afs_as.X86.Encode.Reader.{width_at, read_instruction}
use afs_as.X86.Encode.Exact.{IsOpcode, start_form, form_lem}

pub width_eq_lem : (v width : Width) → width_eq v width ≡ true → v ≡ width
unfolding width_eq
width_eq_lem v width h = ground (arith, h)

-- The rows of opcodes for a store, a load and an address.
pub store_lem : (width : Width) → width ≢ x → IsOpcode width (byte_or width 0x88 0x89)
unfolding width_eq width_at
store_lem b n = record { no_rex_byte = omega arith; no_size_byte = omega arith; parity = refl }
store_lem w n = record { no_rex_byte = omega arith; no_size_byte = omega arith; parity = refl }
store_lem l n = record { no_rex_byte = omega arith; no_size_byte = omega arith; parity = refl }
store_lem q n = record { no_rex_byte = omega arith; no_size_byte = omega arith; parity = refl }
store_lem x n = absurd (n refl)

load_lem : (width : Width) → width ≢ x → IsOpcode width (byte_or width 0x8a 0x8b)
unfolding width_eq width_at
load_lem b n = record { no_rex_byte = omega arith; no_size_byte = omega arith; parity = refl }
load_lem w n = record { no_rex_byte = omega arith; no_size_byte = omega arith; parity = refl }
load_lem l n = record { no_rex_byte = omega arith; no_size_byte = omega arith; parity = refl }
load_lem q n = record { no_rex_byte = omega arith; no_size_byte = omega arith; parity = refl }
load_lem x n = absurd (n refl)

lea_lem :
    (width : Width)
    → width ≢ x
    → (if width_eq width b then false else true) ≡ true
    → IsOpcode width 0x8d
unfolding width_eq width_at
lea_lem b n e = cc e
lea_lem w n e = record { no_rex_byte = omega arith; no_size_byte = omega arith; parity = refl }
lea_lem l n e = record { no_rex_byte = omega arith; no_size_byte = omega arith; parity = refl }
lea_lem q n e = record { no_rex_byte = omega arith; no_size_byte = omega arith; parity = refl }
lea_lem x n e = absurd (n refl)

-- A store that `encode_mov` encodes, of a register that there is to an address that has an encoding
-- and with an operand size that is a general register's, is read as the store of that register to
-- that address, and nothing behind its bytes is read.
pub encode_mov-store :
    (width : Width) (src : Reg) (m : MemOperand) (mnemonic : Bytes) (enc : Encoded) (s : Bytes)
    → width ≢ x
    → IsReg src
    → IsEncodable m
    → encode_mov width (reg src ∷ Operand.mem m ∷ []) mnemonic ≡ ok enc
    → read_instruction (enc.bytes ++ s)
      ≡ some
          (record { opcode = byte_or width 0x88 0x89; register = src; address = address_of m }, s)
unfolding encode_mov mov_parts check_width
encode_mov-store width src m mnemonic enc s n known encodable h =
    let (next, e, f) =
      >>=-eq-ok (mov_parts width (reg src ∷ Operand.mem m ∷ []) mnemonic (width_setup width new)) _
        h in
    let (same, g) = guard-eq-ok _ _ _ e in
    form_lem width (byte_or width 0x88 0x89) src m next enc (store_lem width n) known
      (width_eq_lem src.width width same) n encodable g f s

-- A load that `encode_mov` encodes, into a register that there is from an address that has an encoding
-- and with an operand size that is a general register's, is read as the load of that register from
-- that address, and nothing behind its bytes is read.
pub encode_mov-load :
    (width : Width) (dst : Reg) (m : MemOperand) (mnemonic : Bytes) (enc : Encoded) (s : Bytes)
    → width ≢ x
    → IsReg dst
    → IsEncodable m
    → encode_mov width (Operand.mem m ∷ reg dst ∷ []) mnemonic ≡ ok enc
    → read_instruction (enc.bytes ++ s)
      ≡ some
          (record { opcode = byte_or width 0x8a 0x8b; register = dst; address = address_of m }, s)
unfolding encode_mov mov_parts check_width
encode_mov-load width dst m mnemonic enc s n known encodable h =
    let (next, e, f) =
      >>=-eq-ok (mov_parts width (Operand.mem m ∷ reg dst ∷ []) mnemonic (width_setup width new)) _
        h in
    let (same, g) = guard-eq-ok _ _ _ e in
    form_lem width (byte_or width 0x8a 0x8b) dst m next enc (load_lem width n) known
      (width_eq_lem dst.width width same) n encodable g f s

-- What `encode_lea` encodes, for a register that there is, an address that has an encoding and an
-- operand size that is a general register's, is read as the address computation into that register,
-- and nothing behind its bytes is read.
pub encode_lea-address :
    (width : Width) (dst : Reg) (m : MemOperand) (mnemonic : Bytes) (enc : Encoded) (s : Bytes)
    → width ≢ x
    → IsReg dst
    → IsEncodable m
    → encode_lea width (Operand.mem m ∷ reg dst ∷ []) mnemonic ≡ ok enc
    → read_instruction (enc.bytes ++ s)
      ≡ some (record { opcode = 0x8d; register = dst; address = address_of m }, s)
unfolding encode_lea check_width
encode_lea-address width dst m mnemonic enc s n known encodable h =
    let (same, h1) = guard-eq-ok _ _ _ h in
    let (wide, h2) = guard-eq-ok _ _ _ h1 in
    let (next, e, f) = >>=-eq-ok (Parts.mem (start_form width 0x8d dst) (low3 dst) m) _ h2 in
    form_lem width 0x8d dst m next enc (lea_lem width n wide) known
      (width_eq_lem dst.width width same) n encodable e f s
