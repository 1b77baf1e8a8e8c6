-- ===== src/X86/Encode/Reader.antt =====
-- How a processor in 64-bit mode reads an instruction with a register and a memory operand: the
-- specification of the forms of src/x86/encode.rs that have one, independent of them.
use afs_as.Base.{
  ℕ, ◌-◌, ◌/◌, ◌%◌, Bool, true, false, ◌&&◌, not, Option, none, some, [], ◌∷◌, leb, ◌==◌,
  if◌then◌else◌,
}
use afs_as.Base.Bytes.{Bytes}
use afs_as.X86.Reg.{Width, b, w, l, q, Reg, gp_reg_of, high_reg_of, byte_reg_of}
use afs_as.X86.Mem.Decode.{Address, extended, decode}

-- The prefix: whether it is there, and its bits.
pub record Bits : Type 0 where
  pub present : Bool
  pub wide : Bool
  pub field : Bool
  pub index : Bool
  pub base : Bool

abbrev pub absent : Bits
absent = record { present = false; wide = false; field = false; index = false; base = false }

abbrev pub odd : ℕ → Bool
odd n = n % 2 == 1

unfoldable pub read_bits : ℕ → Bits
read_bits y = record {
  present = true;
  wide = odd (y / 8);
  field = odd (y / 4);
  index = odd (y / 2);
  base = odd y;
}

-- The bytes 0x40 to 0x4f are a prefix.
unfoldable pub read_rex : Bytes → Bits × Bytes
read_rex [] = (absent, [])
read_rex (y ∷ s) = if y / 16 == 4 then (read_bits y, s) else (absent, y ∷ s)

-- The prefix that asks for 16 bits.
unfoldable pub read_size : Bytes → Bool × Bytes
read_size [] = (false, [])
read_size (y ∷ s) = if y == 0x66 then (true, s) else (false, y ∷ s)

-- An even opcode works on bytes.
unfoldable pub width_at : ℕ → Bool → Bool → Width
width_at opcode wide small = if odd opcode then (if wide then q else if small then w else l) else b

-- The register of a number: the bytes 4 to 7 are the high ones, unless there is a prefix.
unfoldable pub register_at : Width → Bool → ℕ → Reg
register_at b present n = if leb 4 n && not present then high_reg_of (n - 4) else byte_reg_of n
register_at width present n = gp_reg_of n width

pub record Form : Type 0 where
  pub opcode : ℕ
  pub register : Reg
  pub address : Address

-- What stands behind the prefixes.
unfoldable pub read_form : Bool → Bits → Bytes → Option (Form × Bytes)
read_form small bits [] = none
read_form small bits (opcode ∷ s) = elim (decode bits.index bits.base s) [
  | none ↦ none
  | some (field, address, rest) ↦
      let width = width_at opcode bits.wide small in
      let register = register_at width bits.present (extended bits.field field) in
      some (record { opcode = opcode; register = register; address = address }, rest)
]

unfoldable pub read_instruction : Bytes → Option (Form × Bytes)
read_instruction s =
    let (small, s1) = read_size s in let (bits, s2) = read_rex s1 in read_form small bits s2

-- An instruction whose operands are both registers.
pub record Pair : Type 0 where
  pub opcode : ℕ
  pub register : Reg
  pub operand : Reg

unfoldable pub read_pair : Bool → Bits → Bytes → Option (Pair × Bytes)
read_pair small bits (opcode ∷ y ∷ s) =
    let width = width_at opcode bits.wide small in
    let register = register_at width bits.present (extended bits.field (y / 8 % 8)) in
    let operand = register_at width bits.present (extended bits.base (y % 8)) in
    if y / 64 == 3
    then some (record { opcode = opcode; register = register; operand = operand }, s)
    else none
read_pair small bits _ = none

unfoldable pub read_registers : Bytes → Option (Pair × Bytes)
read_registers s =
    let (small, s1) = read_size s in let (bits, s2) = read_rex s1 in read_pair small bits s2
