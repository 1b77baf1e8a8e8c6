-- ===== src/X86/Encode/Operation.antt =====
-- How a processor reads an arithmetic or logical instruction between registers: the specification of
-- the register form of `encode_arith` of src/x86/encode.rs, independent of its table of opcodes.
use afs_as.Base.{ℕ, ◌||◌, Option, none, some, ◌==◌, if◌then◌else◌}
use afs_as.Base.Bytes.{Bytes}
use afs_as.Base.Text.{text}
use afs_as.X86.Reg.{Reg}
use afs_as.X86.Encode.Reader.{Pair, read_registers}

pub data Operation : Type 0 where
  addition inclusive_or addition_with_carry subtraction_with_borrow conjunction : Operation
  subtraction exclusive_or comparison : Operation

-- The mnemonic, without the suffix of the operand size.
unfoldable pub spelled : Operation → Bytes
spelled addition = text "add"
spelled inclusive_or = text "or"
spelled addition_with_carry = text "adc"
spelled subtraction_with_borrow = text "sbb"
spelled conjunction = text "and"
spelled subtraction = text "sub"
spelled exclusive_or = text "xor"
spelled comparison = text "cmp"

-- The opcodes with a register as the source, on bytes and on the other sizes.
unfoldable pub operation_at : ℕ → Option Operation
operation_at n =
    if n == 0x00 || n == 0x01
    then some addition
    else if n == 0x08 || n == 0x09
    then some inclusive_or
    else if n == 0x10 || n == 0x11
    then some addition_with_carry
    else if n == 0x18 || n == 0x19
    then some subtraction_with_borrow
    else if n == 0x20 || n == 0x21
    then some conjunction
    else if n == 0x28 || n == 0x29
    then some subtraction
    else if n == 0x30 || n == 0x31
    then some exclusive_or
    else if n == 0x38 || n == 0x39
    then some comparison
    else none

pub record Computation : Type 0 where
  pub operation : Operation
  pub source : Reg
  pub destination : Reg

unfoldable pub computation_of : Option Operation → Pair → Bytes → Option (Computation × Bytes)
computation_of none pair rest = none
computation_of (some op) pair rest =
    some (record { operation = op; source = pair.register; destination = pair.operand }, rest)

unfoldable pub computation_in : Option (Pair × Bytes) → Option (Computation × Bytes)
computation_in none = none
computation_in (some (pair, rest)) = computation_of (operation_at pair.opcode) pair rest

unfoldable pub read_computation : Bytes → Option (Computation × Bytes)
read_computation s = computation_in (read_registers s)
