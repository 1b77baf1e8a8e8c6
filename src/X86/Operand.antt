-- ===== src/X86/Operand.antt =====
-- The operands of src/x86/mod.rs, and the errors of src/x86/encode.rs.
use afs_as.Base.{ℕ, Option, some, none}
use afs_as.Base.Bytes.{Bytes}
use afs_as.Base.Int.{ℤ, pos}
use afs_as.X86.Reg.{Reg, Width}

pub record MemOperand : Type 0 where
  pub disp : ℤ
  pub rip_sym : Option Bytes
  pub base : Option Reg
  pub index : Option Reg
  pub scale : ℕ

unfoldable pub base_only : Reg → MemOperand
base_only base = record { disp = pos 0; rip_sym = none; base = some base; index = none; scale = 1 }

unfoldable pub rip : Bytes → ℤ → MemOperand
rip sym disp = record { disp = disp; rip_sym = some sym; base = none; index = none; scale = 1 }

pub data Operand : Type 0 where
  reg indirect_reg : Reg → Operand
  imm : ℤ → Operand
  mem indirect_mem : MemOperand → Operand
  sym : Bytes → Operand

-- The messages, with the values that their texts show.
pub data EncodeError : Type 0 where
  high_byte_with_rex scale_without_index no_address stack_pointer_index : EncodeError
  index_width base_width : Reg → EncodeError
  invalid_scale : ℕ → EncodeError
  displacement_range : ℤ → EncodeError
  suffix_width : Bytes → Width → Reg → EncodeError
  unsupported : Bytes → EncodeError
  unknown_condition : Bytes → EncodeError
  immediate_range : Bytes → EncodeError
