-- ===== src/X86.antt =====
-- The x86-64 operands of src/x86/mod.rs. The children model src/x86/reg.rs and the part of
-- src/x86/encode.rs that turns operands into bytes.
pub mod Reg
pub mod Operand
pub mod Rex
pub mod Mem
pub mod Parts
pub mod Encode
mod Tests
