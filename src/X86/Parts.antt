-- ===== src/X86/Parts.antt =====
-- `Parts` of src/x86/encode.rs: the pieces of one instruction, and `finish`, which joins them.
pub mod Reloc
use afs_as.Base.{
  ℕ, ◌+◌, ◌%◌, ◌^◌, Bool, true, Option, none, some, List, [], ◌∷◌, ◌++◌, length, Result, ok, panic,
  ◌>>=◌, if◌then◌else◌,
}
use afs_as.Base.Bytes.{Bytes}
use afs_as.Base.Int.{ℤ, pos, is_i64, ◌-ℤ◌}
use afs_as.X86.Reg.{Width, b, w, l, q, x, Reg, low3}
use afs_as.X86.Operand.{MemOperand, EncodeError}
use afs_as.X86.Rex.{Rex, no_rex, slot_r, slot_b, merge_reg, emit}
use afs_as.X86.Mem.{MemEnc, encode_mem, fields}

pub record InsnReloc : Type 0 where
  pub offset : ℕ
  pub sym : Bytes
  pub r_type : ℕ
  pub addend : ℤ

pub record LabelFix : Type 0 where
  pub label : Bytes
  pub disp_offset : ℕ

pub record Encoded : Type 0 where
  pub bytes : Bytes
  pub reloc : Option InsnReloc
  pub label_fix : Option LabelFix

abbrev pub r_x86_64_pc32 : ℕ
r_x86_64_pc32 = 2

abbrev pub r_x86_64_plt32 : ℕ
r_x86_64_plt32 = 4

-- `rip_reloc` has the offset within the tail, the symbol, and the addend of the operand.
pub record Parts : Type 0 where
  pub prefix : Bytes
  pub rex : Rex
  pub opcode : Bytes
  pub tail : Bytes
  pub rip_reloc : Option (ℕ × Bytes × ℤ)

abbrev pub new : Parts
new = record { prefix = []; rex = no_rex; opcode = []; tail = []; rip_reloc = none }

-- The operand size: a prefix for 16 bits, a bit of REX for 64.
unfoldable pub width_setup : Width → Parts → Parts
width_setup w p = record p { prefix = p.prefix ++ (0x66 ∷ []) }
width_setup q p = record p { rex = record p.rex { w = true } }
width_setup b p = p
width_setup l p = p
width_setup x p = p

-- A difference of i64; an overflow is a panic, as in a build with overflow checks.
unfoldable pub sub_i64 : ℤ → ℤ → Result EncodeError ℤ
sub_i64 a c = if is_i64 (a -ℤ c) then ok (a -ℤ c) else panic

-- The relocation of an instruction of `size` bytes whose tail starts at `tail_start`.
unfoldable pub rip_relocation :
    ℕ → ℕ → Option (ℕ × Bytes × ℤ) → Result EncodeError (Option InsnReloc)
rip_relocation size tail_start none = ok none
rip_relocation size tail_start (some (off, sym, user_addend)) =
    let field_off = tail_start % 2 ^ 32 + off in
    do
      less ← sub_i64 user_addend (pos 4)
      addend ← sub_i64 less (pos size -ℤ pos (field_off + 4))
      ok (some (record { offset = field_off; sym = sym; r_type = r_x86_64_pc32; addend = addend }))

unfoldable pub finish : Parts → Result EncodeError Encoded
finish p = do
  start ← emit p.rex p.prefix
  let bytes = (start ++ p.opcode) ++ p.tail in
      do
        reloc ← rip_relocation (length bytes) (length (start ++ p.opcode)) p.rip_reloc
        ok (record { bytes = bytes; reloc = reloc; label_fix = none })

-- The relocation that `mem` notes, for the offset that `encode_mem` returns.
unfoldable pub noted : Parts → MemOperand → Option ℕ → Result EncodeError (Option (ℕ × Bytes × ℤ))
noted p m none = ok p.rip_reloc
noted p m (some off) = elim m.rip_sym [
  | some sym ↦ ok (some (length p.tail % 2 ^ 32 + off, sym, m.disp))
  | none ↦ panic
]

unfoldable pub mem : Parts → ℕ → MemOperand → Result EncodeError Parts
mem p reg_field m = do
  (enc, rex) ← encode_mem reg_field m p.rex
  rip_reloc ← noted p m enc.rip_disp_offset
  ok (record p { rex = rex; tail = p.tail ++ enc.bytes; rip_reloc = rip_reloc })

unfoldable pub modrm_rr : Parts → Reg → Reg → Parts
modrm_rr p reg rm = record p {
  rex = merge_reg (merge_reg p.rex reg slot_r) rm slot_b;
  tail = p.tail ++ (fields 3 (low3 reg) (low3 rm) ∷ []);
}
