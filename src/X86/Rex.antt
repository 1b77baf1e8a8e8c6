-- ===== src/X86/Rex.antt =====
-- The REX prefix of src/x86/encode.rs.
use afs_as.Base.{
  ℕ, ◌*◌, ◌%◌, ◌^◌, Bool, true, false, ◌||◌, ◌&&◌, [], ◌∷◌, ◌++◌, Result, ok, err, if◌then◌else◌,
}
use afs_as.Base.Bytes.{Bytes}
use afs_as.X86.Reg.{Reg, rex_bit, rex_forbidden}
use afs_as.X86.Operand.{EncodeError, high_byte_with_rex}
use Prim.Native.Nat.{bit_or}

pub record Rex : Type 0 where
  pub w : Bool
  pub r : Bool
  pub x : Bool
  pub b : Bool
  pub forced : Bool
  pub forbidden : Bool

pub data RexSlot : Type 0 where
  slot_r slot_b slot_x : RexSlot

abbrev pub no_rex : Rex
no_rex = record { w = false; r = false; x = false; b = false; forced = false; forbidden = false }

-- `a << k` on u8.
abbrev pub shl : ℕ → ℕ → ℕ
shl a k = a * 2 ^ k % 2 ^ 8

abbrev pub as_u8 : Bool → ℕ
as_u8 true = 1
as_u8 false = 0

-- The bit of `merge_reg` joins the slot.
abbrev pub merge_bit : Rex → Bool → RexSlot → Rex
merge_bit rex bit slot_r = record rex { r = rex.r || bit }
merge_bit rex bit slot_b = record rex { b = rex.b || bit }
merge_bit rex bit slot_x = record rex { x = rex.x || bit }

unfoldable pub merge_reg : Rex → Reg → RexSlot → Rex
merge_reg rex reg slot =
    let forced = if reg.forces_rex then true else rex.forced in
    let forbidden = if rex_forbidden reg then true else rex.forbidden in
    merge_bit (record rex { forced = forced; forbidden = forbidden }) (rex_bit reg) slot

unfoldable pub any : Rex → Bool
any rex = rex.w || (rex.r || (rex.x || (rex.b || rex.forced)))

-- The byte of the prefix.
unfoldable pub rex_byte : Rex → ℕ
rex_byte rex =
    bit_or
      (bit_or (bit_or (bit_or 0x40 (shl (as_u8 rex.w) 3)) (shl (as_u8 rex.r) 2))
        (shl (as_u8 rex.x) 1))
      (as_u8 rex.b)

unfoldable pub emit : Rex → Bytes → Result EncodeError Bytes
emit rex out =
    if any rex && rex.forbidden
    then err high_byte_with_rex
    else if any rex
    then ok (out ++ (rex_byte rex ∷ []))
    else ok out
