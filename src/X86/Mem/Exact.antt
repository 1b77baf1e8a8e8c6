-- ===== src/X86/Mem/Exact.antt =====
-- Which memory operands `encode_mem` of src/x86/encode.rs takes, and how its bytes are read.
use afs_as.Base.{
  ℕ, ◌%◌, ◌^◌, ◌<◌, ◌≤◌, ◌≡◌, ◌≢◌, refl, sym, ap, ◌∙◌, ◌↔◌, true, false, not, ◌&&◌, Option, none,
  some, [], ◌∷◌, ◌++◌, ◌==◌, ok, arith,
}
use afs_as.Base.Bytes.{Bytes}
use afs_as.Base.Int.{ℤ, pos, negsuc, is_i32, pos_part, neg_part}
use afs_as.X86.Reg.{Reg, rex_bit, rex_forbidden}
use afs_as.X86.Operand.{MemOperand}
use afs_as.X86.Rex.{Rex, shl, merge_reg, slot_b, slot_x}
use afs_as.X86.Mem.{
  MemEnc, is_quad, is_stack_pointer, is_none, merge_index, merge_base, scale_bits, with_base,
  with_both, with_index, address_bytes, encode_address, encode_mem,
}
use afs_as.X86.Mem.Decode.{Address, at_rip, at, read_disp32, signed, decode}
use afs_as.X86.Mem.Bits.{low_fields, low_three}
use afs_as.X86.Mem.Encoded.{
  quad, IsScale, one, two, four, eight, low_lt, with_base_lem, with_both_lem, with_index_lem,
}
use afs_as.X86.Mem.Shapes.{decode_rip}
use Prim.Native.Nat.{bit_and, bit_or}

-- The range of i32.
abbrev pub IsI32 : ℤ → Type 0
IsI32 a = (pos_part a < 2 ^ 31) × (neg_part a ≤ 2 ^ 31)

pub is_i32_iff : (a : ℤ) → (is_i32 a ≡ true) ↔ IsI32 a
unfolding is_i32
is_i32_iff (pos n) = ground arith
is_i32_iff (negsuc n) = ground arith

-- No base, or one of the sixteen 64-bit registers.
abbrev pub IsBase : Option Reg → Type 0
IsBase none = Unit {0}
IsBase (some r) = (i : ℕ) × (i < 16) × (r ≡ quad i)

-- No index, or a 64-bit register that is not the stack pointer.
abbrev pub IsIndex : Option Reg → Type 0
IsIndex none = Unit {0}
IsIndex (some r) = (j : ℕ) × (j < 16) × (j ≢ 4) × (r ≡ quad j)

-- The parts of an operand that name an address in 64-bit mode.
pub record IsAddressed (disp : ℤ) (base index : Option Reg) (scale : ℕ) : Type 0 where
  pub base_quad : IsBase base
  pub index_quad : IsIndex index
  pub bits : ℕ
  pub factor : IsScale scale bits
  pub fits : IsI32 disp
  pub registers : (base ≡ none) × (index ≡ none) → ⊥

-- The operands that the encoder takes. A `%rip` symbol is encoded alone: the base, the displacement's
-- range and the rest of an index are then not looked at, and only a scale without an index is refused.
pub record IsEncodable (m : MemOperand) : Type 0 where
  pub unscaled : m.index ≡ none → m.scale ≡ 1
  pub addressed : m.rip_sym ≡ none → IsAddressed m.disp m.base m.index m.scale

abbrev number : Option Reg → Option ℕ
number none = none
number (some r) = some r.num

abbrev scaled_number : Option Reg → ℕ → Option (ℕ × ℕ)
scaled_number none scale = none
scaled_number (some r) scale = some (r.num, scale)

-- The address that an operand asks for; the field of a symbol is a placeholder.
abbrev pub address_of : MemOperand → Address
address_of m = elim m.rip_sym [
  | some sym ↦ at_rip (pos 0)
  | none ↦ at (number m.base) (scaled_number m.index m.scale) m.disp
]

scale_bits_lem : (factor bits : ℕ) → IsScale factor bits → scale_bits factor ≡ ok bits
unfolding scale_bits
scale_bits_lem _ _ one = refl
scale_bits_lem _ _ two = refl
scale_bits_lem _ _ four = refl
scale_bits_lem _ _ eight = refl

not_stack_pointer : (j : ℕ) → j ≢ 4 → is_stack_pointer (quad j) ≡ false
unfolding is_stack_pointer
not_stack_pointer j n = let t : (j == 4) ≡ false = ground (arith, n) in rw t refl

abbrev pub operand : ℤ → Option Bytes → Option Reg → Option Reg → ℕ → MemOperand
operand disp rip_sym base index scale = record {
  disp = disp;
  rip_sym = rip_sym;
  base = base;
  index = index;
  scale = scale;
}

abbrev written : Bytes → Rex → MemEnc × Rex
written bytes rex = (record { bytes = bytes; rip_disp_offset = none }, rex)

-- A scale goes with an index.
unscaled_guard :
    (index : Option Reg) (scale : ℕ)
    → (index ≡ none → scale ≡ 1)
    → not (is_none index && not (scale == 1)) ≡ true
unfolding is_none
unscaled_guard none scale h = rw (h refl) refl
unscaled_guard (some r) scale h = refl

-- What `encode_mem` owes: bytes that are read as the field and the address.
abbrev pub Reads : ℕ → Address → MemEnc × Rex → Type 0
Reads field address (enc, rex) =
    (s : Bytes) → decode rex.x rex.b (enc.bytes ++ s) ≡ some (field, address, s)

-- The bits of the prefix that a memory operand leaves alone.
abbrev pub Keeps : Rex → Rex → Type 0
Keeps rex next =
    (next.w ≡ rex.w)
    × (next.r ≡ rex.r)
    × (next.forced ≡ rex.forced)
    × (next.forbidden ≡ rex.forbidden)

module _ (rex : Rex) (no_x : rex.x ≡ false) (no_b : rex.b ≡ false) (field : ℕ)
    (room : field < 8) where
  encode_address_lem :
      (disp : ℤ) (base index : Option Reg) (scale : ℕ)
      → (index ≡ none → scale ≡ 1)
      → IsAddressed disp base index scale
      → (out : MemEnc × Rex) × (encode_address field (operand disp none base index scale) rex
          ≡ ok out)
        × Reads field (address_of (operand disp none base index scale)) out
        × Keeps rex out.1
  unfolding encode_address merge_base merge_index address_bytes is_quad merge_reg rex_bit
      rex_forbidden
  encode_address_lem disp none none scale one_scale a = absurd (a.registers (refl, refl))
  encode_address_lem disp (some r) none scale one_scale a =
      let (i, h, e) = a.base_quad in
      let fits = (is_i32_iff disp).1 a.fits in
      rw (e, one_scale refl)
        (
          written (with_base field 0 disp (quad i)) (merge_reg rex (quad i) slot_b),
          rw (fits, scale_bits_lem 1 0 one) refl,
          λ s. rw (no_x, no_b) (with_base_lem field room disp fits s i h),
          (refl, refl, refl, refl),
        )
  encode_address_lem disp none (some t) scale one_scale a =
      let (j, k, n, f) = a.index_quad in
      let fits = (is_i32_iff disp).1 a.fits in
      rw f (
        written (with_index field a.bits disp (quad j)) (merge_reg rex (quad j) slot_x),
        rw (not_stack_pointer j n, scale_bits_lem scale a.bits a.factor, fits) refl,
        λ s. rw (no_x, no_b) (with_index_lem field room disp fits s j scale a.bits k n a.factor),
        (refl, refl, refl, refl),
      )
  encode_address_lem disp (some r) (some t) scale one_scale a =
      let (i, h, e) = a.base_quad in
      let (j, k, n, f) = a.index_quad in
      let fits = (is_i32_iff disp).1 a.fits in
      rw (e, f)
        (
          written (with_both field a.bits disp (quad i) (quad j))
              (merge_reg (merge_reg rex (quad j) slot_x) (quad i) slot_b),
          rw (not_stack_pointer j n, scale_bits_lem scale a.bits a.factor, fits) refl,
          λ s.
              rw (no_x, no_b)
                (with_both_lem field room disp fits s i j scale a.bits h k n a.factor),
          (refl, refl, refl, refl),
        )

  relative_lem :
      (s : Bytes)
      → decode false false ((bit_or (shl field 3) 5 ∷ 0 ∷ 0 ∷ 0 ∷ 0 ∷ []) ++ s)
        ≡ some (field, at_rip (pos 0), s)
  unfolding read_disp32 signed
  relative_lem s =
      ap (λ (y : ℕ). decode false false (y ∷ 0 ∷ 0 ∷ 0 ∷ 0 ∷ s))
        (low_fields field 5 room (omega arith))
      ∙ decode_rip false false (0 ∷ 0 ∷ 0 ∷ 0 ∷ s) field room

  encode_mem_parts :
      (reg_field : ℕ) (disp : ℤ) (rip_sym : Option Bytes) (base index : Option Reg) (scale : ℕ)
      → bit_and reg_field 7 ≡ field
      → IsEncodable (operand disp rip_sym base index scale)
      → (out : MemEnc × Rex) × (encode_mem reg_field (operand disp rip_sym base index scale) rex
          ≡ ok out)
        × Reads field (address_of (operand disp rip_sym base index scale)) out
        × Keeps rex out.1
  unfolding encode_mem
  encode_mem_parts reg_field disp (some t) base index scale low h =
      rw (unscaled_guard index scale h.unscaled, low)
        (
          (
            record {
              bytes = bit_or (shl field 3) 5 ∷ 0 ∷ 0 ∷ 0 ∷ 0 ∷ [];
              rip_disp_offset = some 1;
            },
            rex,
          ),
          refl,
          λ s. rw (no_x, no_b) (relative_lem s),
          (refl, refl, refl, refl),
        )
  encode_mem_parts reg_field disp none base index scale low h =
      let (out, e, reads, keeps) =
        encode_address_lem disp base index scale h.unscaled (h.addressed refl) in
      rw (unscaled_guard index scale h.unscaled, low) (out, e, reads, keeps)

-- An operand that has an encoding gets one: `encode_mem` succeeds, from a prefix without the bits X
-- and B, and a processor that reads its bytes, with the bits of the prefix that it returns, finds
-- the low three bits of the register field and the address of the operand, and stops behind the
-- bytes. The other bits of the prefix stay as they were.
pub encode_mem-Reads :
    (reg_field : ℕ) (m : MemOperand) (rex : Rex)
    → IsEncodable m
    → rex.x ≡ false
    → rex.b ≡ false
    → (out : MemEnc × Rex) × (encode_mem reg_field m rex ≡ ok out)
      × Reads (reg_field % 8) (address_of m) out
      × Keeps rex out.1
encode_mem-Reads reg_field m rex h no_x no_b =
    encode_mem_parts rex no_x no_b (reg_field % 8) (low_lt reg_field) reg_field m.disp m.rip_sym
      m.base m.index m.scale (low_three reg_field) h
