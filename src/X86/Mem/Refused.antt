-- ===== src/X86/Mem/Refused.antt =====
-- The memory operands that `encode_mem` of src/x86/encode.rs refuses.
use afs_as.Base.{
  ℕ, ◌<◌, ◌≡◌, refl, inl, inr, true, not, ◌&&◌, Option, none, some, ◌==◌, ==_iff, Bool-cases, ok,
  >>=-eq-ok, guard-eq-ok, arith,
}
use afs_as.Base.Bytes.{Bytes}
use afs_as.Base.Int.{ℤ}
use afs_as.X86.Reg.{Reg, rex_bit, rex_forbidden}
use afs_as.X86.Reg.Names
use afs_as.X86.Reg.Names.{IsReg}
use afs_as.X86.Operand.{MemOperand, stack_pointer_index}
use afs_as.X86.Rex.{Rex, merge_reg, slot_x}
use afs_as.X86.Mem.{
  MemEnc, is_quad, is_gp, is_stack_pointer, is_none, merge_index, merge_base, scale_bits,
  address_bytes, encode_address, encode_mem,
}
use afs_as.X86.Mem.Encoded.{quad, IsScale, one, two, four, eight}
use afs_as.X86.Mem.Exact.{is_i32_iff, IsBase, IsIndex, IsAddressed, IsEncodable, operand}
use Prim.Native.Nat.{bit_and}

-- No register, or one that there is.
abbrev pub AllReg : Option Reg → Type 0
AllReg none = Unit {0}
AllReg (some r) = IsReg r

-- The registers of 64 bits are the sixteen general ones.
IsReg-is_quad : (r : Reg) → IsReg r → is_quad r ≡ true → (i : ℕ) × (i < 16) × (r ≡ quad i)
unfolding is_quad
IsReg-is_quad _ (Names.quad i h) e = (i, h, refl)
IsReg-is_quad _ (Names.long i h) e = cc e
IsReg-is_quad _ (Names.word i h) e = cc e
IsReg-is_quad _ (Names.low_byte i h) e = cc e
IsReg-is_quad _ (Names.high_byte i h) e = cc e
IsReg-is_quad _ (Names.stack i h) e = cc e
IsReg-is_quad _ (Names.vector i h) e = cc e

unscaled_of :
    (index : Option Reg) (scale : ℕ)
    → not (is_none index && not (scale == 1)) ≡ true
    → index ≡ none
    → scale ≡ 1
unfolding is_none
unscaled_of none scale h e = ground (arith, h)
unscaled_of (some r) scale h e = cc e

IsBase_lem :
    (base : Option Reg) (rex out : Rex) → AllReg base → merge_base base rex ≡ ok out → IsBase base
unfolding merge_base
IsBase_lem none rex out h e = tt
IsBase_lem (some r) rex out h e = let (wide, _) = guard-eq-ok _ _ _ e in IsReg-is_quad r h wide

IsIndex_lem :
    (index : Option Reg) (rex out : Rex)
    → AllReg index
    → merge_index index rex ≡ ok out
    → IsIndex index
unfolding merge_index is_stack_pointer is_gp rex_bit rex_forbidden
IsIndex_lem none rex out h e = tt
IsIndex_lem (some r) rex out h e =
    let (wide, f) = guard-eq-ok _ _ _ e in
    let (other, _) =
      guard-eq-ok (not (is_stack_pointer r)) stack_pointer_index (ok (merge_reg rex r slot_x)) f in
    let (j, k, q) = IsReg-is_quad r h wide in
    (j, k, (λ four_index. cc (rw (q, four_index) at other)), q)

IsScale-along :
    {factor bits scale found : ℕ}
    → IsScale factor bits
    → scale ≡ factor
    → bits ≡ found
    → IsScale scale found
IsScale-along {factor} {bits} k e f = rw (e, ← f) k

scale_bits-IsScale : (scale bits : ℕ) → scale_bits scale ≡ ok bits → IsScale scale bits
unfolding scale_bits
scale_bits-IsScale scale bits h = elim (Bool-cases (scale == 1)) [
  | inl e ↦ IsScale-along one ((==_iff scale 1).0 e) (cc (rw (e, scale_bits) at h))
  | inr e ↦ elim (Bool-cases (scale == 2)) [
    | inl f ↦ IsScale-along two ((==_iff scale 2).0 f) (cc (rw (e, f, scale_bits) at h))
    | inr f ↦ elim (Bool-cases (scale == 4)) [
      | inl g ↦ IsScale-along four ((==_iff scale 4).0 g) (cc (rw (e, f, g, scale_bits) at h))
      | inr g ↦ elim (Bool-cases (scale == 8)) [
        | inl k ↦ IsScale-along eight ((==_iff scale 8).0 k) (cc (rw (e, f, g, k, scale_bits) at h))
        | inr k ↦ cc (rw (e, f, g, k, scale_bits) at h)
      ]
    ]
  ]
]

some_register :
    (field bits : ℕ) (disp : ℤ) (base index : Option Reg) (bytes : Bytes)
    → address_bytes field bits disp base index ≡ ok bytes
    → (base ≡ none) × (index ≡ none)
    → ⊥
unfolding address_bytes
some_register field bits disp none none bytes h e = cc h
some_register field bits disp (some r) index bytes h (e, f) = cc e
some_register field bits disp none (some r) bytes h (e, f) = cc f

encode_address-IsAddressed :
    (field : ℕ) (rex : Rex) (out : MemEnc × Rex) (disp : ℤ) (base index : Option Reg) (scale : ℕ)
    → AllReg base
    → AllReg index
    → encode_address field (operand disp none base index scale) rex ≡ ok out
    → IsAddressed disp base index scale
unfolding encode_address
encode_address-IsAddressed field rex out disp base index scale bases indexes h =
    let (rex1, e1, h1) = >>=-eq-ok (merge_index index rex) _ h in
    let (rex2, e2, h2) = >>=-eq-ok (merge_base base rex1) _ h1 in
    let (bits, e3, h3) = >>=-eq-ok (scale_bits scale) _ h2 in
    let (fits, h4) = guard-eq-ok _ _ _ h3 in
    let (bytes, e5, h5) = >>=-eq-ok (address_bytes field bits disp base index) _ h4 in
    record {
      base_quad = IsBase_lem base rex1 rex2 bases e2;
      index_quad = IsIndex_lem index rex rex1 indexes e1;
      bits = bits;
      factor = scale_bits-IsScale scale bits e3;
      fits = (is_i32_iff disp).0 fits;
      registers = some_register field bits disp base index bytes e5;
    }

encode_mem_inverse :
    (reg_field : ℕ) (rex : Rex) (out : MemEnc × Rex) (disp : ℤ) (rip_sym : Option Bytes)
    (base index : Option Reg) (scale : ℕ)
    → AllReg base
    → AllReg index
    → encode_mem reg_field (operand disp rip_sym base index scale) rex ≡ ok out
    → IsEncodable (operand disp rip_sym base index scale)
unfolding encode_mem
encode_mem_inverse reg_field rex out disp (some t) base index scale bases indexes h =
    let (g, _) = guard-eq-ok _ _ _ h in
    record { unscaled = unscaled_of index scale g; addressed = λ e. cc e }
encode_mem_inverse reg_field rex out disp none base index scale bases indexes h =
    let (g, f) = guard-eq-ok _ _ _ h in
    record {
      unscaled = unscaled_of index scale g;
      addressed = λ _.
          encode_address-IsAddressed (bit_and reg_field 7) rex out disp base index scale bases
            indexes f;
    }

-- Without an index, the scale is 1.
abbrev pub Unscaled : Option Reg → ℕ → Type 0
Unscaled none scale = scale ≡ 1
Unscaled (some _) scale = Unit {0}

Unscaled_lem : (index : Option Reg) (scale : ℕ) → (index ≡ none → scale ≡ 1) → Unscaled index scale
Unscaled_lem none scale h = h refl
Unscaled_lem (some r) scale h = tt

-- Without a symbol relative to %rip, `encode_mem` takes only operands that name an address: where its
-- registers are registers that there are, and it succeeds, the base is a register of 64 bits or none,
-- the index too and not the stack pointer, one of them is there, the scale is 1, 2, 4 or 8, and 1
-- where there is no index, and the displacement fits 32 bits. No other such operand is encoded.
pub encode_mem-IsAddressed :
    (reg_field : ℕ) (m : MemOperand) (rex : Rex) (out : MemEnc × Rex)
    → m.rip_sym ≡ none
    → AllReg m.base
    → AllReg m.index
    → encode_mem reg_field m rex ≡ ok out
    → IsAddressed m.disp m.base m.index m.scale × Unscaled m.index m.scale
encode_mem-IsAddressed reg_field m rex out e bases indexes h =
    let taken =
      encode_mem_inverse reg_field rex out m.disp m.rip_sym m.base m.index m.scale bases indexes
        h in
    (taken.addressed e, Unscaled_lem m.index m.scale taken.unscaled)
