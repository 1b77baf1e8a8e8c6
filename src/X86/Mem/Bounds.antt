-- ===== src/X86/Mem/Bounds.antt =====
-- How many bytes `encode_mem` of src/x86/encode.rs writes: it reserves six.
use afs_as.Base.{
  ℕ, ◌≤◌, ◌≡◌, refl, ap, not, ◌&&◌, Option, none, some, [], ◌∷◌, length, ◌==◌, inl, inr, Bool-cases,
  Result, ok, >>=-eq-ok, guard-eq-ok, arith,
}
use afs_as.Base.Bytes.{Bytes}
use afs_as.Base.Int.{ℤ, pos, int_eq, is_i32}
use afs_as.X86.Reg.{Reg, low3}
use afs_as.X86.Operand.{MemOperand, EncodeError, displacement_range}
use afs_as.X86.Rex.{Rex, shl}
use afs_as.X86.Mem.{
  MemEnc, is_i8, merge_index, merge_base, scale_bits, displacement, with_base, with_both,
  with_index, address_bytes, encode_address, encode_mem,
}
use Prim.Native.Nat.{bit_and, bit_or}

displacement-le : (disp : ℤ) (b : Reg) → length (displacement disp b).1 ≤ 4
unfolding displacement
displacement-le disp b =
    elim (Bool-cases (int_eq disp (pos 0) && not (int_eq disp (pos 0) && low3 b == 5))) [
      | inl e ↦ rw e (omega arith)
      | inr e ↦ elim (Bool-cases (is_i8 disp)) [
        | inl f ↦ rw (e, f) (omega arith)
        | inr f ↦ rw (e, f) (omega arith)
      ]
    ]

-- Between one and six bytes.
abbrev Short : Bytes → Type 0
Short bytes = (1 ≤ length bytes) × (length bytes ≤ 6)

with_base-Short : (reg3 scale : ℕ) (disp : ℤ) (b : Reg) → Short (with_base reg3 scale disp b)
unfolding with_base
with_base-Short reg3 scale disp b = elim (Bool-cases (low3 b == 4)) [
  | inl e ↦ rw e (omega arith, omega (arith, displacement-le disp b))
  | inr e ↦ rw e (omega arith, omega (arith, displacement-le disp b))
]

address_bytes-Short :
    (reg3 scale : ℕ) (disp : ℤ) (base index : Option Reg) (bytes : Bytes)
    → address_bytes reg3 scale disp base index ≡ ok bytes
    → Short bytes
unfolding address_bytes with_both with_index
address_bytes-Short reg3 scale disp (some b) none bytes h =
    let same : with_base reg3 scale disp b ≡ bytes = cc h in
    rw same at (with_base-Short reg3 scale disp b)
address_bytes-Short reg3 scale disp (some b) (some i) bytes h =
    let same : with_both reg3 scale disp b i ≡ bytes = cc h in
    let size = ap length same in (omega (arith, size), omega (arith, size, displacement-le disp b))
address_bytes-Short reg3 scale disp none (some i) bytes h =
    let same : with_index reg3 scale disp i ≡ bytes = cc h in
    let size = ap length same in (omega (arith, size), omega (arith, size))
address_bytes-Short reg3 scale disp none none bytes h = cc h

encode_address-Short :
    (reg3 : ℕ) (m : MemOperand) (rex : Rex) (out : MemEnc × Rex)
    → encode_address reg3 m rex ≡ ok out
    → Short out.0.bytes
unfolding encode_address
encode_address-Short reg3 m rex out h =
    let (rex1, _, h1) = >>=-eq-ok (merge_index m.index rex) _ h in
    let (rex2, _, h2) = >>=-eq-ok (merge_base m.base rex1) _ h1 in
    let (bits, _, h3) = >>=-eq-ok (scale_bits m.scale) _ h2 in
    let (_, h4) = guard-eq-ok (is_i32 m.disp) (displacement_range m.disp) _ h3 in
    let (bytes, e, h5) = >>=-eq-ok (address_bytes reg3 bits m.disp m.base m.index) _ h4 in
    let h6 : ◌≡◌ {A = Result EncodeError (MemEnc × Rex)}
        (ok (record { bytes = bytes; rip_disp_offset = none }, rex2)) (ok out) =
      h5 in
    let same : (record { bytes = bytes; rip_disp_offset = none }, rex2) ≡ out = cc h6 in
    rw (ap (λ (o : MemEnc × Rex). o.0.bytes) same) at
      (address_bytes-Short reg3 bits m.disp m.base m.index bytes e)

encode_mem_parts :
    (reg_field : ℕ) (m : MemOperand) (rex : Rex) (out : MemEnc × Rex) (rip_sym : Option Bytes)
    → m.rip_sym ≡ rip_sym
    → encode_mem reg_field m rex ≡ ok out
    → Short out.0.bytes
unfolding encode_mem
encode_mem_parts reg_field m rex out none e h =
    let (_, f) =
      guard-eq-ok _ _ (encode_address (bit_and reg_field 7) m rex) (rw (e, encode_mem) at h) in
    encode_address-Short (bit_and reg_field 7) m rex out f
encode_mem_parts reg_field m rex out (some s) e h =
    let enc : MemEnc = record {
      bytes = bit_or (shl (bit_and reg_field 7) 3) 5 ∷ 0 ∷ 0 ∷ 0 ∷ 0 ∷ [];
      rip_disp_offset = some 1;
    } in
    let (_, f) = guard-eq-ok _ _ (ok (enc, rex)) (rw (e, encode_mem) at h) in
    let same : (enc, rex) ≡ out = cc f in
    let size = ap (λ (o : MemEnc × Rex). length o.0.bytes) same in
    (omega (arith, size), omega (arith, size))

-- What `encode_mem` writes is never empty and fits the six bytes that it reserves, whatever the
-- registers, the scale and the displacement are.
pub encode_mem-le :
    (reg_field : ℕ) (m : MemOperand) (rex : Rex) (out : MemEnc × Rex)
    → encode_mem reg_field m rex ≡ ok out
    → (1 ≤ length out.0.bytes) × (length out.0.bytes ≤ 6)
encode_mem-le reg_field m rex out h = encode_mem_parts reg_field m rex out m.rip_sym refl h
