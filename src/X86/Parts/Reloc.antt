-- ===== src/X86/Parts/Reloc.antt =====
-- The relocation that `finish` of src/x86/encode.rs computes for an operand that is relative to %rip.
use afs_as.Base.{
  ℕ, ◌+◌, ◌%◌, ◌^◌, ◌<◌, ◌≡◌, refl, sym, ap, ◌∙◌, inl, inr, Option, none, some, [], ◌∷◌, ◌++◌,
  length, length-append, Bool-cases, ok, >>=-eq-ok, guard-eq-ok, arith,
}
use afs_as.Base.Bytes.{Bytes}
use afs_as.Base.Int.{ℤ, pos, is_i64, ◌+ℤ◌, ◌-ℤ◌, eq_of_parts, parts_of, +ℤ_parts, -ℤ_parts}
use afs_as.X86.Operand.{MemOperand}
use afs_as.X86.Rex.{Rex, shl, emit}
use mathlib.Core.Path.{subst}
use Prim.Native.Nat.{bit_and, bit_or}
use afs_as.X86.Mem.{MemEnc, encode_mem}
use afs_as.X86.Parts.{
  InsnReloc, Encoded, Parts, r_x86_64_pc32, sub_i64, rip_relocation, finish, noted, mem,
}

sub_i64-exact : (a c d : ℤ) → sub_i64 a c ≡ ok d → a -ℤ c ≡ d
unfolding sub_i64
sub_i64-exact a c d h = elim (Bool-cases (is_i64 (a -ℤ c))) [
  | inl e ↦ cc (rw (e, sub_i64) at h)
  | inr e ↦ cc (rw (e, sub_i64) at h)
]

-- What a linker stores for `R_X86_64_PC32` at `place`, for the address of the symbol.
abbrev pub relocated : InsnReloc → ℤ → ℤ → ℤ
relocated r address place = (address +ℤ r.addend) -ℤ place

-- The relocation stands at `offset`, and with it an instruction of `size` bytes, wherever it lies,
-- addresses the symbol and `disp` more: a processor adds what is stored to the next address.
pub record Addresses (size offset : ℕ) (name : Bytes) (disp : ℤ) (r : InsnReloc) : Type 0 where
  pub at_field : r.offset ≡ offset
  pub of_symbol : r.sym ≡ name
  pub of_kind : r.r_type ≡ r_x86_64_pc32
  pub target :
      (start address : ℤ)
      → (start +ℤ pos size) +ℤ relocated r address (start +ℤ pos offset) ≡ address +ℤ disp

target_lem :
    (size offset : ℕ) (disp less addend start address : ℤ)
    → disp -ℤ pos 4 ≡ less
    → less -ℤ (pos size -ℤ pos (offset + 4)) ≡ addend
    → (start +ℤ pos size) +ℤ ((address +ℤ addend) -ℤ (start +ℤ pos offset)) ≡ address +ℤ disp
target_lem size offset disp less addend start address e f = eq_of_parts _ _ (
    omega (
      arith,
      parts_of e,
      parts_of f,
      -ℤ_parts disp (pos 4),
      -ℤ_parts less (pos size -ℤ pos (offset + 4)),
      -ℤ_parts (pos size) (pos (offset + 4)),
      +ℤ_parts (start +ℤ pos size) ((address +ℤ addend) -ℤ (start +ℤ pos offset)),
      +ℤ_parts start (pos size),
      -ℤ_parts (address +ℤ addend) (start +ℤ pos offset),
      +ℤ_parts address addend,
      +ℤ_parts start (pos offset),
      +ℤ_parts address disp,
    ))

rip_relocation_lem :
    (size tail_start off : ℕ) (name : Bytes) (disp : ℤ) (out : Option InsnReloc)
    → rip_relocation size tail_start (some (off, name, disp)) ≡ ok out
    → (r : InsnReloc) × (out ≡ some r) × Addresses size (tail_start % 2 ^ 32 + off) name disp r
unfolding rip_relocation
rip_relocation_lem size tail_start off name disp out h =
    let (less, e, h1) = >>=-eq-ok (sub_i64 disp (pos 4)) _ h in
    let (addend, f, h2) =
      >>=-eq-ok (sub_i64 less (pos size -ℤ pos (tail_start % 2 ^ 32 + off + 4))) _ h1 in
    let r : InsnReloc = record {
      offset = tail_start % 2 ^ 32 + off;
      sym = name;
      r_type = r_x86_64_pc32;
      addend = addend;
    } in
    (
      r,
      cc h2,
      record {
        at_field = refl;
        of_symbol = refl;
        of_kind = refl;
        target = λ start address.
            target_lem size (tail_start % 2 ^ 32 + off) disp less addend start address
              (sub_i64-exact _ _ _ e) (sub_i64-exact _ _ _ f);
      },
    )

-- The bytes for an operand that is relative to %rip.
abbrev relative_bytes : ℕ → Bytes
relative_bytes field = bit_or (shl (bit_and field 7) 3) 5 ∷ 0 ∷ 0 ∷ 0 ∷ 0 ∷ []

encode_mem-relative :
    (field : ℕ) (m : MemOperand) (rex : Rex) (out : MemEnc × Rex) (name : Bytes)
    → m.rip_sym ≡ some name
    → encode_mem field m rex ≡ ok out
    → (record { bytes = relative_bytes field; rip_disp_offset = some 1 }, rex) ≡ out
unfolding encode_mem
encode_mem-relative field m rex out name e h =
    let (_, f) =
      guard-eq-ok _ _ (ok (record { bytes = relative_bytes field; rip_disp_offset = some 1 }, rex))
        (rw (e, encode_mem) at h) in
    cc f

mem-relative :
    (p next : Parts) (field : ℕ) (m : MemOperand) (name : Bytes)
    → p.tail ≡ []
    → m.rip_sym ≡ some name
    → mem p field m ≡ ok next
    → (next.tail ≡ relative_bytes field) × (next.rip_reloc ≡ some (1, name, m.disp))
unfolding mem noted
mem-relative p next field m name empty e h =
    let (out, f, h1) = >>=-eq-ok (encode_mem field m p.rex) _ h in
    let same = encode_mem-relative field m p.rex out name e f in
    let h2 = rw (← same, e, empty) at h1 in
    let q : record p { tail = relative_bytes field; rip_reloc = some (1, name, m.disp) } ≡ next =
      cc h2 in
    (ap (λ (t : Parts). t.tail) (sym q), ap (λ (t : Parts). t.rip_reloc) (sym q))

-- Where the operand of an instruction is relative to %rip, `mem` is its first field behind the opcode
-- and `imm` its immediate, the field stands in the bytes where the relocation says, and the relocation
-- makes the instruction address the symbol and the displacement of the operand.
pub finish-Addresses :
    (p next : Parts) (field : ℕ) (m : MemOperand) (name imm : Bytes) (enc : Encoded)
    → p.tail ≡ []
    → m.rip_sym ≡ some name
    → mem p field m ≡ ok next
    → finish (record next { tail = next.tail ++ imm }) ≡ ok enc
    → length enc.bytes < 2 ^ 32
    → (start : Bytes) × (modrm : ℕ) × (r : InsnReloc) × (enc.bytes
        ≡ start ++ (modrm ∷ 0 ∷ 0 ∷ 0 ∷ 0 ∷ imm))
      × (enc.reloc ≡ some r)
      × Addresses (length enc.bytes) (length start + 1) name m.disp r
unfolding finish
finish-Addresses p next field m name imm enc empty e h k small =
    let (tail, reloc) = mem-relative p next field m name empty e h in
    let (start, f, k1) = >>=-eq-ok (emit next.rex next.prefix) _ k in
    let bytes = (start ++ next.opcode) ++ (next.tail ++ imm) in
    let front = length (start ++ next.opcode) in
    let (out, g, k2) = >>=-eq-ok (rip_relocation (length bytes) front next.rip_reloc) _ k1 in
    let q : record { bytes = bytes; reloc = out; label_fix = none } ≡ enc = cc k2 in
    let same : bytes ≡ enc.bytes = ap (λ (t : Encoded). t.bytes) q in
    let (r, s, addresses) =
      rip_relocation_lem (length bytes) front 1 name m.disp out (rw reloc at g) in
    let low : front % 2 ^ 32 ≡ front =
      omega
        (arith, small, ap length same, length-append (start ++ next.opcode) (next.tail ++ imm)) in
    (
      start ++ next.opcode,
      bit_or (shl (bit_and field 7) 3) 5,
      r,
      sym same ∙ ap (λ (t : Bytes). (start ++ next.opcode) ++ (t ++ imm)) tail,
      sym (ap (λ (t : Encoded). t.reloc) q) ∙ s,
      subst (λ (n : ℕ). Addresses n (front + 1) name m.disp r) (ap length same)
          (rw low at addresses),
    )
