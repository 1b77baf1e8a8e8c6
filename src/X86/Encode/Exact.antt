-- ===== src/X86/Encode/Exact.antt =====
-- What a processor reads in the bytes of a form with a register and a memory operand that
-- src/x86/encode.rs writes.
use afs_as.Base.{
  ℕ, ◌/◌, ◌%◌, ◌≡◌, ◌≢◌, refl, ap, sym, ◌∙◌, Bool, true, false, none, some, [], ◌∷◌, ◌++◌, length,
  ok_eq, ok, >>=-eq-ok, if◌then◌else◌,
}
use mathlib.Core.List.{append_assoc}
use afs_as.Base.Bytes.{Bytes}
use afs_as.X86.Reg.{Width, b, w, l, q, x, Reg, low3, rex_bit, rex_forbidden}
use afs_as.X86.Reg.Names.{IsReg}
use afs_as.X86.Operand.{MemOperand}
use afs_as.X86.Rex.{Rex, any, emit, merge_reg}
use afs_as.X86.Mem.{MemEnc, encode_mem}
use afs_as.X86.Mem.Decode.{Address, decode, extended}
use afs_as.X86.Mem.Exact.{IsEncodable, address_of, encode_mem-Reads}
use afs_as.X86.Parts.{Encoded, Parts, new, width_setup, finish, rip_relocation, noted}
use afs_as.X86.Parts
use afs_as.X86.Encode.{push_opcode, merge_r}
use afs_as.X86.Encode.Reader.{read_size, width_at, register_at, read_form, read_instruction}
use afs_as.X86.Encode.Prefix.{
  rex_bytes, bits_of, emit-rex_bytes, read_rex-rex_bytes, read_size-rex_bytes, register_at-r,
}

-- The operand size of `width_setup`: the prefix, and the bit of REX.
abbrev pub size_bytes : Width → Bytes
size_bytes w = 0x66 ∷ []
size_bytes _ = []

abbrev pub is_wide : Width → Bool
is_wide q = true
is_wide _ = false

abbrev pub is_small : Width → Bool
is_small w = true
is_small _ = false

-- An opcode that is no prefix, and that is even for bytes.
pub record IsOpcode (width : Width) (opcode : ℕ) : Type 0 where
  pub no_rex_byte : opcode / 16 ≢ 4
  pub no_size_byte : opcode ≢ 0x66
  pub parity : width_at opcode (is_wide width) (is_small width) ≡ width

-- The parts in front of a memory operand.
abbrev pub start_form : Width → ℕ → Reg → Parts
start_form width opcode r = push_opcode (merge_r (width_setup width new) r) opcode

if_lem : (t : Bool) → (if t then true else false) ≡ t
if_lem true = refl
if_lem false = refl

start_lem :
    (width : Width) (opcode : ℕ) (r : Reg)
    → (let p = start_form width opcode r in
        (p.prefix ≡ size_bytes width)
        × (p.opcode ≡ opcode ∷ [])
        × (p.tail ≡ [])
        × (p.rex.w ≡ is_wide width)
        × (p.rex.r ≡ rex_bit r)
        × (p.rex.x ≡ false)
        × (p.rex.b ≡ false)
        × (p.rex.forced ≡ r.forces_rex)
        × (p.rex.forbidden ≡ rex_forbidden r))
unfolding width_setup merge_reg
start_lem b opcode r = (refl, refl, refl, refl, refl, refl, refl, if_lem _, if_lem _)
start_lem w opcode r = (refl, refl, refl, refl, refl, refl, refl, if_lem _, if_lem _)
start_lem l opcode r = (refl, refl, refl, refl, refl, refl, refl, if_lem _, if_lem _)
start_lem q opcode r = (refl, refl, refl, refl, refl, refl, refl, if_lem _, if_lem _)
start_lem x opcode r = (refl, refl, refl, refl, refl, refl, refl, if_lem _, if_lem _)

mem_lem :
    (p next : Parts) (field : ℕ) (m : MemOperand)
    → Parts.mem p field m ≡ ok next
    → (out : MemEnc × Rex) × (encode_mem field m p.rex ≡ ok out)
      × (next.prefix ≡ p.prefix)
      × (next.opcode ≡ p.opcode)
      × (next.rex ≡ out.1)
      × (next.tail ≡ p.tail ++ out.0.bytes)
unfolding Parts.mem
mem_lem p next field m h =
    let (out, e, h1) = >>=-eq-ok (encode_mem field m p.rex) _ h in
    let (note, _, h2) = >>=-eq-ok (noted p m out.0.rip_disp_offset) _ h1 in
    let same : record p { rex = out.1; tail = p.tail ++ out.0.bytes; rip_reloc = note } ≡ next =
      cc h2 in
    (
      out,
      e,
      sym (ap (λ (t : Parts). t.prefix) same),
      sym (ap (λ (t : Parts). t.opcode) same),
      sym (ap (λ (t : Parts). t.rex) same),
      sym (ap (λ (t : Parts). t.tail) same),
    )

pub finish_lem :
    (p : Parts) (enc : Encoded)
    → finish p ≡ ok enc
    → (start : Bytes) × (emit p.rex p.prefix ≡ ok start)
      × (enc.bytes ≡ (start ++ p.opcode) ++ p.tail)
unfolding finish
finish_lem p enc h =
    let (start, e, h1) = >>=-eq-ok (emit p.rex p.prefix) _ h in
    let (reloc, _, h2) =
      >>=-eq-ok
        (rip_relocation (length ((start ++ p.opcode) ++ p.tail)) (length (start ++ p.opcode))
          p.rip_reloc)
        _ h1 in
    let same : record { bytes = (start ++ p.opcode) ++ p.tail; reloc = reloc; label_fix = none }
        ≡ enc =
      cc h2 in
    (start, e, sym (ap (λ (t : Encoded). t.bytes) same))

-- The prefixes of an instruction are read, whatever the operand size.
pub size_lem :
    (width : Width) (rex : Rex) (opcode : ℕ) (s : Bytes)
    → opcode ≢ 0x66
    → read_size (size_bytes width ++ (rex_bytes rex ++ (opcode ∷ s)))
      ≡ (is_small width, rex_bytes rex ++ (opcode ∷ s))
unfolding read_size
size_lem b rex opcode s h = read_size-rex_bytes rex opcode s h
size_lem w rex opcode s h = refl
size_lem l rex opcode s h = read_size-rex_bytes rex opcode s h
size_lem q rex opcode s h = read_size-rex_bytes rex opcode s h
size_lem x rex opcode s h = read_size-rex_bytes rex opcode s h

form_at :
    (width : Width) (rex : Rex) (opcode : ℕ) (t : Bytes) (field : ℕ) (address : Address) (s : Bytes)
    → IsOpcode width opcode
    → rex.w ≡ is_wide width
    → decode rex.x rex.b t ≡ some (field, address, s)
    → read_form (is_small width) (bits_of rex) (opcode ∷ t)
      ≡ some (
        record {
          opcode = opcode;
          register = register_at width (any rex) (extended rex.r field);
          address = address;
        },
        s,
      )
unfolding read_form
form_at width rex opcode t field address s good wide e = rw (e, wide, good.parity, read_form) refl

-- The instruction is read behind its prefixes.
read_lem :
    (width : Width) (rex : Rex) (opcode : ℕ) (t : Bytes) (field : ℕ) (address : Address) (s : Bytes)
    → IsOpcode width opcode
    → rex.w ≡ is_wide width
    → decode rex.x rex.b t ≡ some (field, address, s)
    → read_instruction (size_bytes width ++ (rex_bytes rex ++ (opcode ∷ t)))
      ≡ some (
        record {
          opcode = opcode;
          register = register_at width (any rex) (extended rex.r field);
          address = address;
        },
        s,
      )
unfolding read_instruction
read_lem width rex opcode t field address s good wide e =
    rw
      (
        size_lem width rex opcode t good.no_size_byte,
        read_rex-rex_bytes rex opcode t good.no_rex_byte,
      )
      (form_at width rex opcode t field address s good wide e)

pub layout_lem :
    (a c t s : Bytes) (opcode : ℕ)
    → (((a ++ c) ++ (opcode ∷ [])) ++ t) ++ s ≡ a ++ (c ++ (opcode ∷ (t ++ s)))
layout_lem a c t s opcode =
    rw
      (
        append_assoc ((a ++ c) ++ (opcode ∷ [])) t s,
        append_assoc (a ++ c) (opcode ∷ []) (t ++ s),
        append_assoc a c (opcode ∷ (t ++ s)),
      )
      refl

-- The bytes of a register and memory form are read as its opcode, register and address.
pub form_lem :
    (width : Width) (opcode : ℕ) (r : Reg) (m : MemOperand) (next : Parts) (enc : Encoded)
    → IsOpcode width opcode
    → IsReg r
    → r.width ≡ width
    → width ≢ x
    → IsEncodable m
    → Parts.mem (start_form width opcode r) (low3 r) m ≡ ok next
    → finish next ≡ ok enc
    → (s : Bytes)
    → read_instruction (enc.bytes ++ s)
      ≡ some (record { opcode = opcode; register = r; address = address_of m }, s)
form_lem width opcode r m next enc good known same_width narrow encodable h k s =
    let (prefix, code, tail, wide, bit, no_x, no_b, forced, forbidden) = start_lem width opcode r in
    let p = start_form width opcode r in
    let (out, e, same_prefix, same_code, same_rex, same_tail) = mem_lem p next (low3 r) m h in
    let (found, e', reads, (kept_w, kept_r, kept_forced, kept_forbidden)) =
      encode_mem-Reads (low3 r) m p.rex encodable no_x no_b in
    let same : found ≡ out = ok_eq _ e e' in
    let rex : next.rex ≡ found.1 = same_rex ∙ sym (ap (λ (o : MemEnc × Rex). o.1) same) in
    let (start, f, g) = finish_lem next enc k in
    let (begins, allowed) = emit-rex_bytes next.rex next.prefix start f in
    let bytes : enc.bytes
        ≡ ((size_bytes width ++ rex_bytes found.1) ++ (opcode ∷ [])) ++ found.0.bytes =
      rw (g, begins, same_prefix, prefix, same_code, code, same_tail, tail, rex, ← same) refl in
    let register : register_at width (any found.1) (extended found.1.r (low3 r % 8)) ≡ r =
      ap (λ (v : Width). register_at v (any found.1) (extended found.1.r (low3 r % 8)))
        (sym same_width)
      ∙ (register_at-r r found.1 known (λ wide_x. narrow (sym same_width ∙ wide_x)) (kept_r ∙ bit)
          (λ h. kept_forced ∙ forced ∙ h) (λ h. kept_forbidden ∙ forbidden ∙ h)
          (rw rex at allowed)) in
    ap (λ (t : Bytes). read_instruction (t ++ s)) bytes
    ∙ ap read_instruction (layout_lem (size_bytes width) (rex_bytes found.1) found.0.bytes s opcode)
    ∙ read_lem width found.1 opcode (found.0.bytes ++ s) (low3 r % 8) (address_of m) s good
        (kept_w ∙ wide) (reads s)
    ∙ ap (λ (t : Reg). some (record { opcode = opcode; register = t; address = address_of m }, s))
        register
