-- ===== src/X86/Encode/Registers.antt =====
-- What a processor reads in the bytes of a form of src/x86/encode.rs with two registers.
use afs_as.Base.{
  ℕ, ◌+◌, ◌*◌, ◌/◌, ◌%◌, ◌<◌, ◌≡◌, ◌≢◌, refl, ap, sym, ◌∙◌, Bool, true, false, some, [], ◌∷◌, ◌++◌,
  ok, >>=-eq-ok, guard-eq-ok, if◌then◌else◌, arith,
}
use afs_as.Base.Bytes.{Bytes}
use afs_as.X86.Reg.{Width, b, w, l, q, x, Reg, low3, rex_bit, rex_forbidden}
use afs_as.X86.Reg.Names
use afs_as.X86.Reg.Names.{IsReg}
use afs_as.X86.Operand.{reg}
use afs_as.X86.Rex.{Rex, any, merge_reg}
use afs_as.X86.Mem.{fields}
use afs_as.X86.Mem.Bits.{fields_sum, low_three}
use afs_as.X86.Mem.Decode.{extended}
use afs_as.X86.Parts.{Encoded, Parts, new, width_setup, finish, modrm_rr}
use afs_as.X86.Encode.{byte_or, check_width, mov_parts, encode_mov, push_opcode}
use afs_as.X86.Encode.Reader.{width_at, register_at, read_pair, read_registers}
use afs_as.X86.Encode.Prefix.{
  rex_bytes, bits_of, emit-rex_bytes, read_rex-rex_bytes, register_at-r, register_at-b,
}
use afs_as.X86.Encode.Exact.{
  IsOpcode, is_wide, is_small, size_bytes, size_lem, layout_lem, finish_lem,
}
use afs_as.X86.Encode.Moves.{store_lem, width_eq_lem}

low3-lt : (r : Reg) → IsReg r → low3 r < 8
unfolding low3
low3-lt _ (Names.quad i h) = omega (arith, low_three i)
low3-lt _ (Names.long i h) = omega (arith, low_three i)
low3-lt _ (Names.word i h) = omega (arith, low_three i)
low3-lt _ (Names.low_byte i h) = omega (arith, low_three i)
low3-lt _ (Names.high_byte i h) = omega (arith, h)
low3-lt _ (Names.stack i h) = omega (arith, low_three i)
low3-lt _ (Names.vector i h) = omega (arith, low_three i)

abbrev pub pair_form : Width → ℕ → Reg → Reg → Parts
pair_form width opcode src dst = modrm_rr (push_opcode (width_setup width new) opcode) src dst

-- What one of two registers asks for, as `merge_reg` gathers it.
abbrev either : Bool → Bool → Bool
either first second = if second then true else if first then true else false

either_first : (first second : Bool) → first ≡ true → either first second ≡ true
either_first true true h = refl
either_first true false h = refl
either_first false second h = cc h

either_second : (first second : Bool) → second ≡ true → either first second ≡ true
either_second first true h = refl
either_second first false h = cc h

-- The prefix and the tail of the form.
record Started (width : Width) (opcode : ℕ) (src dst : Reg) (p : Parts) : Type 0 where
  size : p.prefix ≡ size_bytes width
  code : p.opcode ≡ opcode ∷ []
  modrm : p.tail ≡ fields 3 (low3 src) (low3 dst) ∷ []
  wide : p.rex.w ≡ is_wide width
  field : p.rex.r ≡ rex_bit src
  base : p.rex.b ≡ rex_bit dst
  forced : p.rex.forced ≡ either src.forces_rex dst.forces_rex
  forbidden : p.rex.forbidden ≡ either (rex_forbidden src) (rex_forbidden dst)

start_pair :
    (width : Width) (opcode : ℕ) (src dst : Reg)
    → Started width opcode src dst (pair_form width opcode src dst)
unfolding width_setup merge_reg modrm_rr
start_pair b opcode src dst = record {
  size = refl;
  code = refl;
  modrm = refl;
  wide = refl;
  field = refl;
  base = refl;
  forced = refl;
  forbidden = refl;
}
start_pair w opcode src dst = record {
  size = refl;
  code = refl;
  modrm = refl;
  wide = refl;
  field = refl;
  base = refl;
  forced = refl;
  forbidden = refl;
}
start_pair l opcode src dst = record {
  size = refl;
  code = refl;
  modrm = refl;
  wide = refl;
  field = refl;
  base = refl;
  forced = refl;
  forbidden = refl;
}
start_pair q opcode src dst = record {
  size = refl;
  code = refl;
  modrm = refl;
  wide = refl;
  field = refl;
  base = refl;
  forced = refl;
  forbidden = refl;
}
start_pair x opcode src dst = record {
  size = refl;
  code = refl;
  modrm = refl;
  wide = refl;
  field = refl;
  base = refl;
  forced = refl;
  forbidden = refl;
}

pair_at :
    (small : Bool) (rex : Rex) (width : Width) (opcode : ℕ) (src dst : Reg) (s : Bytes)
    → width_at opcode rex.w small ≡ width
    → IsReg src
    → IsReg dst
    → register_at width (any rex) (extended rex.r (low3 src % 8)) ≡ src
    → register_at width (any rex) (extended rex.b (low3 dst % 8)) ≡ dst
    → read_pair small (bits_of rex) (opcode ∷ fields 3 (low3 src) (low3 dst) ∷ s)
      ≡ some (record { opcode = opcode; register = src; operand = dst }, s)
unfolding read_pair
pair_at small rex width opcode src dst s size known_src known_dst e f =
    let h = low3-lt src known_src in
    let k = low3-lt dst known_dst in
    let y = fields 3 (low3 src) (low3 dst) in
    let sum : y ≡ 3 * 64 + low3 src * 8 + low3 dst =
      fields_sum 3 (low3 src) (low3 dst) (omega arith) h k in
    let e1 : y / 8 % 8 ≡ low3 src % 8 = omega (arith, sum, h, k) in
    let e2 : y % 8 ≡ low3 dst % 8 = omega (arith, sum, h, k) in
    let e3 : y / 64 ≡ 3 = omega (arith, sum, h, k) in rw (size, e1, e2, e3, e, f) refl

-- The bytes of a form with two registers are read as its opcode and both registers.
pub pair_lem :
    (width : Width) (opcode : ℕ) (src dst : Reg) (enc : Encoded)
    → IsOpcode width opcode
    → IsReg src
    → IsReg dst
    → src.width ≡ width
    → dst.width ≡ width
    → width ≢ x
    → finish (pair_form width opcode src dst) ≡ ok enc
    → (s : Bytes)
    → read_registers (enc.bytes ++ s)
      ≡ some (record { opcode = opcode; register = src; operand = dst }, s)
unfolding read_registers
pair_lem width opcode src dst enc good known_src known_dst same_src same_dst narrow h s =
    let p = pair_form width opcode src dst in
    let st = start_pair width opcode src dst in
    let (start, f, g) = finish_lem p enc h in
    let (begins, allowed) = emit-rex_bytes p.rex p.prefix start f in
    let modrm = fields 3 (low3 src) (low3 dst) in
    let bytes : enc.bytes
        ≡ ((size_bytes width ++ rex_bytes p.rex) ++ (opcode ∷ [])) ++ (modrm ∷ []) =
      rw (g, begins, st.size, st.code, st.modrm) refl in
    let size : width_at opcode p.rex.w (is_small width) ≡ width = rw st.wide good.parity in
    let first : register_at width (any p.rex) (extended p.rex.r (low3 src % 8)) ≡ src =
      ap (λ (v : Width). register_at v (any p.rex) (extended p.rex.r (low3 src % 8))) (sym same_src)
      ∙ register_at-r src p.rex known_src (λ e. narrow (sym same_src ∙ e)) st.field
          (λ e. st.forced ∙ either_first src.forces_rex dst.forces_rex e)
          (λ e. st.forbidden ∙ either_first (rex_forbidden src) (rex_forbidden dst) e) allowed in
    let second : register_at width (any p.rex) (extended p.rex.b (low3 dst % 8)) ≡ dst =
      ap (λ (v : Width). register_at v (any p.rex) (extended p.rex.b (low3 dst % 8))) (sym same_dst)
      ∙ register_at-b dst p.rex known_dst (λ e. narrow (sym same_dst ∙ e)) st.base
          (λ e. st.forced ∙ either_second src.forces_rex dst.forces_rex e)
          (λ e. st.forbidden ∙ either_second (rex_forbidden src) (rex_forbidden dst) e) allowed in
    ap (λ (t : Bytes). read_registers (t ++ s)) bytes
    ∙ ap read_registers (layout_lem (size_bytes width) (rex_bytes p.rex) (modrm ∷ []) s opcode)
    ∙ rw
        (
          size_lem width p.rex opcode (modrm ∷ s) good.no_size_byte,
          read_rex-rex_bytes p.rex opcode (modrm ∷ s) good.no_rex_byte,
        )
        (pair_at (is_small width) p.rex width opcode src dst s size known_src known_dst first
          second)

-- A move between registers that `encode_mov` encodes, for registers that there are and an operand size
-- that is a general register's, is read as the move of that source to that destination, and nothing
-- behind its bytes is read.
pub encode_mov-registers :
    (width : Width) (src dst : Reg) (mnemonic : Bytes) (enc : Encoded) (s : Bytes)
    → width ≢ x
    → IsReg src
    → IsReg dst
    → encode_mov width (reg src ∷ reg dst ∷ []) mnemonic ≡ ok enc
    → read_registers (enc.bytes ++ s)
      ≡ some (record { opcode = byte_or width 0x88 0x89; register = src; operand = dst }, s)
unfolding encode_mov mov_parts check_width
encode_mov-registers width src dst mnemonic enc s n known_src known_dst h =
    let (next, e, f) =
      >>=-eq-ok (mov_parts width (reg src ∷ reg dst ∷ []) mnemonic (width_setup width new)) _ h in
    let (same_src, g) = guard-eq-ok _ _ _ e in
    let (same_dst, k) = guard-eq-ok _ _ _ g in
    let form : pair_form width (byte_or width 0x88 0x89) src dst ≡ next = cc k in
    pair_lem width (byte_or width 0x88 0x89) src dst enc (store_lem width n) known_src known_dst
      (width_eq_lem src.width width same_src) (width_eq_lem dst.width width same_dst) n
      (ap finish form ∙ f) s
