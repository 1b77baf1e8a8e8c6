-- ===== src/X86/Tests.antt =====
-- Runs of src/x86/reg.rs and src/x86/encode.rs, and their theorems at them.
use afs_as.Base.{
  ◌≤◌, ℕ, ◌+◌, ◌%◌, ◌^◌, ◌<◌, ◌≡◌, refl, Bool, true, false, Option, none, some, List, [], ◌∷◌, ◌++◌,
  length, Result, ok, err, arith,
}
use afs_as.Base.Bytes.{Bytes}
use afs_as.Base.Int.{ℤ, pos, negsuc, is_i32, int_eq}
use afs_as.Base.Text.{text, lookup, text_eq}
use afs_as.X86.Encode.Families.{arith_idx, or_unreachable, arith_parts, encode_arith}
use afs_as.X86.Encode.Modified.{rm_parts, encode_rm_0f}
use afs_as.X86.Encode.Registers.{encode_mov-registers}
use afs_as.X86.Encode.Arith.{encode_arith-registers}
use afs_as.X86.Encode.Operation.{addition, spelled, read_computation}
use afs_as.X86.Reg.{
  b, w, l, q, Reg, gp_reg_of, byte_reg_of, high_reg_of, xmm_reg_of, parse, name_of, ◌>>=◌, low3,
  rex_bit, rex_forbidden,
}
use afs_as.X86.Reg.Names
use afs_as.X86.Reg.Names.{IsReg, parse-name_of, parse-IsReg}
use afs_as.X86.Operand.{MemOperand, base_only, rip, EncodeError, high_byte_with_rex, reg, sym}
use afs_as.X86.Operand
use afs_as.X86.Rex.{Rex, no_rex, any, emit, merge_reg, rex_byte}
use afs_as.X86.Mem.{
  MemEnc, encode_mem, is_none, encode_address, merge_index, is_quad, is_stack_pointer, is_gp,
  merge_base, scale_bits, address_bytes, displacement, fields, is_i8, pattern, with_both,
}
use afs_as.X86.Mem.Encoded.{eight}
use afs_as.X86.Mem.Exact.{IsAddressed, IsEncodable, Reads, Keeps, address_of, encode_mem-Reads}
use afs_as.X86.Mem.Bounds.{encode_mem-le}
use afs_as.X86.Mem.Refused.{Unscaled, encode_mem-IsAddressed}
use afs_as.X86.Parts.{
  InsnReloc, Encoded, Parts, new, finish, mem, noted, rip_relocation, width_setup, modrm_rr,
}
use afs_as.X86.Parts.Reloc.{Addresses, finish-Addresses}
use afs_as.X86.Encode.{
  encode_mov, encode_lea, encode_jcc, byte_or, mov_parts, check_width, width_eq,
}
use afs_as.X86.Encode.Reader.{read_instruction, read_registers}
use afs_as.X86.Encode.Moves.{encode_mov-store, encode_mov-load, encode_lea-address}

spl-parse : parse (text "spl") ≡ some (byte_reg_of 4)
unfolding parse afs_as.X86.Reg.among afs_as.X86.Reg.find_name afs_as.Base.Text.text_eq
spl-parse = refl

xmm-parse : parse (text "xmm12") ≡ some (xmm_reg_of 12)
unfolding parse afs_as.X86.Reg.among afs_as.X86.Reg.find_name afs_as.Base.Text.text_eq
    afs_as.X86.Reg.parse_other afs_as.X86.Reg.strip_prefix afs_as.X86.Reg.parse_xmm
    afs_as.X86.Reg.parse_u8 afs_as.X86.Reg.u8_digits
xmm-parse = refl

rip-parse : parse (text "rip") ≡ none
unfolding parse afs_as.X86.Reg.among afs_as.X86.Reg.find_name afs_as.Base.Text.text_eq
    afs_as.X86.Reg.parse_other afs_as.X86.Reg.strip_prefix
rip-parse = refl

-- The number parser of the standard library takes a sign, and so does `parse`.
signed-parse : parse (text "xmm+5") ≡ some (xmm_reg_of 5)
unfolding parse afs_as.X86.Reg.among afs_as.X86.Reg.find_name afs_as.Base.Text.text_eq
    afs_as.X86.Reg.parse_other afs_as.X86.Reg.strip_prefix afs_as.X86.Reg.parse_xmm
    afs_as.X86.Reg.parse_u8 afs_as.X86.Reg.u8_digits
signed-parse = refl

parse-name_of_example : (name_of (byte_reg_of 4) >>= parse) ≡ some (byte_reg_of 4)
parse-name_of_example = parse-name_of (byte_reg_of 4) (Names.low_byte 4 (omega arith))

parse-IsReg_example : IsReg (xmm_reg_of 12)
parse-IsReg_example = parse-IsReg (text "xmm12") (xmm_reg_of 12) xmm-parse

-- `-8(%r13,%r12,8)`
abbrev scaled : MemOperand
scaled = record {
  disp = negsuc 7;
  rip_sym = none;
  base = some (gp_reg_of 13 q);
  index = some (gp_reg_of 12 q);
  scale = 8;
}

scaled-IsEncodable : IsEncodable scaled
scaled-IsEncodable = record {
  unscaled = λ e. cc e;
  addressed = λ e. record {
    base_quad = (13, omega arith, refl);
    index_quad = (12, omega arith, (λ e. absurd (omega (arith, e))), refl);
    bits = 3;
    factor = eight;
    fits = (omega arith, omega arith);
    registers = λ (e, f). cc e;
  };
}

abbrev extended_rex : Rex
extended_rex = record no_rex { x = true; b = true }

abbrev scaled_bytes : MemEnc
scaled_bytes = record { bytes = 0x6c ∷ 0xe5 ∷ 0xf8 ∷ []; rip_disp_offset = none }

scaled-encode_mem : encode_mem 5 scaled no_rex ≡ ok (scaled_bytes, extended_rex)
unfolding encode_mem afs_as.X86.Mem.is_none afs_as.X86.Mem.encode_address afs_as.X86.Mem.merge_index
    afs_as.X86.Mem.is_quad afs_as.X86.Mem.is_stack_pointer afs_as.X86.Mem.merge_base
    afs_as.X86.Mem.scale_bits afs_as.Base.Int.is_i32 afs_as.X86.Mem.address_bytes
    afs_as.X86.Mem.with_both afs_as.X86.Rex.merge_reg afs_as.X86.Mem.fields
    afs_as.X86.Mem.displacement afs_as.X86.Reg.rex_bit afs_as.X86.Reg.rex_forbidden
    afs_as.Base.Int.int_eq afs_as.X86.Reg.low3 afs_as.X86.Mem.is_i8 afs_as.X86.Mem.pattern
scaled-encode_mem = refl

encode_mem-Reads_example :
    (out : MemEnc × Rex) × (encode_mem 5 scaled no_rex ≡ ok out)
    × Reads (5 % 8) (address_of scaled) out
    × Keeps no_rex out.1
encode_mem-Reads_example = encode_mem-Reads 5 scaled no_rex scaled-IsEncodable refl refl

encode_mem-IsAddressed_example :
    IsAddressed scaled.disp scaled.base scaled.index scaled.scale
    × Unscaled scaled.index scaled.scale
encode_mem-IsAddressed_example =
    encode_mem-IsAddressed 5 scaled no_rex (scaled_bytes, extended_rex) refl
      (Names.quad 13 (omega arith)) (Names.quad 12 (omega arith)) scaled-encode_mem

-- `cmpb $5, buf+16(%rip)`
abbrev compare : Parts
compare = record new { opcode = 0x80 ∷ [] }

abbrev buffer : MemOperand
buffer = record { disp = pos 16; rip_sym = some (text "buf"); base = none; index = none; scale = 1 }

abbrev compared : Parts
compared = record compare {
  tail = 0x3d ∷ 0 ∷ 0 ∷ 0 ∷ 0 ∷ [];
  rip_reloc = some (1, text "buf", pos 16);
}

buffer-mem : mem compare 7 buffer ≡ ok compared
unfolding mem encode_mem afs_as.X86.Mem.is_none afs_as.X86.Parts.noted
buffer-mem = refl

abbrev compare_bytes : Encoded
compare_bytes = record {
  bytes = 0x80 ∷ 0x3d ∷ 0 ∷ 0 ∷ 0 ∷ 0 ∷ 5 ∷ [];
  reloc = some (record { offset = 2; sym = text "buf"; r_type = 2; addend = pos 11 });
  label_fix = none;
}

compare-finish : finish (record compared { tail = compared.tail ++ (5 ∷ []) }) ≡ ok compare_bytes
unfolding finish afs_as.X86.Rex.emit afs_as.X86.Rex.any afs_as.X86.Parts.rip_relocation
    afs_as.X86.Parts.sub_i64 afs_as.Base.Int.is_i64 afs_as.Base.Int.◌-ℤ◌
compare-finish = refl

finish-Addresses_example :
    (start : Bytes) × (modrm : ℕ) × (r : InsnReloc) × (compare_bytes.bytes
      ≡ start ++ (modrm ∷ 0 ∷ 0 ∷ 0 ∷ 0 ∷ 5 ∷ []))
    × (compare_bytes.reloc ≡ some r)
    × Addresses 7 (length start + 1) (text "buf") (pos 16) r
finish-Addresses_example =
    finish-Addresses compare compared 7 buffer (text "buf") (5 ∷ []) compare_bytes refl refl
      buffer-mem compare-finish (omega arith)

-- `movb %spl, -8(%r13,%r12,8)`
abbrev store_bytes : Encoded
store_bytes = record {
  bytes = 0x43 ∷ 0x88 ∷ 0x64 ∷ 0xe5 ∷ 0xf8 ∷ [];
  reloc = none;
  label_fix = none;
}

spl-encode_mov :
    encode_mov b (reg (byte_reg_of 4) ∷ Operand.mem scaled ∷ []) (text "movb") ≡ ok store_bytes
unfolding encode_mov mem encode_mem finish mov_parts check_width width_eq noted rip_relocation
    width_setup is_none encode_address merge_index is_quad is_stack_pointer is_gp merge_base
    scale_bits address_bytes displacement fields is_i8 pattern with_both low3 rex_bit rex_forbidden
    any emit merge_reg rex_byte is_i32 int_eq
spl-encode_mov = refl

ah-encode_mov :
    encode_mov b (reg (high_reg_of 0) ∷ Operand.mem scaled ∷ []) (text "movb")
    ≡ err high_byte_with_rex
unfolding encode_mov mem encode_mem finish mov_parts check_width width_eq noted rip_relocation
    width_setup is_none encode_address merge_index is_quad is_stack_pointer is_gp merge_base
    scale_bits address_bytes displacement fields is_i8 pattern with_both low3 rex_bit rex_forbidden
    any emit merge_reg rex_byte is_i32 int_eq
ah-encode_mov = refl

encode_mov-store_example :
    read_instruction (0x43 ∷ 0x88 ∷ 0x64 ∷ 0xe5 ∷ 0xf8 ∷ 0xc3 ∷ [])
    ≡ some
        (record { opcode = 0x88; register = byte_reg_of 4; address = address_of scaled }, 0xc3 ∷ [])
unfolding afs_as.X86.Encode.width_eq
encode_mov-store_example =
    encode_mov-store b (byte_reg_of 4) scaled (text "movb") store_bytes (0xc3 ∷ []) (λ e. cc e)
      (Names.low_byte 4 (omega arith)) scaled-IsEncodable spl-encode_mov

-- `movw -8(%r13,%r12,8), %cx`
abbrev load_bytes : Encoded
load_bytes = record {
  bytes = 0x66 ∷ 0x43 ∷ 0x8b ∷ 0x4c ∷ 0xe5 ∷ 0xf8 ∷ [];
  reloc = none;
  label_fix = none;
}

cx-encode_mov :
    encode_mov w (Operand.mem scaled ∷ reg (gp_reg_of 1 w) ∷ []) (text "movw") ≡ ok load_bytes
unfolding encode_mov mem encode_mem finish mov_parts check_width width_eq noted rip_relocation
    width_setup is_none encode_address merge_index is_quad is_stack_pointer is_gp merge_base
    scale_bits address_bytes displacement fields is_i8 pattern with_both low3 rex_bit rex_forbidden
    any emit merge_reg rex_byte is_i32 int_eq
cx-encode_mov = refl

encode_mov-load_example :
    read_instruction (0x66 ∷ 0x43 ∷ 0x8b ∷ 0x4c ∷ 0xe5 ∷ 0xf8 ∷ 0xc3 ∷ [])
    ≡ some
        (record { opcode = 0x8b; register = gp_reg_of 1 w; address = address_of scaled }, 0xc3 ∷ [])
unfolding afs_as.X86.Encode.width_eq
encode_mov-load_example =
    encode_mov-load w (gp_reg_of 1 w) scaled (text "movw") load_bytes (0xc3 ∷ []) (λ e. cc e)
      (Names.word 1 (omega arith)) scaled-IsEncodable cx-encode_mov

-- `leaq -8(%r13,%r12,8), %r9`
abbrev lea_bytes : Encoded
lea_bytes = record { bytes = 0x4f ∷ 0x8d ∷ 0x4c ∷ 0xe5 ∷ 0xf8 ∷ []; reloc = none; label_fix = none }

r9-encode_lea :
    encode_lea q (Operand.mem scaled ∷ reg (gp_reg_of 9 q) ∷ []) (text "leaq") ≡ ok lea_bytes
unfolding encode_lea mem encode_mem finish mov_parts check_width width_eq noted rip_relocation
    width_setup is_none encode_address merge_index is_quad is_stack_pointer is_gp merge_base
    scale_bits address_bytes displacement fields is_i8 pattern with_both low3 rex_bit rex_forbidden
    any emit merge_reg rex_byte is_i32 int_eq
r9-encode_lea = refl

encode_lea-address_example :
    read_instruction (0x4f ∷ 0x8d ∷ 0x4c ∷ 0xe5 ∷ 0xf8 ∷ [])
    ≡ some (record { opcode = 0x8d; register = gp_reg_of 9 q; address = address_of scaled }, [])
encode_lea-address_example =
    encode_lea-address q (gp_reg_of 9 q) scaled (text "leaq") lea_bytes [] (λ e. cc e)
      (Names.quad 9 (omega arith)) scaled-IsEncodable r9-encode_lea

-- `movb %ah, %dl`
abbrev high_bytes : Encoded
high_bytes = record { bytes = 0x88 ∷ 0xe2 ∷ []; reloc = none; label_fix = none }

ah-to-dl :
    encode_mov b (reg (high_reg_of 0) ∷ reg (byte_reg_of 2) ∷ []) (text "movb") ≡ ok high_bytes
unfolding encode_mov mov_parts check_width width_eq rip_relocation width_setup finish modrm_rr low3
    rex_bit rex_forbidden any emit merge_reg rex_byte fields
ah-to-dl = refl

encode_mov-registers_example :
    read_registers (0x88 ∷ 0xe2 ∷ [])
    ≡ some (record { opcode = 0x88; register = high_reg_of 0; operand = byte_reg_of 2 }, [])
unfolding width_eq
encode_mov-registers_example =
    encode_mov-registers b (high_reg_of 0) (byte_reg_of 2) (text "movb") high_bytes [] (λ e. cc e)
      (Names.high_byte 0 (omega arith)) (Names.low_byte 2 (omega arith)) ah-to-dl

-- `addw %r9w, %cx`
abbrev add_bytes : Encoded
add_bytes = record { bytes = 0x66 ∷ 0x44 ∷ 0x01 ∷ 0xc9 ∷ []; reloc = none; label_fix = none }

add-arith_idx : arith_idx (text "add") ≡ some 0
unfolding arith_idx lookup text_eq
add-arith_idx = refl

add-encode_arith :
    encode_arith (text "add") w (reg (gp_reg_of 9 w) ∷ reg (gp_reg_of 1 w) ∷ []) (text "addw")
    ≡ ok add_bytes
unfolding encode_arith arith_idx lookup text_eq or_unreachable arith_parts check_width width_eq
    rip_relocation width_setup finish modrm_rr low3 rex_bit rex_forbidden any emit merge_reg
    rex_byte fields
add-encode_arith = refl

encode_arith-registers_example :
    read_computation (0x66 ∷ 0x44 ∷ 0x01 ∷ 0xc9 ∷ [])
    ≡ some
        (record { operation = addition; source = gp_reg_of 9 w; destination = gp_reg_of 1 w }, [])
unfolding width_eq spelled
encode_arith-registers_example =
    encode_arith-registers addition w (gp_reg_of 9 w) (gp_reg_of 1 w) (text "addw") add_bytes []
      (λ e. cc e) (Names.word 9 (omega arith)) (Names.word 1 (omega arith)) add-encode_arith

-- `imulb %al, %bl` gets the bytes of `imull %eax, %ebx`.
abbrev imul_bytes : Encoded
imul_bytes = record { bytes = 0x0f ∷ 0xaf ∷ 0xd8 ∷ []; reloc = none; label_fix = none }

imulb-encode_rm_0f :
    encode_rm_0f 0xaf b (reg (byte_reg_of 0) ∷ reg (byte_reg_of 3) ∷ []) (text "imulb")
    ≡ ok imul_bytes
unfolding encode_rm_0f rm_parts check_width width_eq rip_relocation width_setup finish modrm_rr low3
    rex_bit rex_forbidden any emit merge_reg rex_byte fields
imulb-encode_rm_0f = refl

imull-encode_rm_0f :
    encode_rm_0f 0xaf l (reg (gp_reg_of 0 l) ∷ reg (gp_reg_of 3 l) ∷ []) (text "imull")
    ≡ ok imul_bytes
unfolding encode_rm_0f rm_parts check_width width_eq rip_relocation width_setup finish modrm_rr low3
    rex_bit rex_forbidden any emit merge_reg rex_byte fields
imull-encode_rm_0f = refl

encode_mem-le_example : (1 ≤ length scaled_bytes.bytes) × (length scaled_bytes.bytes ≤ 6)
encode_mem-le_example = encode_mem-le 5 scaled no_rex (scaled_bytes, extended_rex) scaled-encode_mem
