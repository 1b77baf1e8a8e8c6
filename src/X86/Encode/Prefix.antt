-- ===== src/X86/Encode/Prefix.antt =====
-- The prefixes that src/x86/encode.rs writes, read back.
use afs_as.Base.{
  ℕ, ◌+◌, ◌-◌, ◌/◌, ◌%◌, ◌<◌, ◌≡◌, ◌≢◌, refl, ap, sym, ◌∙◌, Bool, true, false, ◌&&◌, [], ◌∷◌, ◌++◌,
  leb, ◌==◌, inl, inr, Bool-cases, ok, if◌then◌else◌, arith,
}
use afs_as.Base.Bytes.{Bytes}
use mathlib.Core.List.{append-nil}
use Prim.Native.Nat.{bit_and}
use afs_as.X86.Mem.Encoded.{extended-low}
use afs_as.X86.Reg.{gp_reg_of, w, l, q, x, Reg, low3, rex_bit, rex_forbidden}
use afs_as.X86.Reg.Names
use afs_as.X86.Reg.Names.{IsReg}
use afs_as.X86.Rex.{Rex, any, rex_byte, emit}
use afs_as.X86.Mem.Bits.{low_three}
use afs_as.X86.Mem.Decode.{extended}
use afs_as.X86.Encode.Reader.{Bits, absent, read_bits, read_rex, read_size, register_at}

-- What `emit` writes.
abbrev pub rex_bytes : Rex → Bytes
rex_bytes rex = if any rex then rex_byte rex ∷ [] else []

-- What there is to read.
abbrev pub bits_of : Rex → Bits
bits_of rex = record { present = any rex; wide = rex.w; field = rex.r; index = rex.x; base = rex.b }

pub emit-rex_bytes :
    (rex : Rex) (out start : Bytes)
    → emit rex out ≡ ok start
    → (start ≡ out ++ rex_bytes rex) × ((any rex && rex.forbidden) ≡ false)
unfolding emit
emit-rex_bytes rex out start h = elim (Bool-cases (any rex && rex.forbidden)) [
  | inl e ↦ cc (rw (e, emit) at h)
  | inr e ↦ elim (Bool-cases (any rex)) [
    | inl f ↦ (rw f (cc (rw (e, f, emit) at h)), e)
    | inr f ↦
        (rw f (let q : out ≡ start = cc (rw (e, f, emit) at h) in sym q ∙ sym (append-nil out)), e)
  ]
]

abbrev IsRead : ℕ → Bool → Bool → Bool → Bool → Type 0
IsRead y wide field index base =
    (y / 16 ≡ 4)
    × (read_bits y
        ≡ record { present = true; wide = wide; field = field; index = index; base = base })

rex_byte-IsRead :
    (wide field index base forced forbidden : Bool)
    → IsRead
        (rex_byte (record {
          w = wide;
          r = field;
          x = index;
          b = base;
          forced = forced;
          forbidden = forbidden;
        }))
        wide
        field
        index
        base
unfolding rex_byte read_bits
rex_byte-IsRead false false false false forced forbidden = (refl, refl)
rex_byte-IsRead false false false true forced forbidden = (refl, refl)
rex_byte-IsRead false false true false forced forbidden = (refl, refl)
rex_byte-IsRead false false true true forced forbidden = (refl, refl)
rex_byte-IsRead false true false false forced forbidden = (refl, refl)
rex_byte-IsRead false true false true forced forbidden = (refl, refl)
rex_byte-IsRead false true true false forced forbidden = (refl, refl)
rex_byte-IsRead false true true true forced forbidden = (refl, refl)
rex_byte-IsRead true false false false forced forbidden = (refl, refl)
rex_byte-IsRead true false false true forced forbidden = (refl, refl)
rex_byte-IsRead true false true false forced forbidden = (refl, refl)
rex_byte-IsRead true false true true forced forbidden = (refl, refl)
rex_byte-IsRead true true false false forced forbidden = (refl, refl)
rex_byte-IsRead true true false true forced forbidden = (refl, refl)
rex_byte-IsRead true true true false forced forbidden = (refl, refl)
rex_byte-IsRead true true true true forced forbidden = (refl, refl)

-- Without any bit there is nothing to write, and nothing is read.
none_lem : (rex : Rex) → any rex ≡ false → bits_of rex ≡ absent
unfolding any
none_lem rex h = ground (arith, h)

-- The prefix is read behind `emit`, if no opcode stands in its place.
pub read_rex-rex_bytes :
    (rex : Rex) (opcode : ℕ) (s : Bytes)
    → opcode / 16 ≢ 4
    → read_rex (rex_bytes rex ++ (opcode ∷ s)) ≡ (bits_of rex, opcode ∷ s)
unfolding read_rex
read_rex-rex_bytes rex opcode s h = elim (Bool-cases (any rex)) [
  | inl e ↦
      let (high, found) = rex_byte-IsRead rex.w rex.r rex.x rex.b rex.forced rex.forbidden in
      let t : (rex_byte rex / 16 == 4) ≡ true = ground (arith, high) in rw (e, t, found) refl
  | inr e ↦ let t : (opcode / 16 == 4) ≡ false = ground (arith, h) in rw (none_lem rex e, e, t) refl
]

-- A prefix for 16 bits is read, and none is found where the bytes start with something else.
pub read_size-other : (y : ℕ) (s : Bytes) → y ≢ 0x66 → read_size (y ∷ s) ≡ (false, y ∷ s)
unfolding read_size
read_size-other y s h = let t : (y == 0x66) ≡ false = ground (arith, h) in rw t refl

pub read_size-rex_bytes :
    (rex : Rex) (opcode : ℕ) (s : Bytes)
    → opcode ≢ 0x66
    → read_size (rex_bytes rex ++ (opcode ∷ s)) ≡ (false, rex_bytes rex ++ (opcode ∷ s))
read_size-rex_bytes rex opcode s h = elim (Bool-cases (any rex)) [
  | inl e ↦
      let (high, _) = rex_byte-IsRead rex.w rex.r rex.x rex.b rex.forced rex.forbidden in
      rw e (read_size-other (rex_byte rex) (opcode ∷ s) (λ z. absurd (omega (arith, high, z))))
  | inr e ↦ rw e (read_size-other opcode s h)
]

number : (i : ℕ) → i < 16 → extended (leb 8 i) (bit_and i 7 % 8) ≡ i
number i h =
    let e : bit_and i 7 % 8 ≡ i % 8 = omega (arith, low_three i) in
    ap (extended (leb 8 i)) e ∙ extended-low i h

-- A register field is read as the register, if a prefix is there for whatever needs one, and is not
-- there for a high byte.
register_lem :
    (r : Reg) (bit present : Bool)
    → IsReg r
    → r.width ≢ x
    → bit ≡ rex_bit r
    → (bit ≡ true → present ≡ true)
    → (r.forces_rex ≡ true → present ≡ true)
    → (rex_forbidden r ≡ true → present ≡ false)
    → register_at r.width present (extended bit (low3 r % 8)) ≡ r
unfolding register_at low3 rex_bit rex_forbidden extended
register_lem _ bit present (Names.quad i h) n e f g k =
    ap (λ m. gp_reg_of m q) (ap (λ t. extended t (bit_and i 7 % 8)) e ∙ number i h)
register_lem _ bit present (Names.long i h) n e f g k =
    ap (λ m. gp_reg_of m l) (ap (λ t. extended t (bit_and i 7 % 8)) e ∙ number i h)
register_lem _ bit present (Names.word i h) n e f g k =
    ap (λ m. gp_reg_of m w) (ap (λ t. extended t (bit_and i 7 % 8)) e ∙ number i h)
register_lem _ bit present (Names.low_byte i h) n e f g k =
    let known = ap (λ t. extended t (bit_and i 7 % 8)) e ∙ number i h in
    elim (Bool-cases (leb 4 i)) [
      | inl t ↦
          let there : present ≡ true = elim (Bool-cases (leb i 7)) [
            | inl u ↦ g (rw (t, u) refl)
            | inr u ↦ f (e ∙ ground (arith, u))
          ] in
          rw (known, t, there) refl
      | inr t ↦ rw (known, t) refl
    ]
register_lem _ bit present (Names.high_byte i h) n e f g k =
    let low : extended bit ((i + 4) % 8) ≡ i + 4 = rw e (omega (arith, h)) in
    let back : i + 4 - 4 ≡ i = omega arith in
    let high : leb 4 (i + 4) ≡ true = ground arith in rw (low, k refl, high, back) refl
register_lem _ bit present (Names.stack i h) n e f g k = absurd (n refl)
register_lem _ bit present (Names.vector i h) n e f g k = absurd (n refl)

any_of_r : (rex : Rex) → rex.r ≡ true → any rex ≡ true
unfolding any
any_of_r rex h = ground (arith, h)

any_of_b : (rex : Rex) → rex.b ≡ true → any rex ≡ true
unfolding any
any_of_b rex h = ground (arith, h)

any_of_forced : (rex : Rex) → rex.forced ≡ true → any rex ≡ true
unfolding any
any_of_forced rex h = ground (arith, h)

not_any : (rex : Rex) → (any rex && rex.forbidden) ≡ false → rex.forbidden ≡ true → any rex ≡ false
not_any rex h e = ground (arith, h, e)

-- The field R of the ModRM byte, and the field B.
pub register_at-r :
    (r : Reg) (rex : Rex)
    → IsReg r
    → r.width ≢ x
    → rex.r ≡ rex_bit r
    → (r.forces_rex ≡ true → rex.forced ≡ true)
    → (rex_forbidden r ≡ true → rex.forbidden ≡ true)
    → (any rex && rex.forbidden) ≡ false
    → register_at r.width (any rex) (extended rex.r (low3 r % 8)) ≡ r
register_at-r r rex known n e f g k =
    register_lem r rex.r (any rex) known n e (any_of_r rex) (λ h. any_of_forced rex (f h))
      (λ h. not_any rex k (g h))

pub register_at-b :
    (r : Reg) (rex : Rex)
    → IsReg r
    → r.width ≢ x
    → rex.b ≡ rex_bit r
    → (r.forces_rex ≡ true → rex.forced ≡ true)
    → (rex_forbidden r ≡ true → rex.forbidden ≡ true)
    → (any rex && rex.forbidden) ≡ false
    → register_at r.width (any rex) (extended rex.b (low3 r % 8)) ≡ r
register_at-b r rex known n e f g k =
    register_lem r rex.b (any rex) known n e (any_of_b rex) (λ h. any_of_forced rex (f h))
      (λ h. not_any rex k (g h))
