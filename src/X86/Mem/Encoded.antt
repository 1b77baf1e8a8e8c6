-- ===== src/X86/Mem/Encoded.antt =====
-- The bytes that the branches of `encode_mem` of src/x86/encode.rs write, read back.
use afs_as.Base.{
  ℕ, ◌+◌, ◌*◌, ◌%◌, ◌^◌, ◌<◌, ◌≡◌, ◌≢◌, refl, ap, ◌∙◌, inl, inr, true, false, none, some, ◌∷◌, ◌++◌,
  leb, ◌==◌, ==_iff, Bool-cases, arith,
}
use afs_as.Base.Bytes.{Bytes, to_le}
use afs_as.Base.Int.{ℤ, pos, int_eq, int_eq_iff, is_i32}
use afs_as.X86.Reg.{Width, Reg, gp_reg_of, low3}
use afs_as.X86.Mem.{displacement, pattern, is_i8, with_base, with_both, with_index}
use afs_as.X86.Mem.Decode.{at, read_disp, extended, scaled, decode}
use afs_as.X86.Mem.Bits.{fields_sum, low_fields, low_three, read_disp8-pattern, read_disp32-pattern}
use afs_as.X86.Mem.Shapes.{decode_base, decode_based, decode_free}

-- A 64-bit register by its number.
abbrev pub quad : ℕ → Reg
quad i = gp_reg_of i Width.q

pub low3-quad : (i : ℕ) → low3 (quad i) ≡ i % 8
unfolding low3
low3-quad i = low_three i

pub extended-low : (i : ℕ) → i < 16 → extended (leb 8 i) (i % 8) ≡ i
unfolding extended
extended-low i h = ground (arith, h)

-- The two bits and the bytes of a displacement, for a base register whose low bits are `l`.
abbrev Announces : ℤ → ℕ → ℕ × Bytes → Type 0
Announces disp l (mode, bytes) =
    (mode < 3) × (mode ≡ 0 → l ≢ 5) × ((s : Bytes) → read_disp mode (bytes ++ s) ≡ some (disp, s))

displacement_zero : (i : ℕ) → Announces (pos 0) (i % 8) (displacement (pos 0) (quad i))
unfolding displacement read_disp int_eq is_i8
displacement_zero i = elim (Bool-cases (i % 8 == 5)) [
  | inl f ↦
      rw (low3-quad i, f)
        (omega arith, λ q. absurd (omega (arith, q)), λ s. read_disp8-pattern (pos 0) s refl)
  | inr f ↦ rw (low3-quad i, f) (omega arith, λ _ q. ground (arith, f, q), λ s. refl)
]

displacement_lem :
    (disp : ℤ) (i : ℕ) → is_i32 disp ≡ true → Announces disp (i % 8) (displacement disp (quad i))
unfolding displacement read_disp
displacement_lem disp i h = elim (Bool-cases (int_eq disp (pos 0))) [
  | inl e ↦ rw ((int_eq_iff disp (pos 0)).0 e) (displacement_zero i)
  | inr e ↦ elim (Bool-cases (is_i8 disp)) [
    | inl f ↦
        rw (e, f) (omega arith, λ q. absurd (omega (arith, q)), λ s. read_disp8-pattern disp s f)
    | inr f ↦
        rw (e, f) (omega arith, λ q. absurd (omega (arith, q)), λ s. read_disp32-pattern disp s h)
  ]
]

-- The factor of an index, and the two bits for it.
pub data IsScale : ℕ → ℕ → Type 0 where
  one : IsScale 1 0
  two : IsScale 2 1
  four : IsScale 4 2
  eight : IsScale 8 3

IsScale-lt : (factor bits : ℕ) → IsScale factor bits → bits < 4
IsScale-lt _ _ one = omega arith
IsScale-lt _ _ two = omega arith
IsScale-lt _ _ four = omega arith
IsScale-lt _ _ eight = omega arith

IsScale-pow : (factor bits : ℕ) → IsScale factor bits → 2 ^ bits ≡ factor
IsScale-pow _ _ one = refl
IsScale-pow _ _ two = refl
IsScale-pow _ _ four = refl
IsScale-pow _ _ eight = refl

scaled_lem : (factor bits j : ℕ) → IsScale factor bits → j ≢ 4 → scaled bits j ≡ some (j, factor)
unfolding scaled
scaled_lem factor bits j k n =
    let t : (j == 4) ≡ false = ground (arith, n) in rw (t, IsScale-pow factor bits k) refl

pub low_lt : (n : ℕ) → n % 8 < 8
low_lt n = omega arith

-- The three shapes, with the register field `field`.
module _ (field : ℕ) (room : field < 8) (disp : ℤ) (fits : is_i32 disp ≡ true) (s : Bytes) where
  pub with_base_lem :
      (i : ℕ)
      → i < 16
      → decode false (leb 8 i) (with_base field 0 disp (quad i) ++ s)
        ≡ some (field, at (some i) none disp, s)
  unfolding with_base scaled extended
  with_base_lem i h =
      let (mode, bytes) = displacement disp (quad i) in
      let (small, other, read) = displacement_lem disp i fits in
      let e = read s in
      let f = extended-low i h in
      elim (Bool-cases (i % 8 == 4)) [
        | inl t ↦
            let low : i % 8 ≡ 4 = (==_iff (i % 8) 4).0 t in
            let e1 : with_base field 0 disp (quad i)
                ≡ (mode * 64 + field * 8 + 4) ∷ (0 * 64 + 4 * 8 + i % 8) ∷ bytes =
              rw
                (
                  low3-quad i,
                  t,
                  fields_sum mode field 4 (omega (arith, small)) room (omega arith),
                  fields_sum 0 4 (i % 8) (omega arith) (omega arith) (low_lt i),
                )
                refl in
            rw e1 (
              decode_based false (leb 8 i) (bytes ++ s) mode field 0 4 (i % 8) small room
                (omega arith) (omega arith) (low_lt i) other
              ∙ rw (e, f) refl)
        | inr t ↦
            let n : i % 8 ≢ 4 = λ q. ground (arith, t, q) in
            let e1 : with_base field 0 disp (quad i) ≡ (mode * 64 + field * 8 + i % 8) ∷ bytes =
              rw
                (
                  low3-quad i,
                  t,
                  fields_sum mode field (i % 8) (omega (arith, small)) room (low_lt i),
                )
                refl in
            rw e1 (
              decode_base false (leb 8 i) (bytes ++ s) mode field (i % 8) small room (low_lt i) n
                other
              ∙ rw (e, f) refl)
      ]

  pub with_both_lem :
      (i j factor bits : ℕ)
      → i < 16
      → j < 16
      → j ≢ 4
      → IsScale factor bits
      → decode (leb 8 j) (leb 8 i) (with_both field bits disp (quad i) (quad j) ++ s)
        ≡ some (field, at (some i) (some (j, factor)) disp, s)
  unfolding with_both
  with_both_lem i j factor bits h k n scale =
      let (mode, bytes) = displacement disp (quad i) in
      let (small, other, read) = displacement_lem disp i fits in
      let e = read s in
      let f = extended-low i h in
      let g = extended-low j k in
      let e1 : with_both field bits disp (quad i) (quad j)
          ≡ (mode * 64 + field * 8 + 4) ∷ (bits * 64 + j % 8 * 8 + i % 8) ∷ bytes =
        rw
          (
            low3-quad i,
            low3-quad j,
            fields_sum mode field 4 (omega (arith, small)) room (omega arith),
            fields_sum bits (j % 8) (i % 8) (IsScale-lt factor bits scale) (low_lt j) (low_lt i),
          )
          refl in
      ap (λ (t : Bytes). decode (leb 8 j) (leb 8 i) (t ++ s)) e1
      ∙ (decode_based (leb 8 j) (leb 8 i) (bytes ++ s) mode field bits (j % 8) (i % 8) small room
            (IsScale-lt factor bits scale) (low_lt j) (low_lt i) other
          ∙ rw (e, f, g, scaled_lem factor bits j scale n) refl)

  pub with_index_lem :
      (j factor bits : ℕ)
      → j < 16
      → j ≢ 4
      → IsScale factor bits
      → decode (leb 8 j) false (with_index field bits disp (quad j) ++ s)
        ≡ some (field, at none (some (j, factor)) disp, s)
  unfolding with_index
  with_index_lem j factor bits k n scale =
      let g = extended-low j k in
      let bytes = to_le 4 (pattern 32 disp) in
      let e1 : with_index field bits disp (quad j)
          ≡ (field * 8 + 4) ∷ (bits * 64 + j % 8 * 8 + 5) ∷ bytes =
        rw
          (
            low3-quad j,
            low_fields field 4 room (omega arith),
            fields_sum bits (j % 8) 5 (IsScale-lt factor bits scale) (low_lt j) (omega arith),
          )
          refl in
      ap (λ (t : Bytes). decode (leb 8 j) false (t ++ s)) e1
      ∙ (decode_free (leb 8 j) false (bytes ++ s) field bits (j % 8) room
            (IsScale-lt factor bits scale) (low_lt j)
          ∙ rw (read_disp32-pattern disp s fits, g, scaled_lem factor bits j scale n) refl)
