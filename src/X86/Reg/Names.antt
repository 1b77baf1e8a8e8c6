-- ===== src/X86/Reg/Names.antt =====
-- The names of the registers of src/x86/reg.rs, parsed and printed.
use afs_as.Base.{
  ℕ, zero, suc, ◌+◌, ◌<◌, ◌≡◌, refl, ◌⊎◌, inl, inr, not, ◌&&◌, ◌||◌, Option, some, List, [], ◌∷◌,
  length, ltb, ◌==◌, Bool-cases, Option-cases, arith,
}
use afs_as.Base.Bytes.{Bytes}
use afs_as.Base.Text.{text, text_eq}
use afs_as.X86.Reg.{
  w, l, q, Reg, gp_reg_of, high_reg_of, st_reg_of, xmm_reg_of, byte_reg_of, q_names, l_names,
  w_names, b_names, high_names, find_name, strip_prefix, strip_close, u8_digits, parse_u8,
  starts_with_zero, parse_st, parse_xmm, parse_other, among, parse, decimal, name_of, ◌>>=◌,
}
use mathlib.Core.Path.{subst}

-- The registers there are.
pub data IsReg : Reg → Type 0 where
  quad : (i : ℕ) → i < 16 → IsReg (gp_reg_of i q)
  long : (i : ℕ) → i < 16 → IsReg (gp_reg_of i l)
  word : (i : ℕ) → i < 16 → IsReg (gp_reg_of i w)
  low_byte : (i : ℕ) → i < 16 → IsReg (byte_reg_of i)
  high_byte : (i : ℕ) → i < 4 → IsReg (high_reg_of i)
  stack : (i : ℕ) → i < 8 → IsReg (st_reg_of i)
  vector : (i : ℕ) → i < 16 → IsReg (xmm_reg_of i)

-- The name printed for a register parses as that register.
abbrev Returns : Reg → Type 0
Returns r = (name_of r >>= parse) ≡ some r

-- Each number below `n`, as a tuple.
abbrev Each : (ℕ → Type 0) → ℕ → Type 0
Each P zero = Unit {0}
Each P (suc n) = P 0 × Each (λ i. P (suc i)) n

each_below : (P : ℕ → Type 0) (n i : ℕ) → Each P n → i < n → P i
each_below P zero i every h = absurd (omega (arith, h))
each_below P (suc n) zero every h = every.0
each_below P (suc n) (suc i) every h = each_below (λ j. P (suc j)) n i every.1 (omega (arith, h))

Returns-quad : Each (λ i. Returns (gp_reg_of i q)) 16
unfolding name_of parse among find_name text_eq
Returns-quad = (
  refl,
  (
    refl,
    (
      refl,
      (
        refl,
        (
          refl,
          (
            refl,
            (refl, (refl, (refl, (refl, (refl, (refl, (refl, (refl, (refl, (refl, tt)))))))))),
          ),
        ),
      ),
    ),
  ),
)

Returns-long : Each (λ i. Returns (gp_reg_of i l)) 16
unfolding name_of parse among find_name text_eq
Returns-long = (
  refl,
  (
    refl,
    (
      refl,
      (
        refl,
        (
          refl,
          (
            refl,
            (refl, (refl, (refl, (refl, (refl, (refl, (refl, (refl, (refl, (refl, tt)))))))))),
          ),
        ),
      ),
    ),
  ),
)

Returns-word : Each (λ i. Returns (gp_reg_of i w)) 16
unfolding name_of parse among find_name text_eq
Returns-word = (
  refl,
  (
    refl,
    (
      refl,
      (
        refl,
        (
          refl,
          (
            refl,
            (refl, (refl, (refl, (refl, (refl, (refl, (refl, (refl, (refl, (refl, tt)))))))))),
          ),
        ),
      ),
    ),
  ),
)

Returns-low_byte : Each (λ i. Returns (byte_reg_of i)) 16
unfolding name_of parse among find_name text_eq
Returns-low_byte = (
  refl,
  (
    refl,
    (
      refl,
      (
        refl,
        (
          refl,
          (
            refl,
            (refl, (refl, (refl, (refl, (refl, (refl, (refl, (refl, (refl, (refl, tt)))))))))),
          ),
        ),
      ),
    ),
  ),
)

Returns-high_byte : Each (λ i. Returns (high_reg_of i)) 4
unfolding name_of parse among find_name text_eq
Returns-high_byte = (refl, (refl, (refl, (refl, tt))))

Returns-stack : Each (λ i. Returns (st_reg_of i)) 8
unfolding name_of parse among find_name text_eq parse_other parse_st parse_xmm parse_u8 u8_digits
    strip_prefix strip_close decimal
Returns-stack = (refl, (refl, (refl, (refl, (refl, (refl, (refl, (refl, tt))))))))

Returns-vector : Each (λ i. Returns (xmm_reg_of i)) 16
unfolding name_of parse among find_name text_eq parse_other parse_st parse_xmm parse_u8 u8_digits
    strip_prefix strip_close decimal
Returns-vector = (
  refl,
  (
    refl,
    (
      refl,
      (
        refl,
        (
          refl,
          (
            refl,
            (refl, (refl, (refl, (refl, (refl, (refl, (refl, (refl, (refl, (refl, tt)))))))))),
          ),
        ),
      ),
    ),
  ),
)

-- Each register has a name, and `parse` takes the name for that register.
pub parse-name_of : (r : Reg) → IsReg r → (name_of r >>= parse) ≡ some r
parse-name_of _ (quad i h) = each_below (λ j. Returns (gp_reg_of j q)) 16 i Returns-quad h
parse-name_of _ (long i h) = each_below (λ j. Returns (gp_reg_of j l)) 16 i Returns-long h
parse-name_of _ (word i h) = each_below (λ j. Returns (gp_reg_of j w)) 16 i Returns-word h
parse-name_of _ (low_byte i h) = each_below (λ j. Returns (byte_reg_of j)) 16 i Returns-low_byte h
parse-name_of _ (high_byte i h) = each_below (λ j. Returns (high_reg_of j)) 4 i Returns-high_byte h
parse-name_of _ (stack i h) = each_below (λ j. Returns (st_reg_of j)) 8 i Returns-stack h
parse-name_of _ (vector i h) = each_below (λ j. Returns (xmm_reg_of j)) 16 i Returns-vector h

find_name-lt :
    (name : Bytes) (k i : ℕ) (ns : List Bytes) → find_name name k ns ≡ some i → i < k + length ns
unfolding find_name
find_name-lt name k i [] h = cc
find_name-lt name k i (n ∷ ns) h = elim (Bool-cases (text_eq n name)) [
  | inl e ↦ ground (arith, rw (e, find_name) at h)
  | inr e ↦
      let rest = find_name-lt name (suc k) i ns (rw (e, find_name) at h) in omega (arith, rest)
]

among-some :
    (names : List Bytes) (reg : ℕ → Reg) (name : Bytes) (others : Option Reg) (r : Reg)
    → among names reg name others ≡ some r
    → ((i : ℕ) × (i < length names) × (reg i ≡ r)) ⊎ (others ≡ some r)
unfolding among
among-some names reg name others r h = elim (Option-cases (find_name name 0 names)) [
  | inr (i, e) ↦ inl (i, omega (arith, find_name-lt name 0 i names e), cc (rw (e, among) at h))
  | inl e ↦ inr (rw (e, among) at h)
]

parse_st-IsReg : (rest : Bytes) (r : Reg) → parse_st rest ≡ some r → IsReg r
unfolding parse_st
parse_st-IsReg rest r h = elim (Option-cases (strip_close rest)) [
  | inl e ↦ cc (rw (e, parse_st) at h)
  | inr (digit, e) ↦ elim (Option-cases (parse_u8 digit)) [
    | inl f ↦ cc (rw (e, f, parse_st) at h)
    | inr (n, f) ↦ elim (Bool-cases (ltb n 8 && length digit == 1)) [
      | inl g ↦
          let room : n < 8 = ground (arith, g) in
          let same : st_reg_of n ≡ r = cc (rw (e, f, g, parse_st) at h) in
          subst IsReg same (stack n room)
      | inr g ↦ cc (rw (e, f, g, parse_st) at h)
    ]
  ]
]

parse_xmm-IsReg : (rest : Bytes) (r : Reg) → parse_xmm rest ≡ some r → IsReg r
unfolding parse_xmm
parse_xmm-IsReg rest r h = elim (Option-cases (parse_u8 rest)) [
  | inl f ↦ cc (rw (f, parse_xmm) at h)
  | inr (n, f) ↦ elim (Bool-cases (ltb n 16 && (length rest == 1 || not (starts_with_zero rest)))) [
    | inl g ↦
        let room : n < 16 = ground (arith, g) in
        let same : xmm_reg_of n ≡ r = cc (rw (f, g, parse_xmm) at h) in
        subst IsReg same (vector n room)
    | inr g ↦ cc (rw (f, g, parse_xmm) at h)
  ]
]

parse_other-IsReg : (name : Bytes) (r : Reg) → parse_other name ≡ some r → IsReg r
unfolding parse_other
parse_other-IsReg name r h = elim (Bool-cases (text_eq name (text "st"))) [
  | inl e ↦
      let same : st_reg_of 0 ≡ r = cc (rw (e, parse_other) at h) in
      subst IsReg same (stack 0 (omega arith))
  | inr e ↦ elim (Option-cases (strip_prefix (text "st(") name)) [
    | inr (rest, f) ↦ parse_st-IsReg rest r (rw (e, f, parse_other) at h)
    | inl f ↦ elim (Option-cases (strip_prefix (text "xmm") name)) [
      | inr (rest, g) ↦ parse_xmm-IsReg rest r (rw (e, f, g, parse_other) at h)
      | inl g ↦ cc (rw (e, f, g, parse_other) at h)
    ]
  ]
]

-- A table whose entries are registers, and what comes behind it.
among-IsReg :
    (names : List Bytes) (reg : ℕ → Reg) (name : Bytes) (others : Option Reg) (r : Reg)
    → ((i : ℕ) → i < length names → IsReg (reg i))
    → (others ≡ some r → IsReg r)
    → among names reg name others ≡ some r
    → IsReg r
among-IsReg names reg name others r table rest h = elim (among-some names reg name others r h) [
  | inl (i, room, e) ↦ subst IsReg e (table i room)
  | inr e ↦ rest e
]

-- Every name that `parse` takes is taken for a register that there is.
pub parse-IsReg : (name : Bytes) (r : Reg) → parse name ≡ some r → IsReg r
unfolding parse
parse-IsReg name r = among-IsReg q_names _ name _ r quad (
    among-IsReg l_names _ name _ r long (
      among-IsReg w_names _ name _ r word (
        among-IsReg b_names _ name _ r low_byte
          (among-IsReg high_names _ name _ r high_byte (parse_other-IsReg name r)))))
