-- ===== src/X86/Mem/Shapes.antt =====
-- What the reader of X86/Mem/Decode makes of each shape of bytes that `encode_mem` of
-- src/x86/encode.rs writes.
use afs_as.Base.{
  ℕ, ◌+◌, ◌*◌, ◌/◌, ◌%◌, ◌<◌, ◌≡◌, ◌≢◌, refl, ◌∙◌, ap, Bool, true, false, ◌&&◌, none, some, ◌∷◌,
  ◌==◌, arith,
}
use afs_as.Base.Bytes.{Bytes}
use afs_as.X86.Mem.Decode.{
  at_rip, at, read_disp, read_disp32, with_disp, with_field, extended, scaled, decode_sib,
  decode_rm, decode,
}

ne_test : (a b : ℕ) → a ≢ b → (a == b) ≡ false
ne_test a b h = ground arith

eq_test : (a b : ℕ) → a ≡ b → (a == b) ≡ true
eq_test a b h = ground arith

-- The test of the mode 0 that stands for a bare displacement fails.
bare_lem : (mode l : ℕ) → (mode ≡ 0 → l ≢ 5) → ((mode == 0) && (l == 5)) ≡ false
bare_lem mode l h = ground (arith, h)

module _ (x b : Bool) (s : Bytes) where
  decode_lem :
      (y mode field rm : ℕ)
      → y ≡ mode * 64 + field * 8 + rm
      → mode < 3
      → field < 8
      → rm < 8
      → decode x b (y ∷ s) ≡ with_field field (decode_rm x b mode rm s)
  unfolding decode
  decode_lem y mode field rm e h k m =
      let e1 : y / 64 ≡ mode = omega (arith, e, h, k, m) in
      let e2 : y / 8 % 8 ≡ field = omega (arith, e, h, k, m) in
      let e3 : y % 8 ≡ rm = omega (arith, e, h, k, m) in
      let t : (mode == 3) ≡ false = ne_test mode 3 (λ q. absurd (omega (arith, q, h))) in
      rw (e1, e2, e3, t) refl

  decode_sib_lem :
      (mode y scale index base : ℕ)
      → y ≡ scale * 64 + index * 8 + base
      → scale < 4
      → index < 8
      → base < 8
      → (mode ≡ 0 → base ≢ 5)
      → decode_sib x b mode (y ∷ s)
        ≡ with_disp
            (at (some (extended b base)) (scaled scale (extended x index)))
            (read_disp mode s)
  unfolding decode_sib
  decode_sib_lem mode y scale index base e h k m n =
      let e1 : y / 64 ≡ scale = omega (arith, e, h, k, m) in
      let e2 : y / 8 % 8 ≡ index = omega (arith, e, h, k, m) in
      let e3 : y % 8 ≡ base = omega (arith, e, h, k, m) in
      rw (e1, e2, e3, bare_lem mode base n) refl

  -- A base register alone.
  pub decode_base :
      (mode field rm : ℕ)
      → mode < 3
      → field < 8
      → rm < 8
      → rm ≢ 4
      → (mode ≡ 0 → rm ≢ 5)
      → decode x b ((mode * 64 + field * 8 + rm) ∷ s)
        ≡ with_field field (with_disp (at (some (extended b rm)) none) (read_disp mode s))
  unfolding decode_rm
  decode_base mode field rm h k m other n =
      decode_lem (mode * 64 + field * 8 + rm) mode field rm refl h k m
      ∙ rw (ne_test rm 4 other, bare_lem mode rm n) refl

  -- A displacement from the next instruction.
  pub decode_rip :
      (field : ℕ)
      → field < 8
      → decode x b ((field * 8 + 5) ∷ s) ≡ with_field field (with_disp at_rip (read_disp32 s))
  unfolding decode_rm
  decode_rip field k =
      decode_lem (field * 8 + 5) 0 field 5 (omega arith) (omega arith) k (omega arith)

  -- An index that is scaled, and no base.
  decode_free_sib :
      (scale index : ℕ)
      → scale < 4
      → index < 8
      → decode_sib x b 0 ((scale * 64 + index * 8 + 5) ∷ s)
        ≡ with_disp (at none (scaled scale (extended x index))) (read_disp32 s)
  unfolding decode_sib
  decode_free_sib scale index h m =
      let y = scale * 64 + index * 8 + 5 in
      let e1 : y / 64 ≡ scale = omega (arith, h, m) in
      let e2 : y / 8 % 8 ≡ index = omega (arith, h, m) in
      let e3 : y % 8 ≡ 5 = omega (arith, h, m) in rw (e1, e2, e3) refl

-- A base register with a second byte.
pub decode_based :
    (x b : Bool) (s : Bytes) (mode field scale index base : ℕ)
    → mode < 3
    → field < 8
    → scale < 4
    → index < 8
    → base < 8
    → (mode ≡ 0 → base ≢ 5)
    → decode x b ((mode * 64 + field * 8 + 4) ∷ (scale * 64 + index * 8 + base) ∷ s)
      ≡ with_field field (
          with_disp
            (at (some (extended b base)) (scaled scale (extended x index)))
            (read_disp mode s))
unfolding decode_rm
decode_based x b s mode field scale index base h k m n o p =
    let y = scale * 64 + index * 8 + base in
    decode_lem x b (y ∷ s) (mode * 64 + field * 8 + 4) mode field 4 refl h k (omega arith)
    ∙ ap (with_field field) (decode_sib_lem x b s mode y scale index base refl m n o p)

pub decode_free :
    (x b : Bool) (s : Bytes) (field scale index : ℕ)
    → field < 8
    → scale < 4
    → index < 8
    → decode x b ((field * 8 + 4) ∷ (scale * 64 + index * 8 + 5) ∷ s)
      ≡ with_field field (with_disp (at none (scaled scale (extended x index))) (read_disp32 s))
unfolding decode_rm
decode_free x b s field scale index k m n =
    let y = scale * 64 + index * 8 + 5 in
    decode_lem x b (y ∷ s) (field * 8 + 4) 0 field 4 (omega arith) (omega arith) k (omega arith)
    ∙ ap (with_field field) (decode_free_sib x b s scale index m n)
