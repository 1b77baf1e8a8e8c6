-- ===== src/Expr/Classify/Selection.antt =====
-- The choice of anchors keeps the value: the addend and the chosen terms stand for the constant and
-- the sections.
use afs_as.Base.{
  ℕ, Option, none, some, List, [], ◌∷◌, ◌≡◌, ◌∙◌, inl, inr, Bool-cases, Option-cases, if◌then◌else◌,
  All, Result, ok, ◌>>=◌, >>=-eq-ok, arith,
}
use afs_as.Base.Bytes.{Bytes}
use afs_as.Base.Int.{ℤ, pos, ◌+ℤ◌, ◌-ℤ◌, ◌*ℤ◌, int_laws, parts_of, *ℤ_distrib, is_i64}
use afs_as.Expr.{ClassifyError, in_i64, in_i128}
use afs_as.Expr.Linear.Exact.{in_i64-eq}
use afs_as.Expr.Meaning.{weighted}
use afs_as.Expr.Classify.{
  PlainTerms, DefinedAnchorGroup, select_one, select_second, select_two, select_defined_anchors,
}
use afs_as.Expr.Classify.Sorting.{in_i128-eq}
use afs_as.Expr.Classify.Anchors.{Anchored, nil, cons}

module _ (m : Bytes → ℤ) where
  abbrev Candidates : ℤ → List (Bytes × ℕ) → Type 0
  Candidates base cs = All (λ (e : Bytes × ℕ). m e.0 ≡ base +ℤ pos e.1) cs

  -- Taking one candidate as the anchor, with the addend adjusted by its value.
  adjust :
      (constant k base x : ℤ) (s : Bytes) (v : ℕ)
      → m s ≡ base +ℤ pos v
      → x ≡ constant -ℤ k *ℤ pos v
      → x +ℤ k *ℤ m s ≡ constant +ℤ k *ℤ base
  adjust constant k base x s v e f = rw (f, e, *ℤ_distrib base (pos v) k) (omega int_laws)

  select_one_value :
      (constant k base : ℤ) (cs : List (Bytes × ℕ)) {out : ℤ × PlainTerms}
      → Candidates base cs
      → select_one constant k cs ≡ ok out
      → out.0 +ℤ weighted m out.1 ≡ constant +ℤ k *ℤ base
  unfolding select_one
  select_one_value constant k base [] h e = cc
  select_one_value constant k base ((s, v) ∷ cs) {out} (p, h) e =
      let (x, ex, rest) =
        >>=-eq-ok (in_i128 (constant -ℤ k *ℤ pos v))
          (λ x. if is_i64 x then ok (x, (s, k) ∷ []) else select_one constant k cs) e in
      elim (Bool-cases (is_i64 x)) [
        | inl fits ↦
            let q : out ≡ (x, (s, k) ∷ []) = ground (arith, rw fits at rest) in
            let a = adjust constant k base x s v p (in_i128-eq (constant -ℤ k *ℤ pos v) ex) in
            rw q (omega (int_laws, parts_of a))
        | inr wide ↦ select_one_value constant k base cs h (rw wide at rest)
      ]

  select_second_value :
      (constant k base : ℤ) (first : Bytes × ℤ) (cs : List (Bytes × ℕ)) {out : ℤ × PlainTerms}
      → Candidates base cs
      → select_second constant first k cs ≡ ok (some out)
      → out.0 +ℤ weighted m out.1 ≡ constant +ℤ k *ℤ base +ℤ first.1 *ℤ m first.0
  unfolding select_second
  select_second_value constant k base first [] h e = cc
  select_second_value constant k base first ((s, v) ∷ cs) {out} (p, h) e =
      let (x, ex, rest) =
        >>=-eq-ok (in_i128 (constant -ℤ k *ℤ pos v))
          (λ x.
            if is_i64 x
            then ok (some (x, first ∷ (s, k) ∷ []))
            else select_second constant first k cs)
          e in
      elim (Bool-cases (is_i64 x)) [
        | inl fits ↦
            let q : out ≡ (x, first ∷ (s, k) ∷ []) = ground (arith, rw fits at rest) in
            let a = adjust constant k base x s v p (in_i128-eq (constant -ℤ k *ℤ pos v) ex) in
            rw q (omega (int_laws, parts_of a))
        | inr wide ↦ select_second_value constant k base first cs h (rw wide at rest)
      ]

  select_two_value :
      (constant k base base' : ℤ) (cs : List (Bytes × ℕ)) (second : DefinedAnchorGroup)
      {out : ℤ × PlainTerms}
      → Candidates base cs
      → Candidates base' second.candidates
      → select_two constant k cs second ≡ ok out
      → out.0 +ℤ weighted m out.1 ≡ constant +ℤ k *ℤ base +ℤ second.coefficient *ℤ base'
  unfolding select_two
  select_two_value constant k base base' [] second h h' e = cc
  select_two_value constant k base base' ((s, v) ∷ cs) second {out} (p, h) h' e =
      let later = λ (found : Option (ℤ × PlainTerms)).
        (let r : Result ClassifyError (ℤ × PlainTerms) = elim found [
          | some chosen ↦ ok chosen
          | none ↦ select_two constant k cs second
        ] in
          r) in
      let (x, ex, rest) =
        >>=-eq-ok (in_i128 (constant -ℤ k *ℤ pos v))
          (λ x. select_second x (s, k) second.coefficient second.candidates >>= later) e in
      let (found, ef, last) =
        >>=-eq-ok (select_second x (s, k) second.coefficient second.candidates) later rest in
      elim (Option-cases found) [
        | inl nothing ↦ select_two_value constant k base base' cs second h h' (rw nothing at last)
        | inr (chosen, some_one) ↦
            let q : out ≡ chosen = ground (arith, rw some_one at last) in
            let b =
              select_second_value x second.coefficient base' (s, k) second.candidates {out = chosen}
                h' (rw some_one at ef) in
            let a = adjust constant k base x s v p (in_i128-eq (constant -ℤ k *ℤ pos v) ex) in
            rw q (omega (int_laws, parts_of a, parts_of b))
      ]

  pub select_defined_anchors_value :
      (constant : ℤ) {anchors : List DefinedAnchorGroup} {t : ℤ} {out : ℤ × PlainTerms}
      → Anchored m anchors t
      → select_defined_anchors constant anchors ≡ ok out
      → out.0 +ℤ weighted m out.1 ≡ constant +ℤ t
  unfolding select_defined_anchors
  select_defined_anchors_value constant {out = out} (nil z) e =
      let (c, ec, last) = >>=-eq-ok (in_i64 constant) (λ c. ok (c, [])) e in
      let q : out ≡ (c, []) = ground arith in rw (q, (in_i64-eq constant ec).0, z) (omega int_laws)
  select_defined_anchors_value constant (cons {a} b r f cs (nil z)) e =
      select_one_value constant a.coefficient b a.candidates cs e ∙ rw (f, z) (omega int_laws)
  select_defined_anchors_value constant (cons {a} b r f cs (cons {a = a'} b' r' f' cs' (nil z))) e =
      select_two_value constant a.coefficient b b' a.candidates a' cs cs' e
      ∙ rw (f, f', z) (omega int_laws)
  select_defined_anchors_value constant
        (cons b r f cs (cons b' r' f' cs' (cons b'' r'' f'' cs'' rest))) e =
      cc
