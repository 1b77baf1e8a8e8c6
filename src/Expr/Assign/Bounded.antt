-- ===== src/Expr/Assign/Bounded.antt =====
-- The dependencies of src/expr.rs: one list for each assignment, which refers to assignments only.
use afs_as.Base.{
  ℕ, zero, suc, ◌+◌, ◌-◌, ◌<◌, ◌≡◌, refl, ap, ◌∙◌, Bool-cases, inl, inr, Option, none, some,
  Option-cases, List, [], ◌∷◌, get_elem?, length, ltb, arith,
}
use afs_as.Base.Bytes.{Bytes}
use afs_as.Base.Text.{text_eq}
use afs_as.Expr.{SymbolValue, referenced_symbols}
use afs_as.Expr.Assign.{
  Assignments, Base, assignment, base, undefined, Reference, positions_of, partition_point,
  target_of, dependency_for_symbol, distinct, references, dependencies_from, dependencies,
}
use afs_as.Expr.Assign.Invariant.{Refers}

positions_bounded :
    (s : Bytes) (first : ℕ) (assignments : Assignments) (k t : ℕ)
    → get_elem? (positions_of s first assignments) k ≡ some t
    → t < first + length assignments
unfolding positions_of
positions_bounded s first [] k t e = cc
positions_bounded s first ((name, x) ∷ more) k t e = elim (Bool-cases (text_eq name s)) [
  | inl hit ↦
      found k (λ j g. positions_bounded s (first + 1) more j t g) (rw (hit, positions_of) at e)
  | inr miss ↦
      let h = positions_bounded s (first + 1) more k t (rw (miss, positions_of) at e) in
      omega (arith, h)
]
  where
    found :
        (k : ℕ)
        → ((j : ℕ)
            → get_elem? (positions_of s (first + 1) more) j ≡ some t
            → t < first + 1 + length more)
        → get_elem? (first ∷ positions_of s (first + 1) more) k ≡ some t
        → t < first + suc (length more)
    found zero ih e = let q : first ≡ t = ground arith in omega (arith, q)
    found (suc k) ih e = omega (arith, ih k e)

target_bounded :
    (indices : List ℕ) (limit bound t : ℕ)
    → ((k : ℕ) → get_elem? indices k ≡ some t → t < bound)
    → target_of indices limit ≡ some t
    → t < bound
unfolding target_of
target_bounded indices limit bound t h e =
    let n = partition_point limit indices in
    elim (Bool-cases (ltb 0 n)) [
      | inl prior ↦ h (n - 1) (rw (prior, target_of) at e)
      | inr first ↦ h n (rw (first, target_of) at e)
    ]

dependency_bounded :
    (assignments : Assignments) (symbols : Base) (index : ℕ) (s : Bytes) (t : ℕ)
    → dependency_for_symbol assignments symbols index s ≡ assignment t
    → t < length assignments
unfolding dependency_for_symbol
dependency_bounded assignments symbols index s t e =
    elim (Option-cases (target_of (positions_of s 0 assignments) index)) [
      | inl missing ↦ absurd (of_base (symbols s) (rw (missing, dependency_for_symbol) at e))
      | inr (u, found) ↦
          let f = rw (found, dependency_for_symbol) at e in
          let q : u ≡ t = ground (arith, f) in
          target_bounded (positions_of s 0 assignments) index (length assignments) t
            (λ k g. let h = positions_bounded s 0 assignments k t g in omega (arith, h))
            (found ∙ ap some q)
    ]
  where
    of_base :
        (o : Option SymbolValue) → elim o [ none ↦ undefined | some v ↦ base v ] ≡ assignment t → ⊥
    of_base none h = cc
    of_base (some v) h = cc

references_bounded :
    (assignments : Assignments) (symbols : Base) (index : ℕ) (ss : List Bytes) (k : ℕ)
    (r : Reference) (t : ℕ)
    → get_elem? (references assignments symbols index ss) k ≡ some r
    → r.dependency ≡ assignment t
    → t < length assignments
unfolding references
references_bounded assignments symbols index [] k r t e d = cc
references_bounded assignments symbols index (s ∷ ss) zero r t e d =
    dependency_bounded assignments symbols index s t
      (ap (λ (x : Reference). x.dependency) (some_eq e) ∙ d)
  where
    some_eq : {x y : Reference} → some x ≡ some y → x ≡ y
    some_eq h = cc
references_bounded assignments symbols index (s ∷ ss) (suc k) r t e d =
    references_bounded assignments symbols index ss k r t e d

dependencies_from_bounded :
    (assignments : Assignments) (symbols : Base) (index : ℕ) (more : Assignments) (i t : ℕ)
    → Refers (dependencies_from assignments symbols index more) i t
    → t < length assignments
unfolding dependencies_from
dependencies_from_bounded assignments symbols index [] i t (refs, k, r, a, b, c) = cc
dependencies_from_bounded assignments symbols index ((name, x) ∷ more) zero t
      (refs, k, r, a, b, c) =
    let q : references assignments symbols index (distinct [] (referenced_symbols x)) ≡ refs =
      ground (arith, a) in
    references_bounded assignments symbols index (distinct [] (referenced_symbols x)) k r t
      (ap (λ (l : List Reference). get_elem? l k) q ∙ b) c
dependencies_from_bounded assignments symbols index ((name, x) ∷ more) (suc i) t refers =
    dependencies_from_bounded assignments symbols (index + 1) more i t refers

pub dependencies_bounded :
    (assignments : Assignments) (symbols : Base) (i t : ℕ)
    → Refers (dependencies assignments symbols) i t
    → t < length assignments
unfolding dependencies
dependencies_bounded assignments symbols i t refers =
    dependencies_from_bounded assignments symbols 0 assignments i t refers

length-dependencies_from :
    (assignments : Assignments) (symbols : Base) (index : ℕ) (more : Assignments)
    → length (dependencies_from assignments symbols index more) ≡ length more
unfolding dependencies_from
length-dependencies_from assignments symbols index [] = refl
length-dependencies_from assignments symbols index ((name, x) ∷ more) =
    ap suc (length-dependencies_from assignments symbols (index + 1) more)

pub length-dependencies :
    (assignments : Assignments) (symbols : Base)
    → length (dependencies assignments symbols) ≡ length assignments
unfolding dependencies
length-dependencies assignments symbols = length-dependencies_from assignments symbols 0 assignments
