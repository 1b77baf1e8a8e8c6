-- ===== src/Expr/Classify/Anchors.antt =====
-- The sections of an expression and the anchors that stand for them.
use afs_as.Base.{
  ℕ, ◌||◌, List, [], ◌∷◌, ◌++◌, ◌≡◌, refl, sym, ◌∙◌, inl, inr, Bool-cases, if◌then◌else◌, All,
  Result, ok, err, ◌>>=◌, >>=-eq-ok, arith,
}
use afs_as.Base.Bytes.{Bytes}
use afs_as.Base.Int.{
  ℤ, pos, negsuc, ◌+ℤ◌, ◌*ℤ◌, int_eq, int_eq_iff, int_laws, +ℤ_distrib, *ℤ_distrib, zero-*ℤ,
  *ℤ_comm,
}
use afs_as.Expr.{illegal, unsupported_section_coefficient, ClassifyError, in_i32, in_i128}
use afs_as.Expr.Linear.Exact.{in_i32-eq}
use afs_as.Expr.Meaning.{World}
use afs_as.Expr.Classify.{
  Group, Groups, section_sum, defined_group_total, DefinedAnchorGroup, candidates_of, sum_group,
  sum_groups,
}
use afs_as.Expr.Classify.Sorting.{in_i128-eq, group_value, groups_value, InSection, InSections}

module _ (m : Bytes → ℤ) where
  -- The groups that want an anchor, with a total value of `t`: a group contributes its coefficient
  -- times the base of its section, and every candidate lies at its value in that section.
  pub data Anchored : List DefinedAnchorGroup → ℤ → Type 0 where
    nil : {t : ℤ} → t ≡ pos 0 → Anchored [] t
    cons :
        {a : DefinedAnchorGroup} {others : List DefinedAnchorGroup} {t : ℤ} (base rest : ℤ)
        → t ≡ a.coefficient *ℤ base +ℤ rest
        → All (λ (e : Bytes × ℕ). m e.0 ≡ base +ℤ pos e.1) a.candidates
        → Anchored others rest
        → Anchored (a ∷ others) t

  Anchored-append :
      {others : List DefinedAnchorGroup} {t : ℤ} (a : DefinedAnchorGroup) (base : ℤ)
      → All (λ (e : Bytes × ℕ). m e.0 ≡ base +ℤ pos e.1) a.candidates
      → Anchored others t
      → Anchored (others ++ (a ∷ [])) (t +ℤ a.coefficient *ℤ base)
  Anchored-append a base h (nil e) = cons base (pos 0) (rw e (omega int_laws)) h (nil refl)
  Anchored-append a base h (cons b r e c rest) =
      cons b (r +ℤ a.coefficient *ℤ base) (rw e (omega int_laws)) c (Anchored-append a base h rest)

  candidates_hold :
      (base : ℤ) (g : Group)
      → InSection m base g
      → All (λ (e : Bytes × ℕ). m e.0 ≡ base +ℤ pos e.1) (candidates_of g)
  unfolding candidates_of
  candidates_hold base [] h = tt
  candidates_hold base ((s, v, c) ∷ g) (p, h) = (p, candidates_hold base g h)

  -- The two sums over a group, from any start.
  group_split :
      (base : ℤ) (g : Group) (k t : ℤ) {coefficient group_total : ℤ}
      → InSection m base g
      → section_sum g k ≡ ok coefficient
      → defined_group_total g t ≡ ok group_total
      → coefficient *ℤ base +ℤ group_total ≡ k *ℤ base +ℤ t +ℤ group_value m g
  unfolding section_sum defined_group_total
  group_split base [] k t {coefficient} {group_total} h e f =
      let p : coefficient ≡ k = ground arith in
      let q : group_total ≡ t = ground arith in rw (p, q) (omega int_laws)
  group_split base ((s, v, c) ∷ g) k t (p, h) e f =
      let (x, ex, restx) = >>=-eq-ok (in_i32 (k +ℤ c)) (λ x. section_sum g x) e in
      let (y, ey, resty) =
        >>=-eq-ok (in_i128 (pos v *ℤ c)) (λ y. in_i128 (t +ℤ y) >>= λ z. defined_group_total g z)
          f in
      let (z, ez, restz) = >>=-eq-ok (in_i128 (t +ℤ y)) (λ z. defined_group_total g z) resty in
      group_split base g x z h restx restz
      ∙ rw (in_i32-eq (k +ℤ c) ex, in_i128-eq (t +ℤ y) ez, in_i128-eq (pos v *ℤ c) ey, p)
          (rw (+ℤ_distrib k c base, *ℤ_distrib base (pos v) c, *ℤ_comm (pos v) c) (omega int_laws))

  group_exact :
      (base : ℤ) (g : Group) {coefficient group_total : ℤ}
      → InSection m base g
      → section_sum g (pos 0) ≡ ok coefficient
      → defined_group_total g (pos 0) ≡ ok group_total
      → group_value m g ≡ coefficient *ℤ base +ℤ group_total
  group_exact base g h e f =
      sym (group_split base g (pos 0) (pos 0) h e f ∙ rw (zero-*ℤ base) (omega int_laws))

sum_group_exact :
    (m : Bytes → ℤ) (base total : ℤ) (g : Group) {out : ℤ × ℤ}
    → InSection m base g
    → sum_group g total ≡ ok out
    → out.0 *ℤ base +ℤ out.1 ≡ total +ℤ group_value m g
unfolding sum_group
sum_group_exact m base total g {out} h e =
    let (c, ec, rest) =
      >>=-eq-ok (section_sum g (pos 0))
        (λ c. defined_group_total g (pos 0) >>= λ t. in_i128 (total +ℤ t) >>= λ n. ok (c, n)) e in
    let (t, et, more) =
      >>=-eq-ok (defined_group_total g (pos 0)) (λ t. in_i128 (total +ℤ t) >>= λ n. ok (c, n))
        rest in
    let (n, en, last) = >>=-eq-ok (in_i128 (total +ℤ t)) (λ n. ok (c, n)) more in
    let q : out ≡ (c, n) = ground arith in
    rw (q, in_i128-eq (total +ℤ t) en, group_exact m base g h ec et) (omega int_laws)

-- The step over one section, once its sums are known.
step-Anchored :
    (w : World) (m : Bytes → ℤ) (groups : Groups) (g : Group) (base c next : ℤ)
    (anchors : List DefinedAnchorGroup) (t : ℤ) {out : ℤ × List DefinedAnchorGroup}
    → InSection m base g
    → ((others : List DefinedAnchorGroup) (v : ℤ)
        → Anchored m others v
        → sum_groups groups next others ≡ ok out
        → (u : ℤ) × Anchored m out.1 u × (out.0 +ℤ u ≡ next +ℤ v +ℤ groups_value m groups))
    → Anchored m anchors t
    → (if int_eq c (pos 0)
        then sum_groups groups next anchors
        else if int_eq c (pos 1) || int_eq c (negsuc 0)
        then sum_groups groups next
            (anchors ++ (record { coefficient = c; candidates = candidates_of g } ∷ []))
        else err (illegal (unsupported_section_coefficient c)))
      ≡ ok out
    → (u : ℤ) × Anchored m out.1 u × (out.0 +ℤ u ≡ c *ℤ base +ℤ next +ℤ t +ℤ groups_value m groups)
step-Anchored w m groups g base c next anchors t h ih a e = elim (Bool-cases (int_eq c (pos 0))) [
  | inl none_left ↦
      let z : c ≡ pos 0 = (int_eq_iff c (pos 0)).0 none_left in
      let (u, b, f) = ih anchors t a (rw none_left at e) in
      (u, b, f ∙ rw (z, zero-*ℤ base) (omega int_laws))
  | inr some_left ↦ elim (Bool-cases (int_eq c (pos 1) || int_eq c (negsuc 0))) [
    | inl one ↦
        let anchor : DefinedAnchorGroup = record {
          coefficient = c;
          candidates = candidates_of g;
        } in
        let longer = Anchored-append m anchor base (candidates_hold m base g h) a in
        let (u, b, f) =
          ih (anchors ++ (anchor ∷ [])) (t +ℤ c *ℤ base) longer (rw (some_left, one) at e) in
        (u, b, f ∙ omega int_laws)
    | inr other ↦ cc (rw (some_left, other) at e)
  ]
]

-- The rest of the round over a section, behind its sums.
abbrev after :
    Groups
    → Group
    → List DefinedAnchorGroup
    → ℤ × ℤ
    → Result ClassifyError (ℤ × List DefinedAnchorGroup)
after groups g anchors sums =
    if int_eq sums.0 (pos 0)
    then sum_groups groups sums.1 anchors
    else if int_eq sums.0 (pos 1) || int_eq sums.0 (negsuc 0)
    then sum_groups groups sums.1
        (anchors ++ (record { coefficient = sums.0; candidates = candidates_of g } ∷ []))
    else err (illegal (unsupported_section_coefficient sums.0))

pub sum_groups-Anchored :
    (w : World) (m : Bytes → ℤ) (groups : Groups) (total : ℤ) (anchors : List DefinedAnchorGroup)
    (t : ℤ) {out : ℤ × List DefinedAnchorGroup}
    → InSections w m groups
    → Anchored m anchors t
    → sum_groups groups total anchors ≡ ok out
    → (u : ℤ) × Anchored m out.1 u × (out.0 +ℤ u ≡ total +ℤ t +ℤ groups_value m groups)
unfolding sum_groups
sum_groups-Anchored w m [] total anchors t {out} h a e =
    let q : out ≡ (total, anchors) = ground arith in (t, rw q a, rw q (omega int_laws))
sum_groups-Anchored w m ((sec, g) ∷ groups) total anchors t {out} (h, hs) a e =
    let ((c, next), es, rest) = >>=-eq-ok (sum_group g total) (after groups g anchors) e in
    let (u, b, f) =
      step-Anchored w m groups g (w.base sec) c next anchors t h
        (λ others v. sum_groups-Anchored w m groups next others v hs) a rest in
    (u, b, f ∙ rw (sum_group_exact m (w.base sec) total g h es) (omega int_laws))
