-- ===== src/Expr/Classify/Sorting.antt =====
-- The loops of `classify_with_lookup` keep the value of what they sort.
use afs_as.Base.{
  ℕ, Option, none, some, List, [], ◌∷◌, ◌++◌, ◌≡◌, refl, ◌∙◌, inl, inr, Bool-cases, ◌==◌, All,
  All-append, ok, ◌>>=◌, >>=-eq-ok, arith,
}
use afs_as.Base.Bytes.{Bytes}
use afs_as.Base.Text.{text_eq, text_eq_iff}
use afs_as.Base.Int.{ℤ, pos, ◌+ℤ◌, ◌*ℤ◌, int_eq, int_eq_iff, int_laws, +ℤ_distrib, zero-*ℤ, *ℤ_comm}
use afs_as.Expr.{got, SymbolValue, in_i32, in_i128, checked_add, checked_mul}
use afs_as.Expr.Linear.{Term, plain, modified, here, Terms}
use afs_as.Expr.Linear.Exact.{in_i32-eq, checked_add-eq, checked_mul-eq, weighted_bump}
use afs_as.Expr.Meaning.{World, Lookup, symbol_value, term_meaning, weighted}
use afs_as.Expr.Classify.{
  retain, PlainTerms, push_plain_term, push_plain_terms, Group, Groups, push_group, Sorted,
  sort_symbol, sort_term, sort_terms,
}

pub in_i128-eq : (a : ℤ) {v : ℤ} → in_i128 a ≡ ok v → v ≡ a
unfolding in_i128
in_i128-eq a h = ground arith

pub weighted-retain :
    {A : Type 0} (m : A → ℤ) (terms : List (A × ℤ)) → weighted m (retain terms) ≡ weighted m terms
unfolding retain
weighted-retain m [] = refl
weighted-retain m ((a, c) ∷ terms) = elim (Bool-cases (int_eq c (pos 0))) [
  | inl zeroed ↦
      let z : c ≡ pos 0 = (int_eq_iff c (pos 0)).0 zeroed in
      rw zeroed (rw (weighted-retain m terms, z, zero-*ℤ (m a)) (omega int_laws))
  | inr kept ↦ rw kept (rw (weighted-retain m terms))
]

pub push_plain_term-weighted :
    (m : Bytes → ℤ) (terms : PlainTerms) (s : Bytes) (d : ℤ) {out : PlainTerms}
    → push_plain_term terms s d ≡ ok out
    → weighted m out ≡ weighted m terms +ℤ d *ℤ m s
unfolding push_plain_term
push_plain_term-weighted m [] s d {out} e =
    let q : out ≡ (s, d) ∷ [] = ground arith in rw q (omega int_laws)
push_plain_term-weighted m ((t, c) ∷ terms) s d {out} e = elim (Bool-cases (text_eq t s)) [
  | inl same ↦
      let (x, f, g) =
        >>=-eq-ok (in_i32 (c +ℤ d)) (λ x. ok ((t, x) ∷ terms)) (rw (same, push_plain_term) at e) in
      let q : out ≡ (t, x) ∷ terms = ground arith in
      rw (q, in_i32-eq (c +ℤ d) f, ← (text_eq_iff t s).0 same) (weighted_bump m t c d terms)
  | inr other ↦
      let (x, f, g) =
        >>=-eq-ok (push_plain_term terms s d) (λ x. ok ((t, c) ∷ x))
          (rw (other, push_plain_term) at e) in
      let q : out ≡ (t, c) ∷ x = ground arith in
      rw (q, push_plain_term-weighted m terms s d f) (omega int_laws)
]

pub push_plain_terms-weighted :
    (m : Bytes → ℤ) (terms more : PlainTerms) {out : PlainTerms}
    → push_plain_terms terms more ≡ ok out
    → weighted m out ≡ weighted m terms +ℤ weighted m more
unfolding push_plain_terms
push_plain_terms-weighted m terms [] {out} e =
    let q : out ≡ terms = ground arith in rw q (omega int_laws)
push_plain_terms-weighted m terms ((s, c) ∷ more) e =
    let (next, f, g) =
      >>=-eq-ok (push_plain_term terms s c) (λ next. push_plain_terms next more) e in
    push_plain_terms-weighted m next more g
    ∙ rw (push_plain_term-weighted m terms s c f) (omega int_laws)

abbrev pub group_value : (Bytes → ℤ) → Group → ℤ
group_value m [] = pos 0
group_value m ((s, v, c) ∷ g) = c *ℤ m s +ℤ group_value m g

abbrev pub groups_value : (Bytes → ℤ) → Groups → ℤ
groups_value m [] = pos 0
groups_value m ((sec, g) ∷ groups) = group_value m g +ℤ groups_value m groups

-- Every symbol of a group lies at its value in the section of the group.
abbrev pub InSection : (Bytes → ℤ) → ℤ → Group → Type 0
InSection m base g = All (λ (e : Bytes × ℕ × ℤ). m e.0 ≡ base +ℤ pos e.1) g

abbrev pub InSections : World → (Bytes → ℤ) → Groups → Type 0
InSections w m groups = All (λ (e : ℕ × Group). InSection m (w.base e.0) e.1) groups

group_value-append :
    (m : Bytes → ℤ) (g : Group) (s : Bytes) (v : ℕ) (c : ℤ)
    → group_value m (g ++ ((s, v, c) ∷ [])) ≡ group_value m g +ℤ c *ℤ m s
group_value-append m [] s v c = omega int_laws
group_value-append m ((t, u, d) ∷ g) s v c = rw (group_value-append m g s v c) (omega int_laws)

push_group_value :
    (m : Bytes → ℤ) (groups : Groups) (sec : ℕ) (s : Bytes) (v : ℕ) (c : ℤ)
    → groups_value m (push_group groups sec s v c) ≡ groups_value m groups +ℤ c *ℤ m s
unfolding push_group
push_group_value m [] sec s v c = omega int_laws
push_group_value m ((k, g) ∷ groups) sec s v c = elim (Bool-cases (k == sec)) [
  | inl same ↦ rw same (rw (group_value-append m g s v c) (omega int_laws))
  | inr other ↦ rw other (rw (push_group_value m groups sec s v c) (omega int_laws))
]

push_group-InSections :
    (w : World) (m : Bytes → ℤ) (groups : Groups) (sec : ℕ) (s : Bytes) (v : ℕ) (c : ℤ)
    → m s ≡ w.base sec +ℤ pos v
    → InSections w m groups
    → InSections w m (push_group groups sec s v c)
unfolding push_group
push_group-InSections w m [] sec s v c e h = ((e, tt), tt)
push_group-InSections w m ((k, g) ∷ groups) sec s v c e (h, hs) = elim (Bool-cases (k == sec)) [
  | inl same ↦
      let q : k ≡ sec = ground arith in
      rw same (
        All-append (λ (x : Bytes × ℕ × ℤ). m x.0 ≡ w.base k +ℤ pos x.1) g ((s, v, c) ∷ []) h
            (rw q e, tt),
        hs,
      )
  | inr other ↦ rw other (h, push_group-InSections w m groups sec s v c e hs)
]

module _ (w : World) (lookup : Lookup) where
  abbrev pub sorted_value : Sorted → ℤ
  sorted_value st =
      st.constant
      +ℤ groups_value (symbol_value w lookup) st.groups
      +ℤ weighted (symbol_value w lookup) st.remaining
      +ℤ weighted w.got_slot st.got_terms
      +ℤ st.current_location *ℤ w.location

  abbrev pub Keeps : Sorted → ℤ → Sorted → Type 0
  Keeps st added out =
      (sorted_value out ≡ sorted_value st +ℤ added)
      × InSections w (symbol_value w lookup) out.groups

  sort_symbol-Keeps :
      (found : Option SymbolValue) (st : Sorted) (s : Bytes) (c : ℤ) {out : Sorted}
      → lookup s ≡ found
      → InSections w (symbol_value w lookup) st.groups
      → sort_symbol found st s c ≡ ok out
      → Keeps st (c *ℤ symbol_value w lookup s) out
  unfolding sort_symbol
  sort_symbol-Keeps (some (SymbolValue.absolute v)) st s c {out} l h e =
      let (p, ep, rest) =
        >>=-eq-ok (checked_mul v c)
          (λ p. checked_add st.constant p >>= λ k. ok (record st { constant = k })) e in
      let (k, ek, last) =
        >>=-eq-ok (checked_add st.constant p) (λ k. ok (record st { constant = k })) rest in
      let q : out ≡ record st { constant = k } = ground arith in
      let pv : p ≡ c *ℤ v = checked_mul-eq v c ep ∙ *ℤ_comm v c in
      rw q (rw (l, checked_add-eq st.constant p ek, pv) (omega int_laws), h)
  sort_symbol-Keeps (some (SymbolValue.defined sec v)) st s c {out} l h e =
      let q : out ≡ record st { groups = push_group st.groups sec s v c } = ground arith in
      let at : symbol_value w lookup s ≡ w.base sec +ℤ pos v = rw l in
      rw q (
        rw (push_group_value (symbol_value w lookup) st.groups sec s v c) (omega int_laws),
        push_group-InSections w (symbol_value w lookup) st.groups sec s v c at h,
      )
  sort_symbol-Keeps (some SymbolValue.undefined) st s c {out} l h e =
      let (r, er, last) =
        >>=-eq-ok (push_plain_term st.remaining s c) (λ r. ok (record st { remaining = r })) e in
      let q : out ≡ record st { remaining = r } = ground arith in
      rw q (
        rw (push_plain_term-weighted (symbol_value w lookup) st.remaining s c er) (omega int_laws),
        h,
      )
  sort_symbol-Keeps none st s c {out} l h e =
      let (r, er, last) =
        >>=-eq-ok (push_plain_term st.remaining s c) (λ r. ok (record st { remaining = r })) e in
      let q : out ≡ record st { remaining = r } = ground arith in
      rw q (
        rw (push_plain_term-weighted (symbol_value w lookup) st.remaining s c er) (omega int_laws),
        h,
      )

  sort_term-Keeps :
      (t : Term) (st : Sorted) (c : ℤ) {out : Sorted}
      → InSections w (symbol_value w lookup) st.groups
      → sort_term lookup st t c ≡ ok out
      → Keeps st (c *ℤ term_meaning w lookup t) out
  unfolding sort_term
  sort_term-Keeps (plain s) st c h e = sort_symbol-Keeps (lookup s) st s c refl h e
  sort_term-Keeps (modified s got) st c {out} h e =
      let (r, er, last) =
        >>=-eq-ok (push_plain_term st.got_terms s c) (λ r. ok (record st { got_terms = r })) e in
      let q : out ≡ record st { got_terms = r } = ground arith in
      rw q (rw (push_plain_term-weighted w.got_slot st.got_terms s c er) (omega int_laws), h)
  sort_term-Keeps here st c {out} h e =
      let (r, er, last) =
        >>=-eq-ok (in_i32 (st.current_location +ℤ c)) (λ r. ok (record st { current_location = r }))
          e in
      let q : out ≡ record st { current_location = r } = ground arith in
      rw q (
        rw (in_i32-eq (st.current_location +ℤ c) er, +ℤ_distrib st.current_location c w.location)
            (omega int_laws),
        h,
      )

  pub sort_terms-Keeps :
      (terms : Terms) (st : Sorted) {out : Sorted}
      → InSections w (symbol_value w lookup) st.groups
      → sort_terms lookup st terms ≡ ok out
      → Keeps st (weighted (term_meaning w lookup) terms) out
  unfolding sort_terms
  sort_terms-Keeps [] st {out} h e = let q : out ≡ st = ground arith in rw q (omega int_laws, h)
  sort_terms-Keeps ((t, c) ∷ terms) st h e =
      let (next, f, g) =
        >>=-eq-ok (sort_term lookup st t c) (λ next. sort_terms lookup next terms) e in
      let first = sort_term-Keeps t st c h f in
      let later = sort_terms-Keeps terms next first.1 g in
      (later.0 ∙ rw first.0 (omega int_laws), later.1)
