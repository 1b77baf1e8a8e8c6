-- ===== src/Expr/Classify/Sound.antt =====
-- `classify` answers with a relocation whose value is the value of the expression.
use afs_as.Base.{
  Bool, true, false, not, ◌&&◌, ◌||◌, List, [], ◌∷◌, ◌≡◌, refl, sym, ◌∙◌, inl, inr, Bool-cases, ok,
  guard, ◌>>=◌, >>=-eq-ok, guard_exact, arith,
}
use afs_as.Base.Bytes.{Bytes}
use afs_as.Base.Int.{
  ℤ, pos, negsuc, ◌+ℤ◌, ◌-ℤ◌, ◌*ℤ◌, int_eq, int_eq_iff, int_laws, parts_of, one-*ℤ, zero-*ℤ,
  minus_one-*ℤ, is_i64,
}
use afs_as.Expr.{
  Expr, unsigned, ClassifiedExpr, in_i64, in_i128, illegal, current_location_more_than_once,
  not_representable,
}
use afs_as.Expr.Linear.{linearize}
use afs_as.Expr.Linear.Exact.{in_i64-eq, linearize-total}
use afs_as.Expr.Meaning.{
  World, Lookup, symbol_value, term_meaning, weighted, meaning, pc_part, classified_meaning,
}
use afs_as.Expr.Classify.{
  retain, PlainTerms, push_plain_terms, Sorted, sort_terms, DefinedAnchorGroup, sum_groups,
  select_defined_anchors, relocation_of, no_plain, single_got, pointer_to_got, plain_relocation,
  is_empty, choose, finish, start, classify_linear, classify, relocation_coefficients_are_supported,
}
use afs_as.Expr.Classify.Sorting.{
  in_i128-eq, weighted-retain, push_plain_terms-weighted, InSections, sorted_value,
  sort_terms-Keeps,
}
use afs_as.Expr.Classify.Anchors.{Anchored, nil, sum_groups-Anchored}
use afs_as.Expr.Classify.Selection.{select_defined_anchors_value}

and_true : (a b : Bool) → (a && b) ≡ true → (a ≡ true) × (b ≡ true)
and_true a b h = ground arith

or_false : (a b : Bool) → (not a || not b) ≡ false → (a ≡ true) × (b ≡ true)
or_false a b h = ground arith

weighted_empty :
    (f : Bytes → ℤ) (terms : PlainTerms) → is_empty terms ≡ true → weighted f terms ≡ pos 0
unfolding is_empty
weighted_empty f [] h = refl
weighted_empty f (x ∷ terms) h = cc

module _ (w : World) (lookup : Lookup) where
  abbrev m : Bytes → ℤ
  m s = symbol_value w lookup s

  relocation_of_value :
      (constant : ℤ) (terms : PlainTerms) {out : ClassifiedExpr}
      → relocation_of constant terms ≡ ok out
      → classified_meaning w lookup out ≡ constant +ℤ weighted m terms
  unfolding relocation_of
  relocation_of_value constant [] {out} e =
      let q : out ≡ ClassifiedExpr.absolute constant = ground arith in rw q (omega int_laws)
  relocation_of_value constant ((s, c) ∷ []) {out} e = elim (Bool-cases (int_eq c (pos 1))) [
    | inl one ↦
        let k : c ≡ pos 1 = (int_eq_iff c (pos 1)).0 one in
        let q : out ≡ ClassifiedExpr.relocatable s constant = ground (arith, rw one at e) in
        rw (q, k, one-*ℤ (m s)) (omega int_laws)
    | inr other ↦ cc (rw other at e)
  ]
  relocation_of_value constant ((s, c) ∷ (t, d) ∷ []) {out} e =
      elim (Bool-cases (int_eq c (pos 1) && int_eq d (negsuc 0))) [
        | inl up ↦
            let (c1, d1) = and_true (int_eq c (pos 1)) (int_eq d (negsuc 0)) up in
            let q : out ≡ ClassifiedExpr.difference s t constant = ground (arith, rw up at e) in
            rw
              (
                q,
                (int_eq_iff c (pos 1)).0 c1,
                (int_eq_iff d (negsuc 0)).0 d1,
                one-*ℤ (m s),
                minus_one-*ℤ (m t),
              )
              (omega int_laws)
        | inr not_up ↦ elim (Bool-cases (int_eq c (negsuc 0) && int_eq d (pos 1))) [
          | inl down ↦
              let (c1, d1) = and_true (int_eq c (negsuc 0)) (int_eq d (pos 1)) down in
              let q : out ≡ ClassifiedExpr.difference t s constant =
                ground (arith, rw (not_up, down) at e) in
              rw
                (
                  q,
                  (int_eq_iff c (negsuc 0)).0 c1,
                  (int_eq_iff d (pos 1)).0 d1,
                  minus_one-*ℤ (m s),
                  one-*ℤ (m t),
                )
                (omega int_laws)
          | inr neither ↦ cc (rw (not_up, neither) at e)
        ]
      ]
  relocation_of_value constant ((s, c) ∷ (t, d) ∷ (u, f) ∷ terms) e = cc

  plain_relocation_value :
      (constant : ℤ) (remaining : PlainTerms) (anchors : List DefinedAnchorGroup) (t : ℤ)
      {out : ClassifiedExpr}
      → Anchored m anchors t
      → plain_relocation constant remaining anchors ≡ ok out
      → classified_meaning w lookup out ≡ constant +ℤ t +ℤ weighted m remaining
  unfolding plain_relocation
  plain_relocation_value constant remaining anchors t a e =
      let (u, eu, rest) =
        >>=-eq-ok
          (guard (relocation_coefficients_are_supported remaining anchors)
            (illegal not_representable))
          (λ _. select_defined_anchors constant anchors >>= λ p.
            push_plain_terms remaining p.1 >>= λ ts. relocation_of p.0 ts)
          e in
      let ((addend, chosen), es, more) =
        >>=-eq-ok (select_defined_anchors constant anchors)
          (λ p. push_plain_terms remaining p.1 >>= λ ts. relocation_of p.0 ts) rest in
      let (terms, et, last) =
        >>=-eq-ok (push_plain_terms remaining chosen) (λ ts. relocation_of addend ts) more in
      relocation_of_value addend terms last
      ∙ rw (push_plain_terms-weighted m remaining chosen et)
          (omega (int_laws, parts_of (select_defined_anchors_value m constant a es)))

  location_value :
      (location slot constant : ℤ)
      → (int_eq location (pos 0) || int_eq location (negsuc 0)) ≡ true
      → slot +ℤ constant -ℤ pc_part w (int_eq location (negsuc 0))
        ≡ constant +ℤ pos 0 +ℤ pos 0 +ℤ (slot +ℤ pos 0) +ℤ location *ℤ w.location
  location_value location slot constant e = elim (Bool-cases (int_eq location (negsuc 0))) [
    | inl minus ↦
        rw minus
          (rw ((int_eq_iff location (negsuc 0)).0 minus, minus_one-*ℤ w.location) (omega int_laws))
    | inr other ↦
        let zeroed : int_eq location (pos 0) ≡ true = ground arith in
        rw other (rw ((int_eq_iff location (pos 0)).0 zeroed, zero-*ℤ w.location) (omega int_laws))
  ]

  pointer_to_got_value :
      (constant location : ℤ) (got_terms remaining : PlainTerms) (anchors : List DefinedAnchorGroup)
      (t : ℤ) {out : ClassifiedExpr}
      → Anchored m anchors t
      → pointer_to_got constant location got_terms remaining anchors ≡ ok out
      → classified_meaning w lookup out
        ≡ constant
          +ℤ t
          +ℤ weighted m remaining
          +ℤ weighted w.got_slot got_terms
          +ℤ location *ℤ w.location
  unfolding pointer_to_got no_plain single_got
  pointer_to_got_value constant location [] [] [] t a e = cc
  pointer_to_got_value constant location ((s, c) ∷ (u, d) ∷ ts) [] [] t a e = cc
  pointer_to_got_value constant location ((s, c) ∷ []) [] [] t {out} (nil z) e =
      elim (Bool-cases (int_eq c (pos 1))) [
        | inl one ↦
            let (x, ex, rest) =
              >>=-eq-ok
                (guard (int_eq location (pos 0) || int_eq location (negsuc 0))
                  (illegal current_location_more_than_once))
                (λ _. in_i64 constant >>= λ k.
                  ok (ClassifiedExpr.pointer_to_got s k (int_eq location (negsuc 0))))
                (rw one at e) in
            let (k, ek, last) =
              >>=-eq-ok (in_i64 constant)
                (λ k. ok (ClassifiedExpr.pointer_to_got s k (int_eq location (negsuc 0)))) rest in
            let q : out ≡ ClassifiedExpr.pointer_to_got s k (int_eq location (negsuc 0)) =
              ground arith in
            rw
              (q, (int_eq_iff c (pos 1)).0 one, one-*ℤ (w.got_slot s), (in_i64-eq constant ek).0, z)
              (location_value location (w.got_slot s) constant
                ((guard_exact _ (illegal current_location_more_than_once)).0 ex))
        | inr other ↦ cc (rw other at e)
      ]
  pointer_to_got_value constant location got_terms (r ∷ rs) anchors t a e = cc
  pointer_to_got_value constant location got_terms [] (r ∷ rs) t a e = cc

  choose_value :
      (st : Sorted) (constant : ℤ) (anchors : List DefinedAnchorGroup) (t : ℤ)
      {out : ClassifiedExpr}
      → Anchored m anchors t
      → choose st constant anchors ≡ ok out
      → classified_meaning w lookup out
        ≡ constant
          +ℤ t
          +ℤ weighted m st.remaining
          +ℤ weighted w.got_slot st.got_terms
          +ℤ st.current_location *ℤ w.location
  unfolding choose
  choose_value st constant anchors t a e =
      elim (Bool-cases
        (not (is_empty (retain st.got_terms)) || not (int_eq st.current_location (pos 0)))) [
          | inl got ↦
              pointer_to_got_value constant st.current_location (retain st.got_terms)
                (retain st.remaining) anchors t a (rw got at e)
              ∙ rw (weighted-retain m st.remaining, weighted-retain w.got_slot st.got_terms)
          | inr neither ↦
              let (no_got, at_zero) =
                or_false (is_empty (retain st.got_terms)) (int_eq st.current_location (pos 0))
                  neither in
              plain_relocation_value constant (retain st.remaining) anchors t a (rw neither at e)
              ∙ rw
                  (
                    weighted-retain m st.remaining,
                    (int_eq_iff st.current_location (pos 0)).0 at_zero,
                    zero-*ℤ w.location,
                  )
                  (omega (int_laws, parts_of (no_got_value no_got)))
        ]
    where
      no_got_value :
          is_empty (retain st.got_terms) ≡ true → weighted w.got_slot st.got_terms ≡ pos 0
      no_got_value h =
          sym (weighted-retain w.got_slot st.got_terms)
          ∙ weighted_empty w.got_slot (retain st.got_terms) h

  finish_value :
      (st : Sorted) {out : ClassifiedExpr}
      → InSections w m st.groups
      → finish st ≡ ok out
      → classified_meaning w lookup out ≡ sorted_value w lookup st
  unfolding finish
  finish_value st h e =
      let ((total, anchors), es, rest) =
        >>=-eq-ok (sum_groups st.groups (pos 0) [])
          (λ p. in_i128 (st.constant +ℤ p.0) >>= λ k. choose st k p.1) e in
      let (k, ek, last) =
        >>=-eq-ok (in_i128 (st.constant +ℤ total)) (λ k. choose st k anchors) rest in
      let (t, a, f) = sum_groups-Anchored w m st.groups (pos 0) [] (pos 0) h (nil refl) es in
      choose_value st k anchors t a last
      ∙ rw (in_i128-eq (st.constant +ℤ total) ek) (omega (int_laws, parts_of f))

  classify_linear_value :
      (e : Expr) {out : ClassifiedExpr}
      → classify_linear e lookup ≡ ok out
      → classified_meaning w lookup out ≡ meaning w lookup e
  unfolding classify_linear
  classify_linear_value e h =
      let ((constant, terms), el, rest) =
        >>=-eq-ok (linearize e (pos 1) (pos 0, []))
          (λ p. sort_terms lookup (start p.0) (retain p.1) >>= finish) h in
      let (st, es, last) =
        >>=-eq-ok (sort_terms lookup (start constant) (retain terms)) finish rest in
      let sorted = sort_terms-Keeps w lookup (retain terms) (start constant) tt es in
      let linear = linearize-total w lookup e (pos 1) (pos 0, []) (inl refl) el in
      finish_value st sorted.1 last
      ∙ sorted.0
      ∙ rw (weighted-retain (term_meaning w lookup) terms, zero-*ℤ w.location)
          (omega (int_laws, parts_of linear, parts_of (one-*ℤ (meaning w lookup e))))

  -- Whatever the addresses turn out to be, the relocation or constant that `classify` answers with
  -- has the value of the expression.
  pub classify_sound :
      (e : Expr) {out : ClassifiedExpr}
      → classify e lookup ≡ ok out
      → classified_meaning w lookup out ≡ meaning w lookup e
  unfolding classify
  classify_sound (unsigned v) {out} h = elim (Bool-cases (is_i64 (pos v))) [
    | inl small ↦
        let q : out ≡ ClassifiedExpr.absolute (pos v) = ground (arith, rw small at h) in rw q
    | inr large ↦
        let q : out ≡ ClassifiedExpr.unsigned_absolute v = ground (arith, rw large at h) in rw q
  ]
  classify_sound e h = classify_linear_value e h
