-- ===== src/Expr/Linear/Exact.antt =====
-- `linearize` keeps the value of the expression.
use afs_as.Base.{
  true, List, [], ◌∷◌, ◌≡◌, ◌⊎◌, refl, ap, ◌∙◌, inl, inr, Bool-cases, ok, ◌>>=◌, >>=-eq-ok, arith,
}
use afs_as.Base.Text.{text_eq_iff}
use afs_as.Base.Int.{
  ℤ, pos, negsuc, ◌+ℤ◌, ◌-ℤ◌, ◌*ℤ◌, negate, int_eq, int_laws, +ℤ_distrib, *ℤ_distrib, one-*ℤ,
  minus_one-*ℤ, negate_swap, *ℤ_sub, is_i64,
}
use afs_as.Expr.{
  got, Expr, int, unsigned, symbol, modified_symbol, current_location, unary_minus, add, sub,
  in_i64, in_i32, checked_add, checked_mul,
}
use afs_as.Expr.Linear.{Term, plain, modified, here, term_eq, Terms, push_term, signed, linearize}
use afs_as.Expr.Meaning.{World, Lookup, meaning, term_meaning, weighted}

pub in_i64-eq : (a : ℤ) {v : ℤ} → in_i64 a ≡ ok v → (v ≡ a) × (is_i64 a ≡ true)
unfolding in_i64
in_i64-eq a h = ground arith

pub in_i32-eq : (a : ℤ) {v : ℤ} → in_i32 a ≡ ok v → v ≡ a
unfolding in_i32
in_i32-eq a h = ground arith

pub checked_add-eq : (a b : ℤ) {v : ℤ} → checked_add a b ≡ ok v → v ≡ a +ℤ b
unfolding checked_add
checked_add-eq a b h = (in_i64-eq (a +ℤ b) h).0

pub checked_mul-eq : (a b : ℤ) {v : ℤ} → checked_mul a b ≡ ok v → v ≡ a *ℤ b
unfolding checked_mul
checked_mul-eq a b h = (in_i64-eq (a *ℤ b) h).0

term_eq-eq : (t u : Term) → term_eq t u ≡ true → t ≡ u
unfolding term_eq
term_eq-eq (plain s) (plain t) h = ap plain ((text_eq_iff s t).0 h)
term_eq-eq (modified s got) (modified t got) h = ap (λ x. modified x got) ((text_eq_iff s t).0 h)
term_eq-eq here here h = refl
term_eq-eq (plain s) (modified t m) h = cc
term_eq-eq (plain s) here h = cc
term_eq-eq (modified s got) (plain t) h = cc
term_eq-eq (modified s got) here h = cc
term_eq-eq here (plain t) h = cc
term_eq-eq here (modified t m) h = cc

-- Adding to the coefficient of one term.
pub weighted_bump :
    {A : Type 0} (m : A → ℤ) (a : A) (c d : ℤ) (terms : List (A × ℤ))
    → weighted m ((a, c +ℤ d) ∷ terms) ≡ weighted m ((a, c) ∷ terms) +ℤ d *ℤ m a
weighted_bump m a c d terms = rw (+ℤ_distrib c d (m a)) (omega int_laws)

push_term-weighted :
    (m : Term → ℤ) (terms : Terms) (t : Term) (d : ℤ) {out : Terms}
    → push_term terms t d ≡ ok out
    → weighted m out ≡ weighted m terms +ℤ d *ℤ m t
unfolding push_term
push_term-weighted m [] t d {out} e =
    let q : out ≡ (t, d) ∷ [] = ground arith in rw q (omega int_laws)
push_term-weighted m ((u, c) ∷ terms) t d {out} e = elim (Bool-cases (term_eq u t)) [
  | inl same ↦
      let (x, f, g) =
        >>=-eq-ok (in_i32 (c +ℤ d)) (λ x. ok ((u, x) ∷ terms)) (rw (same, push_term) at e) in
      let q : out ≡ (u, x) ∷ terms = ground arith in
      rw (q, in_i32-eq (c +ℤ d) f, ← term_eq-eq u t same) (weighted_bump m u c d terms)
  | inr other ↦
      let (x, f, g) =
        >>=-eq-ok (push_term terms t d) (λ x. ok ((u, c) ∷ x)) (rw (other, push_term) at e) in
      let q : out ≡ (u, c) ∷ x = ground arith in
      rw (q, push_term-weighted m terms t d f) (omega int_laws)
]

-- A sign of `linearize`.
abbrev pub IsSign : ℤ → Type 0
IsSign sign = (sign ≡ pos 1) ⊎ (sign ≡ negsuc 0)

negate-IsSign : (sign : ℤ) → IsSign sign → IsSign (negate sign)
unfolding ◌-ℤ◌
negate-IsSign sign (inl e) = inr (rw e)
negate-IsSign sign (inr e) = inl (rw e)

signed_meaning : (sign v : ℤ) {s : ℤ} → IsSign sign → signed sign v ≡ ok s → s ≡ sign *ℤ v
unfolding signed int_eq
signed_meaning sign v {s} (inl e) h =
    let q : s ≡ v = ground (arith, rw e at h) in rw (e, one-*ℤ v) q
signed_meaning sign v {s} (inr e) h =
    let q : s ≡ negate v = (in_i64-eq (negate v) (rw e at h)).0 in rw (e, minus_one-*ℤ v) q

-- The value that an accumulator of `linearize` stands for.
abbrev pub total : (Term → ℤ) → ℤ × Terms → ℤ
total m acc = acc.0 +ℤ weighted m acc.1

literal_total :
    (m : Term → ℤ) (sign v c : ℤ) (terms : Terms) {out : ℤ × Terms}
    → IsSign sign
    → (signed sign v >>= λ s. checked_add c s >>= λ d. ok (d, terms)) ≡ ok out
    → total m out ≡ total m (c, terms) +ℤ sign *ℤ v
literal_total m sign v c terms {out} g e =
    let (s, es, rest) = >>=-eq-ok (signed sign v) (λ s. checked_add c s >>= λ d. ok (d, terms)) e in
    let (d, ed, last) = >>=-eq-ok (checked_add c s) (λ d. ok (d, terms)) rest in
    let q : out ≡ (d, terms) = ground arith in
    rw (q, checked_add-eq c s ed, signed_meaning sign v g es) (omega int_laws)

term_total :
    (m : Term → ℤ) (t : Term) (sign c : ℤ) (terms : Terms) {out : ℤ × Terms}
    → (push_term terms t sign >>= λ ts. ok (c, ts)) ≡ ok out
    → total m out ≡ total m (c, terms) +ℤ sign *ℤ m t
term_total m t sign c terms {out} e =
    let (ts, es, last) = >>=-eq-ok (push_term terms t sign) (λ ts. ok (c, ts)) e in
    let q : out ≡ (c, ts) = ground arith in
    rw (q, push_term-weighted m terms t sign es) (omega int_laws)

module _ (w : World) (lookup : Lookup) where
  -- A successful `linearize` adds the signed value of the expression to its accumulator, exactly.
  pub linearize-total :
      (e : Expr) (sign : ℤ) (acc : ℤ × Terms) {out : ℤ × Terms}
      → IsSign sign
      → linearize e sign acc ≡ ok out
      → total (term_meaning w lookup) out
        ≡ total (term_meaning w lookup) acc +ℤ sign *ℤ meaning w lookup e
  unfolding linearize
  linearize-total (int v) sign (c, terms) g h =
      literal_total (term_meaning w lookup) sign v c terms g h
  linearize-total (unsigned v) sign (c, terms) g h =
      let (x, ex, rest) =
        >>=-eq-ok (in_i64 (pos v))
          (λ x. signed sign x >>= λ s. checked_add c s >>= λ d. ok (d, terms)) h in
      let q : x ≡ pos v = (in_i64-eq (pos v) ex).0 in
      literal_total (term_meaning w lookup) sign (pos v) c terms g (rw q at rest)
  linearize-total (symbol s) sign (c, terms) g h =
      term_total (term_meaning w lookup) (plain s) sign c terms h
  linearize-total (modified_symbol s m) sign (c, terms) g h =
      term_total (term_meaning w lookup) (modified s m) sign c terms h
  linearize-total current_location sign (c, terms) g h =
      term_total (term_meaning w lookup) here sign c terms h
  linearize-total (unary_minus e) sign acc g h =
      linearize-total e (negate sign) acc (negate-IsSign sign g) h
      ∙ rw (negate_swap sign (meaning w lookup e))
  linearize-total (add a b) sign acc g h =
      let (mid, ea, eb) = >>=-eq-ok (linearize a sign acc) (λ mid. linearize b sign mid) h in
      linearize-total b sign mid g eb
      ∙ rw
          (
            linearize-total a sign acc g ea,
            *ℤ_distrib (meaning w lookup a) (meaning w lookup b) sign,
          )
          (omega int_laws)
  linearize-total (sub a b) sign acc g h =
      let (mid, ea, eb) =
        >>=-eq-ok (linearize a sign acc) (λ mid. linearize b (negate sign) mid) h in
      linearize-total b (negate sign) mid (negate-IsSign sign g) eb
      ∙ rw (linearize-total a sign acc g ea, *ℤ_sub sign (meaning w lookup a) (meaning w lookup b))
          (omega int_laws)
