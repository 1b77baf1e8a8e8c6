-- ===== src/Expr/Eval/Exact.antt =====
-- `eval_with_symbols` computes the exact value, and fails only where a partial value leaves i64 or
-- a symbol is not absolute.
use afs_as.Base.{
  true, Option, none, some, ◌≡◌, ◌↔◌, refl, ap, ◌∙◌, inl, inr, Option-cases, ok, ◌>>=◌, >>=-eq-ok,
  arith,
}
use afs_as.Base.Text.{lookup}
use afs_as.Base.Int.{ℤ, pos, is_i64, IsI64, is_i64-IsI64, IsI64-is_i64, ◌+ℤ◌, ◌-ℤ◌, negate}
use afs_as.Expr.{
  Expr, int, unsigned, symbol, modified_symbol, current_location, unary_minus, add, sub,
  SymbolValue,
}
use afs_as.Expr.Eval.{checked, Symbols, eval_with_symbols}
use afs_as.Expr.Meaning.{World, Lookup, meaning}

abbrev as_absolute : Option ℤ → Option SymbolValue
as_absolute none = none
as_absolute (some v) = some (SymbolValue.absolute v)

-- The map as a lookup of absolute symbols.
abbrev pub absolutes : Symbols → Lookup
absolutes symbols s = as_absolute (lookup s symbols)

-- Every partial value is an i64, every symbol is in the map, and neither `@GOT` nor `.` occurs.
abbrev pub Fits : World → Symbols → Expr → Type 0
Fits w symbols (int v) = Unit {0}
Fits w symbols (unsigned v) = IsI64 (pos v)
Fits w symbols (symbol s) = (v : ℤ) × (lookup s symbols ≡ some v)
Fits w symbols (modified_symbol s m) = ⊥
Fits w symbols current_location = ⊥
Fits w symbols (unary_minus e) = Fits w symbols e × IsI64 (negate (meaning w (absolutes symbols) e))
Fits w symbols (add a b) =
    Fits w symbols a
    × (Fits w symbols b
        × IsI64 (meaning w (absolutes symbols) a +ℤ meaning w (absolutes symbols) b))
Fits w symbols (sub a b) =
    Fits w symbols a
    × (Fits w symbols b
        × IsI64 (meaning w (absolutes symbols) a -ℤ meaning w (absolutes symbols) b))

checked-eq : (a : ℤ) {v : ℤ} → checked a ≡ ok v → (v ≡ a) × IsI64 a
unfolding checked
checked-eq a h = let f : is_i64 a ≡ true = ground arith in (ground arith, is_i64-IsI64 a f)

checked_fits : (a : ℤ) → IsI64 a → checked a ≡ ok a
unfolding checked
checked_fits a h = rw (IsI64-is_i64 a h)

module _ (w : World) (symbols : Symbols) where
  abbrev value : Expr → ℤ
  value e = meaning w (absolutes symbols) e

  eval_sound :
      (e : Expr) {v : ℤ} → eval_with_symbols e symbols ≡ ok v → (v ≡ value e) × Fits w symbols e
  unfolding eval_with_symbols
  eval_sound (int x) h = (ground arith, tt)
  eval_sound (unsigned x) h = checked-eq (pos x) h
  eval_sound (symbol s) h = elim (Option-cases (lookup s symbols)) [
    | inl missing ↦ cc (rw missing at h)
    | inr (x, found) ↦ (rw found (ground (arith, rw found at h)), (x, found))
  ]
  eval_sound (modified_symbol s m) h = cc
  eval_sound current_location h = cc
  eval_sound (unary_minus e) h =
      let (x, ex, rest) = >>=-eq-ok (eval_with_symbols e symbols) (λ x. checked (negate x)) h in
      let (q, f) = eval_sound e ex in
      let (r, i) = checked-eq (negate x) rest in (r ∙ ap negate q, (f, rw q at i))
  eval_sound (add a b) h =
      let (x, ex, rest) =
        >>=-eq-ok (eval_with_symbols a symbols)
          (λ x. eval_with_symbols b symbols >>= λ y. checked (x +ℤ y)) h in
      let (y, ey, last) = >>=-eq-ok (eval_with_symbols b symbols) (λ y. checked (x +ℤ y)) rest in
      let (q, f) = eval_sound a ex in
      let (q', g) = eval_sound b ey in
      let (r, i) = checked-eq (x +ℤ y) last in (r ∙ rw (q, q'), (f, (g, rw (q, q') at i)))
  eval_sound (sub a b) h =
      let (x, ex, rest) =
        >>=-eq-ok (eval_with_symbols a symbols)
          (λ x. eval_with_symbols b symbols >>= λ y. checked (x -ℤ y)) h in
      let (y, ey, last) = >>=-eq-ok (eval_with_symbols b symbols) (λ y. checked (x -ℤ y)) rest in
      let (q, f) = eval_sound a ex in
      let (q', g) = eval_sound b ey in
      let (r, i) = checked-eq (x -ℤ y) last in (r ∙ rw (q, q'), (f, (g, rw (q, q') at i)))

  eval-Fits : (e : Expr) → Fits w symbols e → eval_with_symbols e symbols ≡ ok (value e)
  unfolding eval_with_symbols
  eval-Fits (int x) f = refl
  eval-Fits (unsigned x) f = checked_fits (pos x) f
  eval-Fits (symbol s) (x, found) = rw found
  eval-Fits (modified_symbol s m) f = absurd f
  eval-Fits current_location f = absurd f
  eval-Fits (unary_minus e) f = rw (eval-Fits e f.0) (checked_fits (negate (value e)) f.1)
  eval-Fits (add a b) f =
      rw (eval-Fits a f.0, eval-Fits b f.1.0) (checked_fits (value a +ℤ value b) f.1.1)
  eval-Fits (sub a b) f =
      rw (eval-Fits a f.0, eval-Fits b f.1.0) (checked_fits (value a -ℤ value b) f.1.1)

  -- Evaluation succeeds exactly on the expressions whose partial values fit, and its answer is then
  -- the value in unbounded integers.
  pub eval_with_symbols_exact :
      (e : Expr) (v : ℤ) → (eval_with_symbols e symbols ≡ ok v) ↔ ((v ≡ value e) × Fits w symbols e)
  eval_with_symbols_exact e v = (eval_sound e, λ p. rw p.0 (eval-Fits e p.1))
