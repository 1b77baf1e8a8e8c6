-- ===== src/Expr/Linear.antt =====
-- `linearize` of src/expr.rs: an expression as a constant and a list of terms with coefficients.
pub mod Exact
use afs_as.Base.{ℕ, Bool, true, false, ◌&&◌, List, [], ◌∷◌, if◌then◌else◌, Result, ok, ◌>>=◌}
use afs_as.Base.Bytes.{Bytes}
use afs_as.Base.Text.{text_eq}
use afs_as.Base.Int.{ℤ, pos, ◌+ℤ◌, negate, int_eq}
use afs_as.Expr.{
  SymbolModifier, got, Expr, int, unsigned, symbol, modified_symbol, current_location, unary_minus,
  add, sub, ClassifyError, in_i64, in_i32, checked_add,
}

pub data Term : Type 0 where
  plain : Bytes → Term
  modified : Bytes → SymbolModifier → Term
  here : Term

-- `existing == term`
unfoldable pub term_eq : Term → Term → Bool
term_eq (plain s) (plain t) = text_eq s t
term_eq (modified s got) (modified t got) = text_eq s t
term_eq here here = true
term_eq _ _ = false

abbrev pub Terms : Type 0
Terms = List (Term × ℤ)

unfoldable pub push_term : Terms → Term → ℤ → Result ClassifyError Terms
push_term [] t delta = ok ((t, delta) ∷ [])
push_term ((u, coeff) ∷ terms) t delta = elim (term_eq u t) [
  | true ↦ (do c ← in_i32 (coeff +ℤ delta); ok ((u, c) ∷ terms))
  | false ↦ (do rest ← push_term terms t delta; ok ((u, coeff) ∷ rest))
]

-- The value of a literal under the sign of its place.
unfoldable pub signed : ℤ → ℤ → Result ClassifyError ℤ
signed sign v = if int_eq sign (pos 1) then ok v else in_i64 (negate v)

-- The constant and the terms are threaded through, in the place of the `&mut` arguments.
unfoldable pub linearize : Expr → ℤ → ℤ × Terms → Result ClassifyError (ℤ × Terms)
linearize (int v) sign (constant, terms) = do
  s ← signed sign v
  c ← checked_add constant s
  ok (c, terms)
linearize (unsigned v) sign (constant, terms) = do
  w ← in_i64 (pos v)
  s ← signed sign w
  c ← checked_add constant s
  ok (c, terms)
linearize (symbol s) sign (constant, terms) = do
  ts ← push_term terms (plain s) sign
  ok (constant, ts)
linearize (modified_symbol s m) sign (constant, terms) = do
  ts ← push_term terms (modified s m) sign
  ok (constant, ts)
linearize current_location sign (constant, terms) = do
  ts ← push_term terms here sign
  ok (constant, ts)
linearize (unary_minus e) sign acc = linearize e (negate sign) acc
linearize (add a b) sign acc = do mid ← linearize a sign acc; linearize b sign mid
linearize (sub a b) sign acc = do mid ← linearize a sign acc; linearize b (negate sign) mid
