-- ===== src/Expr.antt =====
-- src/expr.rs: expressions of directives and operands, their evaluation and classification.
mod Tests
pub mod Eval
pub mod Linear
pub mod Classify
pub mod Meaning
pub mod Assign
use afs_as.Base.{
  ℕ, Bool, true, false, Option, none, some, List, [], ◌++◌, ◌∷◌, ltb, if◌then◌else◌, Result, ok,
  err, panic,
}
use afs_as.Base.Bytes.{Bytes}
use afs_as.Base.Int.{ℤ, pos, is_i64, is_i32, is_i128, ◌+ℤ◌, ◌-ℤ◌, ◌*ℤ◌, negate}

pub data SymbolModifier : Type 0 where
  got : SymbolModifier

-- `int` holds an i64 and `unsigned` a u64.
pub data Expr : Type 0 where
  int : ℤ → Expr
  unsigned : ℕ → Expr
  symbol : Bytes → Expr
  modified_symbol : Bytes → SymbolModifier → Expr
  current_location : Expr
  unary_minus : Expr → Expr
  add sub : Expr → Expr → Expr

pub data SymbolValue : Type 0 where
  absolute : ℤ → SymbolValue
  defined : ℕ → ℕ → SymbolValue
  undefined : SymbolValue

pub data ClassifiedExpr : Type 0 where
  absolute : ℤ → ClassifiedExpr
  unsigned_absolute : ℕ → ClassifiedExpr
  relocatable : Bytes → ℤ → ClassifiedExpr
  difference : Bytes → Bytes → ℤ → ClassifiedExpr
  pointer_to_got : Bytes → ℤ → Bool → ClassifiedExpr

-- The four texts of `ClassifyError::Illegal`.
pub data Illegal : Type 0 where
  unsupported_section_coefficient : ℤ → Illegal
  got_with_plain_symbols not_pointer_to_got current_location_more_than_once not_representable :
      Illegal

pub data ClassifyError : Type 0 where
  overflow : ClassifyError
  illegal : Illegal → ClassifyError

-- `i64::try_from`, `checked_add`, `checked_mul` and their kin: `overflow` outside the range.
unfoldable pub in_i64 : ℤ → Result ClassifyError ℤ
in_i64 a = if is_i64 a then ok a else err overflow

unfoldable pub checked_add : ℤ → ℤ → Result ClassifyError ℤ
checked_add a b = in_i64 (a +ℤ b)

unfoldable pub checked_mul : ℤ → ℤ → Result ClassifyError ℤ
checked_mul a b = in_i64 (a *ℤ b)

unfoldable pub in_i128 : ℤ → Result ClassifyError ℤ
in_i128 a = if is_i128 a then ok a else err overflow

-- An i32 sum that is not checked: an overflow is a panic, as in a build with overflow checks.
unfoldable pub in_i32 : ℤ → Result ClassifyError ℤ
in_i32 a = if is_i32 a then ok a else panic

-- `collect_symbols` and `referenced_symbols`.
unfoldable pub collect_symbols : Expr → List Bytes → List Bytes
collect_symbols (int v) out = out
collect_symbols (unsigned v) out = out
collect_symbols (symbol s) out = out ++ (s ∷ [])
collect_symbols (modified_symbol s m) out = out ++ (s ∷ [])
collect_symbols current_location out = out
collect_symbols (unary_minus e) out = collect_symbols e out
collect_symbols (add a b) out = collect_symbols b (collect_symbols a out)
collect_symbols (sub a b) out = collect_symbols b (collect_symbols a out)

unfoldable pub referenced_symbols : Expr → List Bytes
unfolding collect_symbols
referenced_symbols e = collect_symbols e []
