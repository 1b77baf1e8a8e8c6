-- ===== src/Expr/Eval.antt =====
-- `eval_with_symbols` of src/expr.rs: the value of an expression over absolute symbols.
pub mod Exact
use afs_as.Base.{
  ℕ, Bool, Option, none, some, List, [], ◌++◌, if◌then◌else◌, Result, ok, err, ok_or, ◌>>=◌,
}
use afs_as.Base.Bytes.{Bytes}
use afs_as.Base.Text.{text, lookup}
use afs_as.Base.Int.{ℤ, pos, is_i64, ◌+ℤ◌, ◌-ℤ◌, negate}
use afs_as.Expr.{
  Expr, int, unsigned, symbol, modified_symbol, current_location, unary_minus, add, sub,
}

pub data EvalError : Type 0 where
  undefined_symbol : Bytes → EvalError
  overflow : EvalError

-- A checked operation on i64.
unfoldable pub checked : ℤ → Result EvalError ℤ
checked a = if is_i64 a then ok a else err overflow

abbrev pub Symbols : Type 0
Symbols = List (Bytes × ℤ)

unfoldable pub eval_with_symbols : Expr → Symbols → Result EvalError ℤ
eval_with_symbols (int v) symbols = ok v
eval_with_symbols (unsigned v) symbols = checked (pos v)
eval_with_symbols (symbol s) symbols = ok_or (lookup s symbols) (undefined_symbol s)
eval_with_symbols (modified_symbol s m) symbols = err (undefined_symbol (s ++ text "@GOT"))
eval_with_symbols current_location symbols = err (undefined_symbol (text "."))
eval_with_symbols (unary_minus e) symbols = do v ← eval_with_symbols e symbols; checked (negate v)
eval_with_symbols (add a b) symbols = do
  v ← eval_with_symbols a symbols
  w ← eval_with_symbols b symbols
  checked (v +ℤ w)
eval_with_symbols (sub a b) symbols = do
  v ← eval_with_symbols a symbols
  w ← eval_with_symbols b symbols
  checked (v -ℤ w)

unfoldable pub eval_pure : Expr → Result EvalError ℤ
eval_pure e = eval_with_symbols e []
