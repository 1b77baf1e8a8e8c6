-- ===== src/Expr/Meaning.antt =====
-- What expressions and classified expressions stand for, in unbounded integers: the specification
-- that `linearize` and `classify` of src/expr.rs are held to.
use afs_as.Base.{ℕ, Bool, true, false, Option, none, some, List, [], ◌∷◌}
use afs_as.Base.Bytes.{Bytes}
use afs_as.Base.Int.{ℤ, pos, ◌+ℤ◌, ◌-ℤ◌, ◌*ℤ◌, negate}
use afs_as.Expr.{
  Expr, int, unsigned, symbol, modified_symbol, current_location, unary_minus, add, sub,
  SymbolValue, ClassifiedExpr,
}
use afs_as.Expr.Linear.{Term, plain, modified, here}

-- What linking decides: the address of each section, of each external symbol and of each GOT slot,
-- and the address of the expression itself.
pub record World : Type 0 where
  pub base : ℕ → ℤ
  pub external : Bytes → ℤ
  pub got_slot : Bytes → ℤ
  pub location : ℤ

abbrev pub Lookup : Type 0
Lookup = Bytes → Option SymbolValue

abbrev pub value_in : World → Option SymbolValue → Bytes → ℤ
value_in w (some (SymbolValue.absolute v)) s = v
value_in w (some (SymbolValue.defined sec v)) s = w.base sec +ℤ pos v
value_in w (some SymbolValue.undefined) s = w.external s
value_in w none s = w.external s

abbrev pub symbol_value : World → Lookup → Bytes → ℤ
symbol_value w lookup s = value_in w (lookup s) s

abbrev pub meaning : World → Lookup → Expr → ℤ
meaning w lookup (int v) = v
meaning w lookup (unsigned v) = pos v
meaning w lookup (symbol s) = symbol_value w lookup s
meaning w lookup (modified_symbol s m) = w.got_slot s
meaning w lookup current_location = w.location
meaning w lookup (unary_minus e) = negate (meaning w lookup e)
meaning w lookup (add a b) = meaning w lookup a +ℤ meaning w lookup b
meaning w lookup (sub a b) = meaning w lookup a -ℤ meaning w lookup b

abbrev pub pc_part : World → Bool → ℤ
pc_part w true = w.location
pc_part w false = pos 0

-- The value that the relocation which the classification asks for will have.
abbrev pub classified_meaning : World → Lookup → ClassifiedExpr → ℤ
classified_meaning w lookup (ClassifiedExpr.absolute v) = v
classified_meaning w lookup (ClassifiedExpr.unsigned_absolute v) = pos v
classified_meaning w lookup (ClassifiedExpr.relocatable s a) = symbol_value w lookup s +ℤ a
classified_meaning w lookup (ClassifiedExpr.difference s t a) =
    symbol_value w lookup s -ℤ symbol_value w lookup t +ℤ a
classified_meaning w lookup (ClassifiedExpr.pointer_to_got s a pcrel) =
    w.got_slot s +ℤ a -ℤ pc_part w pcrel

abbrev pub term_meaning : World → Lookup → Term → ℤ
term_meaning w lookup (plain s) = symbol_value w lookup s
term_meaning w lookup (modified s m) = w.got_slot s
term_meaning w lookup here = w.location

-- A list of terms with coefficients, under a meaning of the terms.
abbrev pub weighted : {A : Type 0} → (A → ℤ) → List (A × ℤ) → ℤ
weighted m [] = pos 0
weighted m ((a, c) ∷ terms) = c *ℤ m a +ℤ weighted m terms
