-- ===== src/Expr/Classify.antt =====
-- `classify_with_lookup` of src/expr.rs: an expression as an absolute value or a relocation.
pub mod Sorting
pub mod Anchors
pub mod Selection
pub mod Sound
use afs_as.Base.{
  ℕ, Bool, true, false, not, ◌&&◌, ◌||◌, Option, none, some, List, [], ◌∷◌, ◌++◌, map, ◌==◌,
  if◌then◌else◌, Result, ok, err, panic, guard, ◌>>=◌, ◌>>◌,
}
use afs_as.Base.Bytes.{Bytes}
use afs_as.Base.Text.{text_eq}
use afs_as.Base.Int.{ℤ, pos, negsuc, ◌+ℤ◌, ◌-ℤ◌, ◌*ℤ◌, int_eq, is_i64}
use afs_as.Expr.{
  SymbolModifier, got, Expr, int, unsigned, symbol, modified_symbol, current_location, unary_minus,
  add, sub, SymbolValue, ClassifiedExpr, ClassifyError, Illegal, unsupported_section_coefficient,
  got_with_plain_symbols, not_pointer_to_got, current_location_more_than_once, not_representable,
  overflow, illegal, in_i64, in_i32, in_i128, checked_add, checked_mul,
}
use afs_as.Expr.Linear.{Term, plain, modified, here, Terms, linearize}

-- `retain(|(_, coeff)| *coeff != 0)`
unfoldable pub retain : {A : Type 0} → List (A × ℤ) → List (A × ℤ)
retain [] = []
retain ((a, c) ∷ rest) = let kept = retain rest in if int_eq c (pos 0) then kept else (a, c) ∷ kept

abbrev pub PlainTerms : Type 0
PlainTerms = List (Bytes × ℤ)

unfoldable pub push_plain_term : PlainTerms → Bytes → ℤ → Result ClassifyError PlainTerms
push_plain_term [] s delta = ok ((s, delta) ∷ [])
push_plain_term ((t, coeff) ∷ terms) s delta = elim (text_eq t s) [
  | true ↦ (do c ← in_i32 (coeff +ℤ delta); ok ((t, c) ∷ terms))
  | false ↦ (do rest ← push_plain_term terms s delta; ok ((t, coeff) ∷ rest))
]

-- A symbol of a section with its value and coefficient.
abbrev pub Group : Type 0
Group = List (Bytes × ℕ × ℤ)

-- `defined_groups` in the order of `defined_order`.
abbrev pub Groups : Type 0
Groups = List (ℕ × Group)

unfoldable pub push_group : Groups → ℕ → Bytes → ℕ → ℤ → Groups
push_group [] sec s v c = (sec, (s, v, c) ∷ []) ∷ []
push_group ((k, g) ∷ groups) sec s v c =
    let rest = push_group groups sec s v c in
    if k == sec then (k, g ++ ((s, v, c) ∷ [])) ∷ groups else (k, g) ∷ rest

-- What the loop over the terms has sorted so far.
pub record Sorted : Type 0 where
  pub constant : ℤ
  pub groups : Groups
  pub remaining : PlainTerms
  pub got_terms : PlainTerms
  pub current_location : ℤ

unfoldable pub sort_symbol : Option SymbolValue → Sorted → Bytes → ℤ → Result ClassifyError Sorted
sort_symbol (some (SymbolValue.absolute v)) st s c = do
  product ← checked_mul v c
  constant ← checked_add st.constant product
  ok (record st { constant = constant })
sort_symbol (some (SymbolValue.defined sec v)) st s c =
    ok (record st { groups = push_group st.groups sec s v c })
sort_symbol _ st s c = do
  remaining ← push_plain_term st.remaining s c
  ok (record st { remaining = remaining })

-- A symbol that the lookup does not know counts as `SymbolValue::Undefined`.
unfoldable pub sort_term :
    (Bytes → Option SymbolValue) → Sorted → Term → ℤ → Result ClassifyError Sorted
sort_term lookup st (plain s) c = sort_symbol (lookup s) st s c
sort_term lookup st (modified s got) c = do
  got_terms ← push_plain_term st.got_terms s c
  ok (record st { got_terms = got_terms })
sort_term lookup st here c = do
  n ← in_i32 (st.current_location +ℤ c)
  ok (record st { current_location = n })

unfoldable pub sort_terms :
    (Bytes → Option SymbolValue) → Sorted → Terms → Result ClassifyError Sorted
sort_terms lookup st [] = ok st
sort_terms lookup st ((t, c) ∷ terms) = do
  next ← sort_term lookup st t c
  sort_terms lookup next terms

-- `group.iter().map(|(_, _, coeff)| *coeff).sum()`
unfoldable pub section_sum : Group → ℤ → Result ClassifyError ℤ
section_sum [] total = ok total
section_sum ((s, v, c) ∷ g) total = do next ← in_i32 (total +ℤ c); section_sum g next

unfoldable pub defined_group_total : Group → ℤ → Result ClassifyError ℤ
defined_group_total [] total = ok total
defined_group_total ((s, v, c) ∷ g) total = do
  term ← in_i128 (pos v *ℤ c)
  next ← in_i128 (total +ℤ term)
  defined_group_total g next

pub record DefinedAnchorGroup : Type 0 where
  pub coefficient : ℤ
  pub candidates : List (Bytes × ℕ)

unfoldable pub candidates_of : Group → List (Bytes × ℕ)
candidates_of [] = []
candidates_of ((s, v, c) ∷ g) = (s, v) ∷ candidates_of g

-- A section's coefficient and total, and the new total of all sections.
unfoldable pub sum_group : Group → ℤ → Result ClassifyError (ℤ × ℤ)
sum_group g total = do
  coefficient ← section_sum g (pos 0)
  group_total ← defined_group_total g (pos 0)
  next ← in_i128 (total +ℤ group_total)
  ok (coefficient, next)

-- The loop over the sections: the total of the defined symbols and the groups that need an anchor.
unfoldable pub sum_groups :
    Groups → ℤ → List DefinedAnchorGroup → Result ClassifyError (ℤ × List DefinedAnchorGroup)
sum_groups [] total anchors = ok (total, anchors)
sum_groups ((sec, g) ∷ groups) total anchors = do
  (coefficient, next) ← sum_group g total
  let anchored =
      anchors ++ (record { coefficient = coefficient; candidates = candidates_of g } ∷ [])
  let plainly = sum_groups groups next anchors
  let with_anchor = sum_groups groups next anchored
  if int_eq coefficient (pos 0)
      then plainly
      else if int_eq coefficient (pos 1) || int_eq coefficient (negsuc 0)
      then with_anchor
      else err (illegal (unsupported_section_coefficient coefficient))

unfoldable pub coefficients : PlainTerms → List DefinedAnchorGroup → List ℤ
coefficients [] [] = []
coefficients [] (a ∷ anchors) = a.coefficient ∷ coefficients [] anchors
coefficients ((s, c) ∷ terms) anchors = c ∷ coefficients terms anchors

-- The `matches!` on the coefficients: `[] | [1] | [1, -1] | [-1, 1]`.
unfoldable pub supported : List ℤ → Bool
supported [] = true
supported (c ∷ []) = int_eq c (pos 1)
supported (c ∷ d ∷ []) =
    int_eq c (pos 1) && int_eq d (negsuc 0) || int_eq c (negsuc 0) && int_eq d (pos 1)
supported _ = false

unfoldable pub relocation_coefficients_are_supported : PlainTerms → List DefinedAnchorGroup → Bool
relocation_coefficients_are_supported remaining anchors = supported (coefficients remaining anchors)

-- The loop over the candidates of one anchor: the first that leaves the addend in range.
unfoldable pub select_one : ℤ → ℤ → List (Bytes × ℕ) → Result ClassifyError (ℤ × PlainTerms)
select_one constant coefficient [] = err overflow
select_one constant coefficient ((s, v) ∷ candidates) = do
  adjusted ← in_i128 (constant -ℤ coefficient *ℤ pos v)
  let rest = select_one constant coefficient candidates
  if is_i64 adjusted then ok (adjusted, (s, coefficient) ∷ []) else rest

-- The inner loop of two: `none` where no second candidate serves.
unfoldable pub select_second :
    ℤ → (Bytes × ℤ) → ℤ → List (Bytes × ℕ) → Result ClassifyError (Option (ℤ × PlainTerms))
select_second constant first coefficient [] = ok none
select_second constant first coefficient ((s, v) ∷ candidates) = do
  adjusted ← in_i128 (constant -ℤ coefficient *ℤ pos v)
  let rest = select_second constant first coefficient candidates
  if is_i64 adjusted then ok (some (adjusted, first ∷ (s, coefficient) ∷ [])) else rest

unfoldable pub select_two :
    ℤ → ℤ → List (Bytes × ℕ) → DefinedAnchorGroup → Result ClassifyError (ℤ × PlainTerms)
select_two constant coefficient [] second = err overflow
select_two constant coefficient ((s, v) ∷ candidates) second = do
  adjusted ← in_i128 (constant -ℤ coefficient *ℤ pos v)
  found ← select_second adjusted (s, coefficient) second.coefficient second.candidates
  let rest = select_two constant coefficient candidates second
  elim found [ some chosen ↦ ok chosen | none ↦ rest ]

unfoldable pub select_defined_anchors :
    ℤ → List DefinedAnchorGroup → Result ClassifyError (ℤ × PlainTerms)
select_defined_anchors constant [] = do c ← in_i64 constant; ok (c, [])
select_defined_anchors constant (g ∷ []) = select_one constant g.coefficient g.candidates
select_defined_anchors constant (g ∷ h ∷ []) = select_two constant g.coefficient g.candidates h
select_defined_anchors constant _ = panic

unfoldable pub push_plain_terms : PlainTerms → PlainTerms → Result ClassifyError PlainTerms
push_plain_terms terms [] = ok terms
push_plain_terms terms ((s, c) ∷ more) = do
  next ← push_plain_term terms s c
  push_plain_terms next more

-- The final `match` on the remaining terms.
unfoldable pub relocation_of : ℤ → PlainTerms → Result ClassifyError ClassifiedExpr
relocation_of constant [] = ok (ClassifiedExpr.absolute constant)
relocation_of constant ((s, c) ∷ []) =
    if int_eq c (pos 1)
    then ok (ClassifiedExpr.relocatable s constant)
    else err (illegal not_representable)
relocation_of constant ((s, c) ∷ (t, d) ∷ []) =
    if int_eq c (pos 1) && int_eq d (negsuc 0)
    then ok (ClassifiedExpr.difference s t constant)
    else if int_eq c (negsuc 0) && int_eq d (pos 1)
    then ok (ClassifiedExpr.difference t s constant)
    else err (illegal not_representable)
relocation_of constant _ = err (illegal not_representable)

-- The first two checks of the pointer-to-GOT branch.
unfoldable pub no_plain : PlainTerms → List DefinedAnchorGroup → Bool
no_plain [] [] = true
no_plain _ _ = false

unfoldable pub single_got : PlainTerms → Result ClassifyError Bytes
single_got ((s, c) ∷ []) = if int_eq c (pos 1) then ok s else err (illegal not_pointer_to_got)
single_got _ = err (illegal not_pointer_to_got)

unfoldable pub pointer_to_got :
    ℤ → ℤ → PlainTerms → PlainTerms → List DefinedAnchorGroup → Result ClassifyError ClassifiedExpr
pointer_to_got constant location got_terms remaining anchors = do
  guard (no_plain remaining anchors) (illegal got_with_plain_symbols)
  s ← single_got got_terms
  guard (int_eq location (pos 0) || int_eq location (negsuc 0))
      (illegal current_location_more_than_once)
  c ← in_i64 constant
  ok (ClassifiedExpr.pointer_to_got s c (int_eq location (negsuc 0)))

unfoldable pub plain_relocation :
    ℤ → PlainTerms → List DefinedAnchorGroup → Result ClassifyError ClassifiedExpr
plain_relocation constant remaining anchors = do
  guard (relocation_coefficients_are_supported remaining anchors) (illegal not_representable)
  (addend, chosen) ← select_defined_anchors constant anchors
  terms ← push_plain_terms remaining chosen
  relocation_of addend terms

unfoldable pub is_empty : {A : Type 0} → List A → Bool
is_empty [] = true
is_empty _ = false

-- The choice between the two kinds of relocation.
unfoldable pub choose : Sorted → ℤ → List DefinedAnchorGroup → Result ClassifyError ClassifiedExpr
choose st constant anchors =
    let remaining = retain st.remaining in
    let got_terms = retain st.got_terms in
    if not (is_empty got_terms) || not (int_eq st.current_location (pos 0))
    then pointer_to_got constant st.current_location got_terms remaining anchors
    else plain_relocation constant remaining anchors

-- Everything behind the loop over the terms.
unfoldable pub finish : Sorted → Result ClassifyError ClassifiedExpr
finish st = do
  (defined_total, anchors) ← sum_groups st.groups (pos 0) []
  defined_constant ← in_i128 (st.constant +ℤ defined_total)
  choose st defined_constant anchors

-- The state before the loop over the terms.
abbrev pub start : ℤ → Sorted
start constant = record {
  constant = constant;
  groups = [];
  remaining = [];
  got_terms = [];
  current_location = pos 0;
}

-- Everything behind the early return for an unsigned literal.
unfoldable pub classify_linear :
    Expr → (Bytes → Option SymbolValue) → Result ClassifyError ClassifiedExpr
classify_linear e lookup = do
  (constant, terms) ← linearize e (pos 1) (pos 0, [])
  st ← sort_terms lookup (start constant) (retain terms)
  finish st

-- `classify_with_lookup`; `classify` passes the lookup of its map.
unfoldable pub classify : Expr → (Bytes → Option SymbolValue) → Result ClassifyError ClassifiedExpr
classify (unsigned v) lookup =
    if is_i64 (pos v)
    then ok (ClassifiedExpr.absolute (pos v))
    else ok (ClassifiedExpr.unsigned_absolute v)
classify e lookup = classify_linear e lookup
