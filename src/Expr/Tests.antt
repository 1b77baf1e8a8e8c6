-- ===== src/Expr/Tests.antt =====
-- Runs of src/expr.rs, and its theorems at them.
use afs_as.Base.{
  zero, suc, ap, ◌∙◌, get_elem?, arith, panic, none, Option, ◌≢◌, ℕ, ◌≡◌, ◌↔◌, refl, inl, inr,
  Option, none, some, List, [], ◌∷◌, Bool, true, false, Result, ok, err,
}
use afs_as.Base.Bytes.{Bytes}
use afs_as.Base.Int.{ℤ, pos, negsuc, ◌+ℤ◌, ◌*ℤ◌}
use afs_as.Base.Text.{text, lookup}
use afs_as.Expr.{
  Expr, int, symbol, current_location, add, sub, SymbolValue, ClassifiedExpr, referenced_symbols,
}
use afs_as.Expr.Assign.{Assignments, Answer, value, failed, cyclic_definition}
use afs_as.Expr.Assign.Walk.{resolve_absolute_assignments}
use afs_as.Expr.Assign.Resolved.{Resolution, resolve_absolute_assignments_total}
use afs_as.Expr.Classify.{classify}
use afs_as.Expr.Classify.Sound.{classify_sound}
use afs_as.Expr.Eval.{Symbols, eval_with_symbols}
use afs_as.Expr.Eval.Exact.{Fits, absolutes, eval_with_symbols_exact}
use afs_as.Expr.Linear
use afs_as.Expr.Linear.{linearize}
use afs_as.Expr.Linear.Exact.{linearize-total, total}
use afs_as.Expr.Meaning.{World, Lookup, meaning, classified_meaning, term_meaning}

-- Section k stands at 4096 k, and the expression at 4128.
abbrev world : World
world = record {
  base = λ k. pos 4096 *ℤ pos k;
  external = λ s. pos 77;
  got_slot = λ s. pos 9000;
  location = pos 4128;
}

-- `a` and `b` are defined in section 1.
abbrev defined : Lookup
defined s =
    lookup s ((text "a", SymbolValue.defined 1 8) ∷ (text "b", SymbolValue.defined 1 24) ∷ [])

-- `b - a + 2`
abbrev distance : Expr
distance = add (sub (symbol (text "b")) (symbol (text "a"))) (int (pos 2))

distance-symbols : referenced_symbols distance ≡ text "b" ∷ text "a" ∷ []
unfolding referenced_symbols
distance-symbols = refl

distance-classify : classify distance defined ≡ ok (ClassifiedExpr.absolute (pos 18))
unfolding classify linearize Linear.push_term Linear.term_eq afs_as.Base.Text.text_eq Linear.signed
    afs_as.Base.Int.int_eq afs_as.Expr.checked_add afs_as.Expr.in_i64 afs_as.Base.Int.is_i64 ◌+ℤ◌
    lookup afs_as.Base.Int.is_i128 afs_as.Base.Int.is_i32 ◌*ℤ◌ afs_as.Base.Int.◌-ℤ◌
    afs_as.Expr.checked_mul afs_as.Expr.in_i128 afs_as.Expr.in_i32
    afs_as.Expr.Classify.classify_linear afs_as.Expr.Classify.sort_terms afs_as.Expr.Classify.retain
    afs_as.Expr.Classify.sort_term afs_as.Expr.Classify.sort_symbol
    afs_as.Expr.Classify.push_plain_term afs_as.Expr.Classify.candidates_of
    afs_as.Expr.Classify.choose afs_as.Expr.Classify.coefficients
    afs_as.Expr.Classify.defined_group_total afs_as.Expr.Classify.finish
    afs_as.Expr.Classify.is_empty afs_as.Expr.Classify.no_plain
    afs_as.Expr.Classify.plain_relocation afs_as.Expr.Classify.pointer_to_got
    afs_as.Expr.Classify.push_group afs_as.Expr.Classify.push_plain_terms
    afs_as.Expr.Classify.relocation_coefficients_are_supported afs_as.Expr.Classify.relocation_of
    afs_as.Expr.Classify.section_sum afs_as.Expr.Classify.select_defined_anchors
    afs_as.Expr.Classify.select_one afs_as.Expr.Classify.select_second
    afs_as.Expr.Classify.select_two afs_as.Expr.Classify.single_got afs_as.Expr.Classify.sum_group
    afs_as.Expr.Classify.sum_groups afs_as.Expr.Classify.supported
distance-classify = refl

classify_sound_example :
    classified_meaning world defined (ClassifiedExpr.absolute (pos 18))
    ≡ meaning world defined distance
classify_sound_example = classify_sound world defined distance distance-classify

-- `puts - . + 4`, against an undefined symbol.
abbrev relative : Expr
relative = add (sub (symbol (text "puts")) (symbol (text "b"))) (int (pos 4))

relative-classify :
    classify relative defined ≡ ok (ClassifiedExpr.difference (text "puts") (text "b") (pos 4))
unfolding classify linearize Linear.push_term Linear.term_eq afs_as.Base.Text.text_eq Linear.signed
    afs_as.Base.Int.int_eq afs_as.Expr.checked_add afs_as.Expr.in_i64 afs_as.Base.Int.is_i64 ◌+ℤ◌
    lookup afs_as.Base.Int.is_i128 afs_as.Base.Int.is_i32 ◌*ℤ◌ afs_as.Base.Int.◌-ℤ◌
    afs_as.Expr.checked_mul afs_as.Expr.in_i128 afs_as.Expr.in_i32
    afs_as.Expr.Classify.classify_linear afs_as.Expr.Classify.sort_terms afs_as.Expr.Classify.retain
    afs_as.Expr.Classify.sort_term afs_as.Expr.Classify.sort_symbol
    afs_as.Expr.Classify.push_plain_term afs_as.Expr.Classify.candidates_of
    afs_as.Expr.Classify.choose afs_as.Expr.Classify.coefficients
    afs_as.Expr.Classify.defined_group_total afs_as.Expr.Classify.finish
    afs_as.Expr.Classify.is_empty afs_as.Expr.Classify.no_plain
    afs_as.Expr.Classify.plain_relocation afs_as.Expr.Classify.pointer_to_got
    afs_as.Expr.Classify.push_group afs_as.Expr.Classify.push_plain_terms
    afs_as.Expr.Classify.relocation_coefficients_are_supported afs_as.Expr.Classify.relocation_of
    afs_as.Expr.Classify.section_sum afs_as.Expr.Classify.select_defined_anchors
    afs_as.Expr.Classify.select_one afs_as.Expr.Classify.select_second
    afs_as.Expr.Classify.select_two afs_as.Expr.Classify.single_got afs_as.Expr.Classify.sum_group
    afs_as.Expr.Classify.sum_groups afs_as.Expr.Classify.supported
relative-classify = refl

distance-linearize :
    linearize distance (pos 1) (pos 0, [])
    ≡ ok (pos 2, (Linear.plain (text "b"), pos 1) ∷ (Linear.plain (text "a"), negsuc 0) ∷ [])
unfolding linearize Linear.push_term Linear.term_eq afs_as.Base.Text.text_eq Linear.signed
    afs_as.Base.Int.int_eq afs_as.Expr.checked_add afs_as.Expr.in_i64 afs_as.Base.Int.is_i64 ◌+ℤ◌
    afs_as.Base.Int.◌-ℤ◌
distance-linearize = refl

linearize-total_example :
    total
      (term_meaning world defined)
      (pos 2, (Linear.plain (text "b"), pos 1) ∷ (Linear.plain (text "a"), negsuc 0) ∷ [])
    ≡ total (term_meaning world defined) (pos 0, []) +ℤ pos 1 *ℤ meaning world defined distance
linearize-total_example =
    linearize-total world defined distance (pos 1) (pos 0, []) (inl refl) distance-linearize

abbrev values : Symbols
values = (text "a", pos 8) ∷ (text "b", pos 24) ∷ []

distance-eval : eval_with_symbols distance values ≡ ok (pos 18)
unfolding eval_with_symbols lookup afs_as.Base.Text.text_eq afs_as.Expr.Eval.checked
    afs_as.Base.Int.is_i64 afs_as.Base.Int.◌-ℤ◌ ◌+ℤ◌
distance-eval = refl

eval_with_symbols_exact_example :
    (eval_with_symbols distance values ≡ ok (pos 18))
    ↔ ((pos 18 ≡ meaning world (absolutes values) distance) × Fits world values distance)
eval_with_symbols_exact_example = eval_with_symbols_exact world values distance (pos 18)

-- `.set A, B`, then `.set B, 2` and `.set B, 3`: the first assignment takes the next value of B.
abbrev renamed : Assignments
renamed = (text "A", symbol (text "B")) ∷ (text "B", int (pos 2)) ∷ (text "B", int (pos 3)) ∷ []

abbrev no_symbols : Lookup
no_symbols s = none

renamed-resolve :
    resolve_absolute_assignments renamed no_symbols
    ≡ some (value (pos 2) ∷ value (pos 2) ∷ value (pos 3) ∷ [])
unfolding classify linearize Linear.push_term Linear.term_eq afs_as.Base.Text.text_eq Linear.signed
    afs_as.Base.Int.int_eq afs_as.Expr.checked_add afs_as.Expr.in_i64 afs_as.Base.Int.is_i64 ◌+ℤ◌
    lookup afs_as.Base.Int.is_i128 afs_as.Base.Int.is_i32 ◌*ℤ◌ afs_as.Base.Int.◌-ℤ◌
    afs_as.Expr.checked_mul afs_as.Expr.in_i128 afs_as.Expr.in_i32
    afs_as.Expr.Classify.classify_linear afs_as.Expr.Classify.sort_terms afs_as.Expr.Classify.retain
    afs_as.Expr.Classify.sort_term afs_as.Expr.Classify.sort_symbol
    afs_as.Expr.Classify.push_plain_term afs_as.Expr.Classify.candidates_of
    afs_as.Expr.Classify.choose afs_as.Expr.Classify.coefficients
    afs_as.Expr.Classify.defined_group_total afs_as.Expr.Classify.finish
    afs_as.Expr.Classify.is_empty afs_as.Expr.Classify.no_plain
    afs_as.Expr.Classify.plain_relocation afs_as.Expr.Classify.pointer_to_got
    afs_as.Expr.Classify.push_group afs_as.Expr.Classify.push_plain_terms
    afs_as.Expr.Classify.relocation_coefficients_are_supported afs_as.Expr.Classify.relocation_of
    afs_as.Expr.Classify.section_sum afs_as.Expr.Classify.select_defined_anchors
    afs_as.Expr.Classify.select_one afs_as.Expr.Classify.select_second
    afs_as.Expr.Classify.select_two afs_as.Expr.Classify.single_got afs_as.Expr.Classify.sum_group
    afs_as.Expr.Classify.sum_groups afs_as.Expr.Classify.supported afs_as.Expr.Assign.positions_of
    afs_as.Expr.Assign.partition_point afs_as.Expr.Assign.target_of
    afs_as.Expr.Assign.dependency_for_symbol afs_as.Expr.Assign.contains afs_as.Expr.Assign.distinct
    afs_as.Expr.Assign.references afs_as.Expr.Assign.dependencies_from
    afs_as.Expr.Assign.dependencies afs_as.Expr.Assign.state_at afs_as.Expr.Assign.gather
    afs_as.Expr.Assign.can_resolve_with_labels afs_as.Expr.Assign.answer_of
    afs_as.Expr.Assign.is_absolute afs_as.Expr.Assign.provisional
    afs_as.Expr.Assign.evaluate_assignment afs_as.Expr.Assign.Walk.drain
    afs_as.Expr.Assign.Walk.close afs_as.Expr.Assign.Walk.visit afs_as.Expr.Assign.Walk.follow
    afs_as.Expr.Assign.Walk.round afs_as.Expr.Assign.Walk.run
    afs_as.Expr.Assign.Walk.resolve_assignment afs_as.Expr.Assign.Walk.resolve_from
    afs_as.Expr.Assign.Walk.budget afs_as.Expr.Assign.Walk.answers
    afs_as.Expr.Assign.Walk.resolve_all resolve_absolute_assignments referenced_symbols
    afs_as.Expr.collect_symbols
renamed-resolve = refl

-- `.set A, B` and `.set B, A`.
circle-resolve :
    resolve_absolute_assignments
      ((text "A", symbol (text "B")) ∷ (text "B", symbol (text "A")) ∷ [])
      no_symbols
    ≡ some (failed (cyclic_definition 0 (text "A")) ∷ failed (cyclic_definition 0 (text "A")) ∷ [])
unfolding classify linearize Linear.push_term Linear.term_eq afs_as.Base.Text.text_eq Linear.signed
    afs_as.Base.Int.int_eq afs_as.Expr.checked_add afs_as.Expr.in_i64 afs_as.Base.Int.is_i64 ◌+ℤ◌
    lookup afs_as.Base.Int.is_i128 afs_as.Base.Int.is_i32 ◌*ℤ◌ afs_as.Base.Int.◌-ℤ◌
    afs_as.Expr.checked_mul afs_as.Expr.in_i128 afs_as.Expr.in_i32
    afs_as.Expr.Classify.classify_linear afs_as.Expr.Classify.sort_terms afs_as.Expr.Classify.retain
    afs_as.Expr.Classify.sort_term afs_as.Expr.Classify.sort_symbol
    afs_as.Expr.Classify.push_plain_term afs_as.Expr.Classify.candidates_of
    afs_as.Expr.Classify.choose afs_as.Expr.Classify.coefficients
    afs_as.Expr.Classify.defined_group_total afs_as.Expr.Classify.finish
    afs_as.Expr.Classify.is_empty afs_as.Expr.Classify.no_plain
    afs_as.Expr.Classify.plain_relocation afs_as.Expr.Classify.pointer_to_got
    afs_as.Expr.Classify.push_group afs_as.Expr.Classify.push_plain_terms
    afs_as.Expr.Classify.relocation_coefficients_are_supported afs_as.Expr.Classify.relocation_of
    afs_as.Expr.Classify.section_sum afs_as.Expr.Classify.select_defined_anchors
    afs_as.Expr.Classify.select_one afs_as.Expr.Classify.select_second
    afs_as.Expr.Classify.select_two afs_as.Expr.Classify.single_got afs_as.Expr.Classify.sum_group
    afs_as.Expr.Classify.sum_groups afs_as.Expr.Classify.supported afs_as.Expr.Assign.positions_of
    afs_as.Expr.Assign.partition_point afs_as.Expr.Assign.target_of
    afs_as.Expr.Assign.dependency_for_symbol afs_as.Expr.Assign.contains afs_as.Expr.Assign.distinct
    afs_as.Expr.Assign.references afs_as.Expr.Assign.dependencies_from
    afs_as.Expr.Assign.dependencies afs_as.Expr.Assign.state_at afs_as.Expr.Assign.gather
    afs_as.Expr.Assign.can_resolve_with_labels afs_as.Expr.Assign.answer_of
    afs_as.Expr.Assign.is_absolute afs_as.Expr.Assign.provisional
    afs_as.Expr.Assign.evaluate_assignment afs_as.Expr.Assign.Walk.drain
    afs_as.Expr.Assign.Walk.close afs_as.Expr.Assign.Walk.visit afs_as.Expr.Assign.Walk.follow
    afs_as.Expr.Assign.Walk.round afs_as.Expr.Assign.Walk.run
    afs_as.Expr.Assign.Walk.resolve_assignment afs_as.Expr.Assign.Walk.resolve_from
    afs_as.Expr.Assign.Walk.budget afs_as.Expr.Assign.Walk.answers
    afs_as.Expr.Assign.Walk.resolve_all resolve_absolute_assignments referenced_symbols
    afs_as.Expr.collect_symbols
circle-resolve = refl

-- No classification of these panics, whatever the symbols stand for.
symbol-quiet :
    (s : Bytes) (lookup_in : Lookup) (o : Option SymbolValue)
    → lookup_in s ≡ o
    → classify (symbol s) lookup_in ≢ panic
unfolding classify linearize Linear.push_term Linear.term_eq afs_as.Base.Text.text_eq Linear.signed
    afs_as.Base.Int.int_eq afs_as.Expr.checked_add afs_as.Expr.in_i64 afs_as.Base.Int.is_i64 ◌+ℤ◌
    lookup afs_as.Base.Int.is_i128 afs_as.Base.Int.is_i32 ◌*ℤ◌ afs_as.Base.Int.◌-ℤ◌
    afs_as.Expr.checked_mul afs_as.Expr.in_i128 afs_as.Expr.in_i32
    afs_as.Expr.Classify.classify_linear afs_as.Expr.Classify.sort_terms afs_as.Expr.Classify.retain
    afs_as.Expr.Classify.sort_term afs_as.Expr.Classify.sort_symbol
    afs_as.Expr.Classify.push_plain_term afs_as.Expr.Classify.candidates_of
    afs_as.Expr.Classify.choose afs_as.Expr.Classify.coefficients
    afs_as.Expr.Classify.defined_group_total afs_as.Expr.Classify.finish
    afs_as.Expr.Classify.is_empty afs_as.Expr.Classify.no_plain
    afs_as.Expr.Classify.plain_relocation afs_as.Expr.Classify.pointer_to_got
    afs_as.Expr.Classify.push_group afs_as.Expr.Classify.push_plain_terms
    afs_as.Expr.Classify.relocation_coefficients_are_supported afs_as.Expr.Classify.relocation_of
    afs_as.Expr.Classify.section_sum afs_as.Expr.Classify.select_defined_anchors
    afs_as.Expr.Classify.select_one afs_as.Expr.Classify.select_second
    afs_as.Expr.Classify.select_two afs_as.Expr.Classify.single_got afs_as.Expr.Classify.sum_group
    afs_as.Expr.Classify.sum_groups afs_as.Expr.Classify.supported
symbol-quiet s lookup_in none e h = cc (rw e at h)
symbol-quiet s lookup_in (some SymbolValue.undefined) e h = cc (rw e at h)
symbol-quiet s lookup_in (some (SymbolValue.absolute v)) e h = ground (arith, rw e at h)
symbol-quiet s lookup_in (some (SymbolValue.defined k v)) e h = ground (arith, rw e at h)

integer-quiet : (v : ℕ) (lookup_in : Lookup) → classify (int (pos v)) lookup_in ≢ panic
unfolding classify linearize Linear.push_term Linear.term_eq afs_as.Base.Text.text_eq Linear.signed
    afs_as.Base.Int.int_eq afs_as.Expr.checked_add afs_as.Expr.in_i64 afs_as.Base.Int.is_i64 ◌+ℤ◌
    lookup afs_as.Base.Int.is_i128 afs_as.Base.Int.is_i32 ◌*ℤ◌ afs_as.Base.Int.◌-ℤ◌
    afs_as.Expr.checked_mul afs_as.Expr.in_i128 afs_as.Expr.in_i32
    afs_as.Expr.Classify.classify_linear afs_as.Expr.Classify.sort_terms afs_as.Expr.Classify.retain
    afs_as.Expr.Classify.sort_term afs_as.Expr.Classify.sort_symbol
    afs_as.Expr.Classify.push_plain_term afs_as.Expr.Classify.candidates_of
    afs_as.Expr.Classify.choose afs_as.Expr.Classify.coefficients
    afs_as.Expr.Classify.defined_group_total afs_as.Expr.Classify.finish
    afs_as.Expr.Classify.is_empty afs_as.Expr.Classify.no_plain
    afs_as.Expr.Classify.plain_relocation afs_as.Expr.Classify.pointer_to_got
    afs_as.Expr.Classify.push_group afs_as.Expr.Classify.push_plain_terms
    afs_as.Expr.Classify.relocation_coefficients_are_supported afs_as.Expr.Classify.relocation_of
    afs_as.Expr.Classify.section_sum afs_as.Expr.Classify.select_defined_anchors
    afs_as.Expr.Classify.select_one afs_as.Expr.Classify.select_second
    afs_as.Expr.Classify.select_two afs_as.Expr.Classify.single_got afs_as.Expr.Classify.sum_group
    afs_as.Expr.Classify.sum_groups afs_as.Expr.Classify.supported
integer-quiet v lookup_in h = ground (arith, h)

entry-quiet :
    (known entry : Bytes × Expr)
    → some known ≡ some entry
    → ((lookup_in : Lookup) → classify known.1 lookup_in ≢ panic)
    → (lookup_in : Lookup) → classify entry.1 lookup_in ≢ panic
entry-quiet known entry e quiet lookup_in h =
    let same : known ≡ entry = cc in
    quiet lookup_in (ap (λ (x : Bytes × Expr). classify x.1 lookup_in) same ∙ h)

renamed-quiet :
    (i : ℕ) (entry : Bytes × Expr)
    → get_elem? renamed i ≡ some entry
    → (lookup_in : Lookup) → classify entry.1 lookup_in ≢ panic
renamed-quiet zero entry e =
    entry-quiet (text "A", symbol (text "B")) entry e
      (λ lookup_in. symbol-quiet (text "B") lookup_in (lookup_in (text "B")) refl)
renamed-quiet (suc zero) entry e = entry-quiet (text "B", int (pos 2)) entry e (integer-quiet 2)
renamed-quiet (suc (suc zero)) entry e =
    entry-quiet (text "B", int (pos 3)) entry e (integer-quiet 3)
renamed-quiet (suc (suc (suc i))) entry e = cc

resolve_absolute_assignments_total_example : (out : List Answer) × Resolution renamed no_symbols out
resolve_absolute_assignments_total_example =
    resolve_absolute_assignments_total renamed no_symbols renamed-quiet
