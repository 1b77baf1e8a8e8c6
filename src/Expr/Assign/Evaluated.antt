-- ===== src/Expr/Assign/Evaluated.antt =====
-- When `evaluate_assignment` of src/expr.rs has an answer: with every reference usable, or at the first
-- one to an assignment that failed.
use afs_as.Base.{
  Bool, if◌then◌else◌, ℕ, ◌≡◌, ◌≢◌, refl, Option, none, some, List, [], ◌∷◌, get_elem?, Result, ok,
  err, panic,
}
use afs_as.Base.Bytes.{Bytes}
use afs_as.Expr.{Expr, SymbolValue, ClassifiedExpr, ClassifyError}
use afs_as.Base.Text.{lookup}
use afs_as.Expr.Classify.{classify}
use afs_as.Expr.Assign.{
  AbsoluteAssignmentError, Answer, failed, assignment, Reference, ResolutionState, resolved,
  state_at, evaluate_assignment, answer_of, provisional, is_absolute, can_resolve_with_labels,
  defined_as,
}
use afs_as.Expr.Assign.States.{Passed, gather_all, gather_stop}

is_absolute-some :
    (r : Result ClassifyError ClassifiedExpr)
    → r ≢ panic
    → (found : Bool) × (is_absolute r ≡ some found)
unfolding is_absolute
is_absolute-some (ok (ClassifiedExpr.absolute v)) n = (_, refl)
is_absolute-some (ok (ClassifiedExpr.unsigned_absolute v)) n = (_, refl)
is_absolute-some (ok (ClassifiedExpr.relocatable a b)) n = (_, refl)
is_absolute-some (ok (ClassifiedExpr.difference a b c)) n = (_, refl)
is_absolute-some (ok (ClassifiedExpr.pointer_to_got a b c)) n = (_, refl)
is_absolute-some (err e) n = (_, refl)
is_absolute-some panic n = absurd (n refl)

-- The guard has an answer where `classify` does not panic.
provisional-some :
    (e : Expr) (symbols : List (Bytes × SymbolValue)) (unresolved : List Bytes)
    → ((lookup : Bytes → Option SymbolValue) → classify e lookup ≢ panic)
    → (first : Option Bytes) × (provisional e symbols unresolved ≡ some first)
unfolding provisional can_resolve_with_labels
provisional-some e symbols [] quiet = (none, refl)
provisional-some e symbols (s ∷ ss) quiet =
    let known = λ (name : Bytes). lookup name (defined_as (s ∷ ss) symbols) in
    let (found, q) = is_absolute-some (classify e known) (quiet known) in
    (if found then some s else none, rw (q, provisional) refl)

-- An answer exists where `classify` does not panic.
answer_of-some :
    (i : ℕ) (name : Bytes) (first : Option Bytes) (r : Result ClassifyError ClassifiedExpr)
    → r ≢ panic
    → (answer : Answer) × (answer_of i name (some first) r ≡ some answer)
unfolding answer_of
answer_of-some i name first (ok (ClassifiedExpr.absolute v)) n = (_, refl)
answer_of-some i name first (ok (ClassifiedExpr.unsigned_absolute v)) n = (_, refl)
answer_of-some i name (some s) (ok (ClassifiedExpr.relocatable a b)) n = (_, refl)
answer_of-some i name (some s) (ok (ClassifiedExpr.difference a b c)) n = (_, refl)
answer_of-some i name (some s) (ok (ClassifiedExpr.pointer_to_got a b c)) n = (_, refl)
answer_of-some i name none (ok (ClassifiedExpr.relocatable a b)) n = (_, refl)
answer_of-some i name none (ok (ClassifiedExpr.difference a b c)) n = (_, refl)
answer_of-some i name none (ok (ClassifiedExpr.pointer_to_got a b c)) n = (_, refl)
answer_of-some i name first (err ClassifyError.overflow) n = (_, refl)
answer_of-some i name (some s) (err (ClassifyError.illegal e)) n = (_, refl)
answer_of-some i name none (err (ClassifyError.illegal e)) n = (_, refl)
answer_of-some i name first panic n = absurd (n refl)

-- With every reference usable, the evaluation answers.
pub evaluate_all :
    (states : List ResolutionState) (k : ℕ) (refs : List Reference) (i : ℕ) (a : Bytes × Expr)
    → get_elem? refs k ≡ none
    → Passed states k refs
    → ((lookup : Bytes → Option SymbolValue) → classify a.1 lookup ≢ panic)
    → (answer : Answer) × (evaluate_assignment states refs i a ≡ some answer)
unfolding evaluate_assignment
evaluate_all states k refs i (name, e) last p quiet =
    let (known, names, q) = gather_all states k refs [] [] last p in
    let (first, g) = provisional-some e known names quiet in
    let (answer, f) =
      answer_of-some i name first (classify e (λ s. lookup s known))
        (quiet (λ s. lookup s known)) in
    (answer, rw (q, evaluate_assignment, g) f)

-- The first reference to a failed assignment gives the evaluation's answer.
pub evaluate_stop :
    (states : List ResolutionState) (k : ℕ) (refs : List Reference) (i : ℕ) (a : Bytes × Expr)
    (r : Reference) (t : ℕ) (error : AbsoluteAssignmentError)
    → get_elem? refs k ≡ some r
    → r.dependency ≡ assignment t
    → state_at states t ≡ resolved (failed error)
    → Passed states k refs
    → evaluate_assignment states refs i a ≡ some (failed error)
unfolding evaluate_assignment
evaluate_stop states k refs i (name, e) r t error g d q p =
    rw (gather_stop states k refs [] [] r t error g d q p, evaluate_assignment) refl
