-- ===== src/Expr/Assign/Weight.antt =====
-- The measure that each round of `resolve_assignment` in src/expr.rs lowers: the references still to
-- be followed, with two more for an assignment not visited yet and one more for a frame.
use afs_as.Base.{
  ℕ, zero, suc, ◌+◌, ◌-◌, ◌≤◌, ◌<◌, ◌≡◌, ◌≢◌, refl, some, List, [], ◌∷◌, get_elem?, length, set,
  replicate, arith,
}
use afs_as.Expr.Assign.{
  Reference, AbsoluteAssignmentError, failed, ResolutionState, unvisited, visiting, resolved, Frame,
  state_at,
}
use afs_as.Expr.Assign.Walk.{drain, budget}

abbrev pub state_weight : ResolutionState → List Reference → ℕ
state_weight unvisited refs = length refs + 2
state_weight visiting refs = 0
state_weight (resolved a) refs = 0

unfoldable pub states_weight : List ResolutionState → List (List Reference) → ℕ
states_weight [] deps = 0
states_weight (s ∷ states) [] = 0
states_weight (s ∷ states) (refs ∷ deps) = state_weight s refs + states_weight states deps

unfoldable pub references_at : List (List Reference) → ℕ → List Reference
references_at [] i = []
references_at (refs ∷ deps) zero = refs
references_at (refs ∷ deps) (suc i) = references_at deps i

unfoldable pub stack_weight : List (List Reference) → List Frame → ℕ
stack_weight deps [] = 0
stack_weight deps (f ∷ fs) =
    length (references_at deps f.index) - f.next_dependency + 1 + stack_weight deps fs

abbrev pub weight : List (List Reference) → List ResolutionState → List Frame → ℕ
weight deps states fs = states_weight states deps + stack_weight deps fs

pub references_at-get_elem? :
    (deps : List (List Reference)) (i : ℕ) (refs : List Reference)
    → get_elem? deps i ≡ some refs
    → references_at deps i ≡ refs
unfolding references_at
references_at-get_elem? [] i refs e = cc
references_at-get_elem? (x ∷ deps) zero refs e = ground (arith, e)
references_at-get_elem? (x ∷ deps) (suc i) refs e = references_at-get_elem? deps i refs e

settled_weight :
    (s : ResolutionState) (refs : List Reference) → s ≢ unvisited → state_weight s refs ≡ 0
settled_weight unvisited refs n = absurd (n refl)
settled_weight visiting refs n = refl
settled_weight (resolved a) refs n = refl

pub states_weight-set :
    (states : List ResolutionState) (deps : List (List Reference)) (i : ℕ) (s : ResolutionState)
    → s ≢ unvisited
    → states_weight (set states i s) deps ≤ states_weight states deps
unfolding states_weight
states_weight-set [] deps i s n = omega arith
states_weight-set (x ∷ states) [] zero s n = omega arith
states_weight-set (x ∷ states) [] (suc i) s n = omega arith
states_weight-set (x ∷ states) (refs ∷ deps) zero s n = omega (arith, settled_weight s refs n)
states_weight-set (x ∷ states) (refs ∷ deps) (suc i) s n =
    omega (arith, states_weight-set states deps i s n)

-- A first visit takes the assignment's share off.
pub states_weight-visit :
    (states : List ResolutionState) (deps : List (List Reference)) (i : ℕ)
    → state_at states i ≡ unvisited
    → i < length states
    → length states ≡ length deps
    → states_weight (set states i visiting) deps + (length (references_at deps i) + 2)
      ≡ states_weight states deps
unfolding states_weight references_at state_at
states_weight-visit [] deps i e room same = absurd (omega (arith, room))
states_weight-visit (x ∷ states) [] i e room same = absurd (omega (arith, same))
states_weight-visit (x ∷ states) (refs ∷ deps) zero e room same = rw e (omega arith)
states_weight-visit (x ∷ states) (refs ∷ deps) (suc i) e room same =
    omega (arith, states_weight-visit states deps i e (omega (arith, room)) (omega (arith, same)))

pub states_weight-drain :
    (deps : List (List Reference)) (states : List ResolutionState) (fs : List Frame)
    (error : AbsoluteAssignmentError)
    → states_weight (drain states fs error) deps ≤ states_weight states deps
unfolding drain
states_weight-drain deps states [] error = omega arith
states_weight-drain deps states (f ∷ fs) error = omega (
  arith,
  states_weight-drain deps (set states f.index (resolved (failed error))) fs error,
  states_weight-set states deps f.index (resolved (failed error)) (λ e. cc),
)

-- At the start the measure is the budget.
pub states_weight-replicate :
    (deps : List (List Reference))
    → states_weight (replicate (length deps) unvisited) deps ≡ budget deps
unfolding states_weight budget
states_weight-replicate [] = refl
states_weight-replicate (refs ∷ deps) = omega (arith, states_weight-replicate deps)
