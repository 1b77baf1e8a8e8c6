-- ===== src/Expr/Assign/Walk.antt =====
-- `resolve_assignment` and `resolve_all` of src/expr.rs: a depth-first walk with its own stack. The
-- top of the stack is the head of the list.
use afs_as.Base.{
  ℕ, zero, suc, ◌+◌, Option, none, some, List, [], ◌∷◌, get_elem?, length, ltb, replicate, set,
  if◌then◌else◌,
}
use afs_as.Expr.Assign.{
  Assignments, Base, AbsoluteAssignmentError, cyclic_definition, Answer, value, failed, assignment,
  base, undefined, Reference, ResolutionState, unvisited, visiting, resolved, Frame, state_at,
  dependencies, evaluate_assignment,
}

pub record Machine : Type 0 where
  pub states : List ResolutionState
  pub stack : List Frame

-- `stack.drain(..)` of the cycle: every frame is resolved to the error.
unfoldable pub drain :
    List ResolutionState → List Frame → AbsoluteAssignmentError → List ResolutionState
drain states [] error = states
drain states (f ∷ fs) error = drain (set states f.index (resolved (failed error))) fs error

abbrev pub advance : Frame → Frame
advance f = record f { next_dependency = f.next_dependency + 1 }

module _ (assignments : Assignments) (deps : List (List Reference)) where
  -- A frame that has no dependency left.
  unfoldable pub close : List ResolutionState → Frame → List Frame → List Reference → Option Machine
  close states f below refs = elim (get_elem? assignments f.index) [
    | none ↦ none
    | some a ↦ elim (evaluate_assignment states refs f.index a) [
      | none ↦ none
      | some answer ↦ some (record { states = set states f.index (resolved answer); stack = below })
    ]
  ]

  -- The dependency of the top frame on the assignment `target`.
  unfoldable pub visit :
      List ResolutionState → Frame → List Frame → ℕ → ResolutionState → Option Machine
  visit states f below target unvisited = some (record {
    states = set states target visiting;
    stack = record { index = target; next_dependency = 0 } ∷ f ∷ below;
  })
  visit states f below target visiting = elim (get_elem? assignments target) [
    | none ↦ none
    | some (name, e) ↦
        some
          (record { states = drain states (f ∷ below) (cyclic_definition target name); stack = [] })
  ]
  visit states f below target (resolved (value v)) =
      some (record { states = states; stack = advance f ∷ below })
  visit states f below target (resolved (failed error)) =
      some (record { states = set states f.index (resolved (failed error)); stack = below })

  -- One round of the loop, for the dependency that is next.
  unfoldable pub follow : List ResolutionState → Frame → List Frame → Reference → Option Machine
  follow states f below r = elim r.dependency [
    | base v ↦ some (record { states = states; stack = advance f ∷ below })
    | undefined ↦ some (record { states = states; stack = advance f ∷ below })
    | assignment target ↦
        if ltb target (length states)
        then visit states f below target (state_at states target)
        else none
  ]

  unfoldable pub round : List ResolutionState → Frame → List Frame → Option Machine
  round states f below = elim (get_elem? deps f.index) [
    | none ↦ none
    | some refs ↦ elim (get_elem? refs f.next_dependency) [
      | none ↦ close states f below refs
      | some r ↦ follow states f below r
    ]
  ]

  -- The loop, on fuel; `none` stands for a panic, and for fuel that ran out.
  unfoldable pub run : ℕ → Machine → Option (List ResolutionState)
  run zero m = elim m.stack [ [] ↦ some m.states | _ ∷ _ ↦ none ]
  run (suc fuel) m = elim m.stack [
    | [] ↦ some m.states
    | f ∷ below ↦ elim (round m.states f below) [ none ↦ none | some next ↦ run fuel next ]
  ]

  unfoldable pub resolve_assignment : ℕ → List ResolutionState → ℕ → Option (List ResolutionState)
  resolve_assignment fuel states root = elim (state_at states root) [
    | unvisited ↦ run fuel (record {
      states = set states root visiting;
      stack = record { index = root; next_dependency = 0 } ∷ [];
    })
    | visiting ↦ some states
    | resolved answer ↦ some states
  ]

  -- `for index in first..first + count`
  unfoldable pub resolve_from : ℕ → ℕ → ℕ → List ResolutionState → Option (List ResolutionState)
  resolve_from fuel zero first states = some states
  resolve_from fuel (suc count) first states = elim (resolve_assignment fuel states first) [
    | none ↦ none
    | some next ↦ resolve_from fuel count (first + 1) next
  ]

-- The rounds that a walk takes at most, with one more for each assignment that ends.
unfoldable pub budget : List (List Reference) → ℕ
budget [] = 0
budget (refs ∷ deps) = length refs + 2 + budget deps

unfoldable pub answers : List ResolutionState → Option (List Answer)
answers [] = some []
answers (resolved a ∷ states) = elim (answers states) [ none ↦ none | some rest ↦ some (a ∷ rest) ]
answers (_ ∷ states) = none

unfoldable pub resolve_all : Assignments → List (List Reference) → Option (List ResolutionState)
resolve_all assignments deps =
    resolve_from assignments deps (suc (budget deps)) (length assignments) 0
      (replicate (length assignments) unvisited)

unfoldable pub resolve_absolute_assignments : Assignments → Base → Option (List Answer)
resolve_absolute_assignments assignments symbols =
    elim (resolve_all assignments (dependencies assignments symbols)) [
      | none ↦ none
      | some states ↦ answers states
    ]
