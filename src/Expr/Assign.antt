-- ===== src/Expr/Assign.antt =====
-- The `.set` assignments of src/expr.rs: `AbsoluteAssignmentResolver`, up to the evaluation of one
-- assignment. The walk over all of them stands in Assign/Walk.
pub mod Walk
pub mod States
pub mod Evaluated
pub mod Invariant
pub mod Weight
pub mod Rounds
pub mod Bounded
pub mod Resolved
use afs_as.Base.{
  ℕ, zero, suc, ◌+◌, ◌-◌, ◌^◌, Bool, true, false, Option, none, some, List, [], ◌∷◌, ◌++◌,
  get_elem?, ltb, ◌==◌, if◌then◌else◌, Result, ok, err, panic,
}
use afs_as.Base.Bytes.{Bytes}
use afs_as.Base.Int.{ℤ, pos, i64_of_u64}
use afs_as.Base.Text.{text_eq, lookup}
use afs_as.Expr.{Expr, SymbolValue, ClassifiedExpr, ClassifyError, overflow, referenced_symbols}
use afs_as.Expr.Classify.{classify}

pub data AbsoluteAssignmentError : Type 0 where
  undefined_symbol : ℕ → Bytes → Bytes → AbsoluteAssignmentError
  cyclic_definition non_absolute : ℕ → Bytes → AbsoluteAssignmentError
  invalid_expression : ℕ → Bytes → ClassifyError → AbsoluteAssignmentError

unfoldable pub may_resolve_with_labels : AbsoluteAssignmentError → Bool
may_resolve_with_labels (undefined_symbol i owner s) = true
may_resolve_with_labels (non_absolute i s) = true
may_resolve_with_labels _ = false

unfoldable pub assignment_index : AbsoluteAssignmentError → ℕ
assignment_index (undefined_symbol i owner s) = i
assignment_index (cyclic_definition i s) = i
assignment_index (non_absolute i s) = i
assignment_index (invalid_expression i owner e) = i

-- `Result<i64, AbsoluteAssignmentError>`
pub data Answer : Type 0 where
  value : ℤ → Answer
  failed : AbsoluteAssignmentError → Answer

-- `base` is a symbol of the map of base symbols.
pub data AssignmentDependency : Type 0 where
  assignment : ℕ → AssignmentDependency
  base : SymbolValue → AssignmentDependency
  undefined : AssignmentDependency

pub record Reference : Type 0 where
  pub name : Bytes
  pub dependency : AssignmentDependency

pub data ResolutionState : Type 0 where
  unvisited visiting : ResolutionState
  resolved : Answer → ResolutionState

pub record Frame : Type 0 where
  pub index : ℕ
  pub next_dependency : ℕ

abbrev pub Assignments : Type 0
Assignments = List (Bytes × Expr)

-- The entry of `positions` for a name: the indexes of its assignments, from `first` on.
unfoldable pub positions_of : Bytes → ℕ → Assignments → List ℕ
positions_of s first [] = []
positions_of s first ((name, e) ∷ more) =
    let rest = positions_of s (first + 1) more in if text_eq name s then first ∷ rest else rest

-- `indices.partition_point(|index| *index < limit)`
unfoldable pub partition_point : ℕ → List ℕ → ℕ
partition_point limit [] = 0
partition_point limit (i ∷ is) = elim (ltb i limit) [
  | true ↦ suc (partition_point limit is)
  | false ↦ 0
]

-- The last assignment of the name before `limit`, or else the first one.
unfoldable pub target_of : List ℕ → ℕ → Option ℕ
target_of indices limit =
    let prior_count = partition_point limit indices in
    if ltb 0 prior_count then get_elem? indices (prior_count - 1) else get_elem? indices prior_count

abbrev pub Base : Type 0
Base = Bytes → Option SymbolValue

abbrev base_dependency : Option SymbolValue → AssignmentDependency
base_dependency none = undefined
base_dependency (some v) = base v

unfoldable pub dependency_for_symbol : Assignments → Base → ℕ → Bytes → AssignmentDependency
dependency_for_symbol assignments symbols index s =
    elim (target_of (positions_of s 0 assignments) index) [
      | some target ↦ assignment target
      | none ↦ base_dependency (symbols s)
    ]

unfoldable pub contains : Bytes → List Bytes → Bool
contains s [] = false
contains s (t ∷ ts) = elim (text_eq t s) [ true ↦ true | false ↦ contains s ts ]

-- The names that `seen` does not hold yet, each once.
unfoldable pub distinct : List Bytes → List Bytes → List Bytes
distinct seen [] = []
distinct seen (s ∷ ss) = elim (contains s seen) [
  | true ↦ distinct seen ss
  | false ↦ s ∷ distinct (s ∷ seen) ss
]

unfoldable pub references : Assignments → Base → ℕ → List Bytes → List Reference
references assignments symbols index [] = []
references assignments symbols index (s ∷ ss) =
    record { name = s; dependency = dependency_for_symbol assignments symbols index s }
    ∷ references assignments symbols index ss

-- `dependencies` of the assignments `more`, which start at `index`.
unfoldable pub dependencies_from : Assignments → Base → ℕ → Assignments → List (List Reference)
dependencies_from assignments symbols index [] = []
dependencies_from assignments symbols index ((name, e) ∷ more) =
    references assignments symbols index (distinct [] (referenced_symbols e))
    ∷ dependencies_from assignments symbols (index + 1) more

unfoldable pub dependencies : Assignments → Base → List (List Reference)
dependencies assignments symbols = dependencies_from assignments symbols 0 assignments

-- What the loop of `evaluate_assignment` comes to: a dependency that is not resolved
-- (`unreachable!`), the error of one, or the symbols and the unresolved names.
pub data Gathered : Type 0 where
  unreachable : Gathered
  stopped : AbsoluteAssignmentError → Gathered
  gathered : List (Bytes × SymbolValue) → List Bytes → Gathered

-- The state of an assignment; an index out of range is as good as a dependency not resolved.
unfoldable pub state_at : List ResolutionState → ℕ → ResolutionState
state_at [] i = unvisited
state_at (s ∷ ss) zero = s
state_at (s ∷ ss) (suc i) = state_at ss i

unfoldable pub gather :
    List ResolutionState → List Reference → List (Bytes × SymbolValue) → List Bytes → Gathered
gather states [] symbols unresolved = gathered symbols unresolved
gather states (r ∷ rs) symbols unresolved = elim r.dependency [
  | base v ↦ gather states rs ((r.name, v) ∷ symbols) unresolved
  | undefined ↦
      gather states rs ((r.name, SymbolValue.undefined) ∷ symbols) (unresolved ++ (r.name ∷ []))
  | assignment target ↦ elim (state_at states target) [
    | resolved (value v) ↦ gather states rs ((r.name, SymbolValue.absolute v) ∷ symbols) unresolved
    | resolved (failed e) ↦ stopped e
    | unvisited ↦ unreachable
    | visiting ↦ unreachable
  ]
]

-- `usize::MAX`
abbrev pub last_section : ℕ
last_section = 2 ^ 64 - 1

abbrev pub defined_as : List Bytes → List (Bytes × SymbolValue) → List (Bytes × SymbolValue)
defined_as [] symbols = symbols
defined_as (s ∷ ss) symbols = defined_as ss ((s, SymbolValue.defined last_section 0) ∷ symbols)

-- `matches!(…, Ok(ClassifiedExpr::Absolute(_)))`; `none` stands for a panic.
unfoldable pub is_absolute : Result ClassifyError ClassifiedExpr → Option Bool
is_absolute (ok (ClassifiedExpr.absolute v)) = some true
is_absolute (ok _) = some false
is_absolute (err e) = some false
is_absolute panic = none

unfoldable pub can_resolve_with_labels :
    Expr → List (Bytes × SymbolValue) → List Bytes → Option Bool
unfolding lookup
can_resolve_with_labels e symbols unresolved =
    let known = defined_as unresolved symbols in is_absolute (classify e (λ s. lookup s known))

-- The answers behind the guard: `first` is the first unresolved name where the guard holds, and its
-- `none` a panic of the guard, which only the last three answers come to.
unfoldable pub answer_of :
    ℕ → Bytes → Option (Option Bytes) → Result ClassifyError ClassifiedExpr → Option Answer
answer_of i name first (ok (ClassifiedExpr.absolute v)) = some (value v)
answer_of i name first (ok (ClassifiedExpr.unsigned_absolute v)) = some (value (i64_of_u64 v))
answer_of i name first (err ClassifyError.overflow) =
    some (failed (invalid_expression i name ClassifyError.overflow))
answer_of i name first panic = none
answer_of i name none _ = none
answer_of i name (some (some s)) _ = some (failed (undefined_symbol i name s))
answer_of i name (some none) (ok _) = some (failed (non_absolute i name))
answer_of i name (some none) (err e) = some (failed (invalid_expression i name e))

-- `!unresolved.is_empty() && can_resolve_with_labels(…)`, with `unresolved[0]`.
unfoldable pub provisional : Expr → List (Bytes × SymbolValue) → List Bytes → Option (Option Bytes)
provisional e symbols [] = some none
provisional e symbols (s ∷ ss) = elim (can_resolve_with_labels e symbols (s ∷ ss)) [
  | none ↦ none
  | some found ↦ some (if found then some s else none)
]

-- `evaluate_assignment`; `none` stands for a panic.
unfoldable pub evaluate_assignment :
    List ResolutionState → List Reference → ℕ → Bytes × Expr → Option Answer
unfolding lookup
evaluate_assignment states refs i (name, e) = elim (gather states refs [] []) [
  | unreachable ↦ none
  | stopped error ↦ some (failed error)
  | gathered symbols unresolved ↦
      answer_of i name (provisional e symbols unresolved) (classify e (λ s. lookup s symbols))
]
