-- ===== src/Expr/Assign/Invariant.antt =====
-- What holds between two rounds of `resolve_assignment` in src/expr.rs.
use afs_as.Base.{
  ℕ, ◌<◌, ◌≡◌, ◌≢◌, ◌⊎◌, inl, inr, refl, sym, ap, ◌∙◌, some, List, [], ◌∷◌, get_elem?, length,
  length-set, set, All,
}
use afs_as.Base.Bytes.{Bytes}
use afs_as.Expr.{Expr}
use afs_as.Expr.Assign.{
  Assignments, AbsoluteAssignmentError, cyclic_definition, Answer, failed, assignment, Reference,
  ResolutionState, visiting, resolved, Frame, state_at, evaluate_assignment,
}
use afs_as.Expr.Assign.States.{
  same_or_not, state_at-set_self, state_at-set_ne, Extends, Passed, Passed-Extends,
  evaluate-Extends,
}
use afs_as.Expr.Assign.Walk.{drain}
use mathlib.Core.Path.{subst}

-- The expression of the assignment `i` refers to the assignment `t`.
abbrev pub Refers : List (List Reference) → ℕ → ℕ → Type 0
Refers deps i t =
    (refs : List Reference) × (k : ℕ) × (r : Reference) × (get_elem? deps i ≡ some refs)
    × (get_elem? refs k ≡ some r)
    × (r.dependency ≡ assignment t)

-- A chain of one reference or more.
pub data Reaches (deps : List (List Reference)) : ℕ → ℕ → Type 0 where
  direct : {i j : ℕ} → Refers deps i j → Reaches deps i j
  through : {i j k : ℕ} → Refers deps i j → Reaches deps j k → Reaches deps i k

pub Reaches-trans :
    (deps : List (List Reference)) {i j k : ℕ}
    → Reaches deps i j
    → Reaches deps j k
    → Reaches deps i k
Reaches-trans deps (direct e) p = through e p
Reaches-trans deps (through e q) p = through e (Reaches-trans deps q p)

abbrev pub OnStack : ℕ → List Frame → Type 0
OnStack j [] = ⊥
OnStack j (f ∷ fs) = (j ≡ f.index) ⊎ OnStack j fs

-- A frame `f` whose next dependency is on the assignment `t`.
abbrev pub Waits : List (List Reference) → Frame → ℕ → Type 0
Waits deps f t =
    (refs : List Reference) × (r : Reference) × (get_elem? deps f.index ≡ some refs)
    × (get_elem? refs f.next_dependency ≡ some r)
    × (r.dependency ≡ assignment t)

-- Every frame waits for the one above it, from the assignment `t` above the top.
abbrev pub Awaited : List (List Reference) → ℕ → List Frame → Type 0
Awaited deps t [] = Unit {0}
Awaited deps t (f ∷ fs) = Waits deps f t × Awaited deps f.index fs

abbrev pub Chain : List (List Reference) → List Frame → Type 0
Chain deps [] = Unit {0}
Chain deps (f ∷ fs) = Awaited deps f.index fs

-- No assignment has two frames.
abbrev pub Single : List Frame → Type 0
Single [] = Unit {0}
Single (f ∷ fs) = All (λ (g : Frame). f.index ≢ g.index) fs × Single fs

Waits-Refers :
    (deps : List (List Reference)) (f : Frame) (t : ℕ) → Waits deps f t → Refers deps f.index t
Waits-Refers deps f t (refs, r, a, b, c) = (refs, f.next_dependency, r, a, b, c)

-- Whatever is on the stack reaches what the top frame waits for.
pub OnStack-Reaches :
    (deps : List (List Reference)) (j t : ℕ) (fs : List Frame)
    → Awaited deps t fs
    → OnStack j fs
    → Reaches deps j t
OnStack-Reaches deps j t [] c o = elim o [ ]
OnStack-Reaches deps j t (f ∷ fs) (w, c) (inl e) =
    subst (λ (i : ℕ). Reaches deps i t) (sym e) (direct (Waits-Refers deps f t w))
OnStack-Reaches deps j t (f ∷ fs) (w, c) (inr o) =
    Reaches-trans deps (OnStack-Reaches deps j f.index fs c o) (direct (Waits-Refers deps f t w))

-- What draining the stack does to each state.
pub drain-at :
    (states : List ResolutionState) (fs : List Frame) (error : AbsoluteAssignmentError) (j : ℕ)
    → All (λ (f : Frame). f.index < length states) fs
    → (state_at (drain states fs error) j ≡ state_at states j × (OnStack j fs → ⊥))
      ⊎ (OnStack j fs × (state_at (drain states fs error) j ≡ resolved (failed error)))
unfolding drain
drain-at states [] error j rooms = inl (refl, λ o. o)
drain-at states (f ∷ fs) error j (room, rooms) =
    let next = set states f.index (resolved (failed error)) in
    let size : length next ≡ length states = length-set states f.index (resolved (failed error)) in
    elim (drain-at next fs error j
      (subst (λ (n : ℕ). All (λ (f : Frame). f.index < n) fs) (sym size) rooms)) [
        | inr (o, e) ↦ inr (inr o, e)
        | inl (e, n) ↦ elim (same_or_not j f.index) [
          | inl q ↦ inr (
            inl q,
            e
                ∙ ap (state_at next) q
                ∙ state_at-set_self states f.index (resolved (failed error)) room,
          )
          | inr q ↦ inl (
            e ∙ state_at-set_ne states f.index j (resolved (failed error)) (λ p. q (sym p)),
            λ o. elim o [ inl p ↦ q p | inr p ↦ n p ],
          )
        ]
      ]

pub length-drain :
    (states : List ResolutionState) (fs : List Frame) (error : AbsoluteAssignmentError)
    → length (drain states fs error) ≡ length states
unfolding drain
length-drain states [] error = refl
length-drain states (f ∷ fs) error =
    length-drain (set states f.index (resolved (failed error))) fs error
    ∙ length-set states f.index (resolved (failed error))

module _ (assignments : Assignments) (deps : List (List Reference)) where
  -- The answer is the evaluation of the expression in `states`.
  abbrev pub Evaluates : List ResolutionState → ℕ → Answer → Type 0
  Evaluates states i a =
      (refs : List Reference) × (entry : Bytes × Expr) × (get_elem? deps i ≡ some refs)
      × (get_elem? assignments i ≡ some entry)
      × (evaluate_assignment states refs i entry ≡ some a)

  -- The answer reports an assignment that refers to itself, and that `i` is or refers to.
  abbrev pub OnCycle : ℕ → Answer → Type 0
  OnCycle i a =
      (t : ℕ) × (entry : Bytes × Expr) × (get_elem? assignments t ≡ some entry)
      × (a ≡ failed (cyclic_definition t entry.0))
      × Reaches deps i t
      × Reaches deps t t

  abbrev pub Settled : List ResolutionState → ℕ → Answer → Type 0
  Settled states i a = Evaluates states i a ⊎ OnCycle i a

  pub Settled-Extends :
      (states later : List ResolutionState) (i : ℕ) (a : Answer)
      → Extends states later
      → Settled states i a
      → Settled later i a
  Settled-Extends states later i a x (inr c) = inr c
  Settled-Extends states later i a x (inl (refs, entry, d, e, q)) =
      inl (refs, entry, d, e, evaluate-Extends states later refs i entry x q)

  -- A frame of an assignment being visited, whose dependencies up to the next one are usable.
  pub record FrameOk (states : List ResolutionState) (f : Frame) : Type 0 where
    pub open_state : state_at states f.index ≡ visiting
    pub refs : List Reference
    pub refers : get_elem? deps f.index ≡ some refs
    pub passed : Passed states f.next_dependency refs

  pub record Inv (states : List ResolutionState) (stack : List Frame) : Type 0 where
    pub size : length states ≡ length assignments
    pub settled : (j : ℕ) (a : Answer) → state_at states j ≡ resolved a → Settled states j a
    pub frames : All (FrameOk states) stack
    pub chain : Chain deps stack
    pub single : Single stack
    pub on_stack : (j : ℕ) → state_at states j ≡ visiting → OnStack j stack

  -- Frames stay as they are where the states of their assignments do.
  pub FrameOk-Extends :
      (states later : List ResolutionState) (fs : List Frame)
      → Extends states later
      → All (λ (f : Frame). state_at later f.index ≡ state_at states f.index) fs
      → All (FrameOk states) fs
      → All (FrameOk later) fs
  FrameOk-Extends states later [] x s h = tt
  FrameOk-Extends states later (f ∷ fs) x (e, s) (ok_frame, h) = (
    record {
      open_state = e ∙ ok_frame.open_state;
      refs = ok_frame.refs;
      refers = ok_frame.refers;
      passed = Passed-Extends states later f.next_dependency ok_frame.refs x ok_frame.passed;
    },
    FrameOk-Extends states later fs x s h,
  )

  -- Setting one state leaves the frames of others alone.
  pub elsewhere :
      (states : List ResolutionState) (i : ℕ) (s : ResolutionState) (fs : List Frame)
      → All (λ (g : Frame). i ≢ g.index) fs
      → All (λ (f : Frame). state_at (set states i s) f.index ≡ state_at states f.index) fs
  elsewhere states i s [] h = tt
  elsewhere states i s (f ∷ fs) (n, h) =
      (state_at-set_ne states i f.index s n, elsewhere states i s fs h)
