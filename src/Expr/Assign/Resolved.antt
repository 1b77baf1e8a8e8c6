-- ===== src/Expr/Assign/Resolved.antt =====
-- `resolve_absolute_assignments` of src/expr.rs answers every assignment.
use afs_as.Base.{
  ℕ, zero, suc, ◌+◌, ◌≤◌, ◌<◌, ◌≡◌, ◌≢◌, inl, inr, refl, sym, ap, ◌∙◌, Option, some, List, [], ◌∷◌,
  get_elem?, length, length-replicate, map, replicate, set, panic, arith,
}
use afs_as.Base.Bytes.{Bytes}
use afs_as.Expr.{Expr, SymbolValue}
use afs_as.Expr.Assign.{
  Assignments, Base, Answer, Reference, ResolutionState, unvisited, visiting, resolved, Frame,
  state_at, dependencies,
}
use afs_as.Expr.Assign.Bounded.{dependencies_bounded, length-dependencies}
use afs_as.Expr.Classify.{classify}
use mathlib.Core.Path.{subst}
use afs_as.Expr.Assign.Invariant.{Settled, Inv}
use afs_as.Expr.Assign.Rounds.{Given, round_lem, start_lem}
use afs_as.Expr.Assign.States.{same_or_not, Extends, Extends-refl, Extends-trans}
use afs_as.Expr.Assign.Walk.{
  run, resolve_assignment, resolve_from, budget, answers, resolve_all, resolve_absolute_assignments,
}
use afs_as.Expr.Assign.Weight.{weight, states_weight, stack_weight, states_weight-replicate}

module _ (assignments : Assignments) (deps : List (List Reference))
    (given : Given assignments deps) where
  run_lem :
      (fuel : ℕ) (states : List ResolutionState) (stack : List Frame)
      → Inv assignments deps states stack
      → weight deps states stack ≤ fuel
      → (later : List ResolutionState) × (run assignments deps fuel
            (record { states = states; stack = stack })
          ≡ some later)
        × Inv assignments deps later []
        × Extends states later
        × (states_weight later deps ≤ weight deps states stack)
  unfolding run stack_weight
  run_lem zero states [] inv enough = (states, refl, inv, Extends-refl states, omega arith)
  run_lem (suc fuel) states [] inv enough = (states, refl, inv, Extends-refl states, omega arith)
  run_lem zero states (f ∷ below) inv enough = absurd (omega (arith, enough))
  run_lem (suc fuel) states (f ∷ below) inv enough =
      let (next, q, x) = round_lem assignments deps given states f below inv in
      let (later, r, done, y, w) =
        run_lem fuel next.states next.stack x.inv (omega (arith, x.lower, enough)) in
      (
        later,
        rw (q, run) r,
        done,
        Extends-trans states next.states later x.extends y,
        omega (arith, w, x.lower),
      )

  -- One walk: nothing is on the stack behind it, and its root is visited.
  walk_lem :
      (fuel : ℕ) (states : List ResolutionState) (root : ℕ) (s : ResolutionState)
      → Inv assignments deps states []
      → states_weight states deps ≤ fuel
      → root < length states
      → state_at states root ≡ s
      → (later : List ResolutionState) × (resolve_assignment assignments deps fuel states root
          ≡ some later)
        × Inv assignments deps later []
        × Extends states later
        × (states_weight later deps ≤ states_weight states deps)
        × (state_at later root ≢ unvisited)
  unfolding resolve_assignment stack_weight
  walk_lem fuel states root unvisited inv enough room e =
      let x = start_lem assignments deps given states root inv room e in
      let start = set states root visiting in
      let frame : Frame = record { index = root; next_dependency = 0 } in
      let (later, q, done, y, w) =
        run_lem fuel start (frame ∷ []) x.inv (omega (arith, x.lower, enough)) in
      let touched = y.touched root (λ h. let v = x.inv.frames.0.open_state in cc) in
      (
        later,
        rw (e, resolve_assignment) q,
        done,
        Extends-trans states start later x.extends y,
        omega (arith, w, x.lower),
        touched,
      )
  walk_lem fuel states root visiting inv enough room e =
      (states, rw (e, resolve_assignment) refl, inv, Extends-refl states, omega arith, λ h. cc)
  walk_lem fuel states root (resolved a) inv enough room e =
      (states, rw (e, resolve_assignment) refl, inv, Extends-refl states, omega arith, λ h. cc)

  -- The loop over all assignments.
  resolve_from_lem :
      (fuel count first : ℕ) (states : List ResolutionState)
      → Inv assignments deps states []
      → states_weight states deps ≤ fuel
      → first + count ≡ length assignments
      → ((j : ℕ) → j < first → state_at states j ≢ unvisited)
      → (later : List ResolutionState) × (resolve_from assignments deps fuel count first states
          ≡ some later)
        × Inv assignments deps later []
        × ((j : ℕ) → j < length assignments → state_at later j ≢ unvisited)
  unfolding resolve_from
  resolve_from_lem fuel zero first states inv enough all before =
      (states, refl, inv, λ j h. before j (omega (arith, all, h)))
  resolve_from_lem fuel (suc count) first states inv enough all before =
      let (next, q, done, x, w, touched) =
        walk_lem fuel states first (state_at states first) inv enough (omega (arith, all, inv.size))
          refl in
      let (later, r, finished, y) =
        resolve_from_lem fuel count (first + 1) next done (omega (arith, w, enough))
          (omega (arith, all))
          (λ j h. elim (same_or_not first j) [
            | inl p ↦ λ g. touched (ap (state_at next) p ∙ g)
            | inr p ↦ x.touched j (before j (omega (arith, h, p)))
          ]) in
      (later, rw (q, resolve_from) r, finished, y)

blank_lem : (n j : ℕ) → state_at (replicate n unvisited) j ≡ unvisited
unfolding state_at
blank_lem zero j = refl
blank_lem (suc n) zero = refl
blank_lem (suc n) (suc j) = blank_lem n j

answers_lem :
    (states : List ResolutionState)
    → ((j : ℕ) → j < length states → (a : Answer) × (state_at states j ≡ resolved a))
    → (out : List Answer) × (answers states ≡ some out) × (states ≡ map resolved out)
unfolding answers state_at
answers_lem [] h = ([], refl, refl)
answers_lem (s ∷ states) h =
    let (a, e) = h 0 (omega arith) in
    let (rest, q, r) = answers_lem states (λ j g. h (suc j) (omega (arith, g))) in
    (a ∷ rest, rw (e, q, answers) refl, rw (e, r) refl)

-- What the answers `out` to the assignments are: each is the evaluation of its expression under the
-- other answers, or the error of a cycle that the assignment is on or leads to.
pub record Resolution (assignments : Assignments) (symbols : Base) (out : List Answer)
    : Type 0 where
  pub resolves : resolve_absolute_assignments assignments symbols ≡ some out
  pub complete : length out ≡ length assignments
  pub explained :
      (i : ℕ) (a : Answer)
      → get_elem? out i ≡ some a
      → Settled assignments (dependencies assignments symbols) (map resolved out) i a

length-resolved : (out : List Answer) → length (map resolved out) ≡ length out
length-resolved [] = refl
length-resolved (a ∷ out) = ap suc (length-resolved out)

state_at-resolved :
    (out : List Answer) (i : ℕ) (a : Answer)
    → get_elem? out i ≡ some a
    → state_at (map resolved out) i ≡ resolved a
unfolding state_at
state_at-resolved [] i a e = cc
state_at-resolved (x ∷ out) zero a e = let q : x ≡ a = ground (arith, e) in ap resolved q
state_at-resolved (x ∷ out) (suc i) a e = state_at-resolved out i a e

-- A state that is neither unvisited nor visiting holds an answer.
answer_of_state :
    (s : ResolutionState) → s ≢ unvisited → (s ≡ visiting → ⊥) → (a : Answer) × (s ≡ resolved a)
answer_of_state unvisited n v = absurd (n refl)
answer_of_state visiting n v = absurd (v refl)
answer_of_state (resolved a) n v = (a, refl)

-- Where no classification of the expressions panics, every assignment gets an answer, and the walk
-- ends: the answer is the evaluation of its expression under the final answers, or reports an
-- assignment that refers to itself through others, which this one is or leads to.
pub resolve_absolute_assignments_total :
    (assignments : Assignments) (symbols : Base)
    → ((i : ℕ) (entry : Bytes × Expr)
        → get_elem? assignments i ≡ some entry
        → (lookup : Bytes → Option SymbolValue) → classify entry.1 lookup ≢ panic)
    → (out : List Answer) × Resolution assignments symbols out
unfolding resolve_absolute_assignments resolve_all
resolve_absolute_assignments_total assignments symbols quiet =
    let deps = dependencies assignments symbols in
    let same = length-dependencies assignments symbols in
    let given : Given assignments deps = record {
      same = same;
      bounded = dependencies_bounded assignments symbols;
      quiet = quiet;
    } in
    let n = length assignments in
    let blank = replicate n unvisited in
    let inv : Inv assignments deps blank [] = record {
      size = length-replicate n unvisited;
      settled = λ j a e. absurd (no_answer a (sym (blank_lem n j) ∙ e));
      frames = tt;
      chain = tt;
      single = tt;
      on_stack = λ j e. let b = blank_lem n j in cc;
    } in
    let start : states_weight blank deps ≤ suc (budget deps) =
      let e = states_weight-replicate deps in
      let f = ap (λ (k : ℕ). states_weight (replicate k unvisited) deps) same in
      omega (arith, e, f) in
    let (later, q, done, touched) =
      resolve_from_lem assignments deps given (suc (budget deps)) n 0 blank inv start (omega arith)
        (λ j h. absurd (omega (arith, h))) in
    let (out, r, e) = answers_lem later (λ j h.
      answer_of_state (state_at later j) (touched j (omega (arith, h, done.size)))
        (done.on_stack j)) in
    (
      out,
      record {
        resolves = rw (q, r, resolve_absolute_assignments) refl;
        complete = sym (length-resolved out) ∙ sym (ap length e) ∙ done.size;
        explained = λ i a f.
            subst (λ (states : List ResolutionState). Settled assignments deps states i a) e
              (done.settled i a (
                ap (λ (states : List ResolutionState). state_at states i) e
                ∙ state_at-resolved out i a f));
      },
    )
  where
    no_answer : (a : Answer) → unvisited ≡ resolved a → ⊥
    no_answer a h = cc
