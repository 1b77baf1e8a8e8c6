-- ===== src/Expr/Assign/Rounds.antt =====
-- Each round of `resolve_assignment` in src/expr.rs keeps the invariant and lowers the measure.
use afs_as.Base.{
  ℕ, zero, suc, ◌<◌, ◌≡◌, ◌≢◌, inl, inr, refl, sym, ap, ◌∙◌, Option, none, some, Option-cases, List,
  [], ◌∷◌, get_elem?, get_elem?_lt, get_elem?-lt, length, length-set, set, lt→ltb, panic, All,
  arith,
}
use afs_as.Base.Bytes.{Bytes}
use afs_as.Expr.{Expr, SymbolValue}
use afs_as.Expr.Assign.{
  Assignments, cyclic_definition, Answer, value, failed, AssignmentDependency, assignment, base,
  undefined, Reference, ResolutionState, unvisited, visiting, resolved, Frame, state_at,
}
use afs_as.Expr.Assign.Invariant.{
  Refers, Reaches, OnStack, Awaited, Chain, OnStack-Reaches, drain-at, length-drain, Settled,
  Settled-Extends, FrameOk, Inv, FrameOk-Extends, elsewhere,
}
use afs_as.Expr.Assign.States.{
  same_or_not, state_at-set_self, state_at-set_ne, Extends, Extends-refl, set-Extends, Usable,
  Passed, Passed-suc,
}
use afs_as.Expr.Assign.Evaluated.{evaluate_all, evaluate_stop}
use afs_as.Expr.Assign.Walk.{Machine, drain, advance, close, visit, follow, round}
use afs_as.Expr.Assign.Weight.{
  weight, stack_weight, references_at-get_elem?, states_weight-set, states_weight-visit,
  states_weight-drain,
}
use afs_as.Expr.Classify.{classify}
use mathlib.Core.Path.{subst}

unvisited_elsewhere :
    (assignments : Assignments) (deps : List (List Reference)) (states : List ResolutionState)
    (t : ℕ) (fs : List Frame)
    → state_at states t ≡ unvisited
    → All (FrameOk assignments deps states) fs
    → All (λ (g : Frame). t ≢ g.index) fs
unvisited_elsewhere assignments deps states t [] e h = tt
unvisited_elsewhere assignments deps states t (f ∷ fs) e (ok_frame, h) = (
  (λ q. let g = ap (state_at states) q in let v = ok_frame.open_state in cc),
  unvisited_elsewhere assignments deps states t fs e h,
)

OnStack-visiting :
    (assignments : Assignments) (deps : List (List Reference)) (states : List ResolutionState)
    (j : ℕ) (fs : List Frame)
    → All (FrameOk assignments deps states) fs
    → OnStack j fs
    → state_at states j ≡ visiting
OnStack-visiting assignments deps states j [] h o = elim o [ ]
OnStack-visiting assignments deps states j (f ∷ fs) (ok_frame, h) (inl e) =
    ap (state_at states) e ∙ ok_frame.open_state
OnStack-visiting assignments deps states j (f ∷ fs) (ok_frame, h) (inr o) =
    OnStack-visiting assignments deps states j fs h o

pub state_at-lt :
    (states : List ResolutionState) (j : ℕ) → state_at states j ≢ unvisited → j < length states
unfolding state_at
state_at-lt [] j n = absurd (n refl)
state_at-lt (s ∷ states) zero n = omega arith
state_at-lt (s ∷ states) (suc j) n = omega (arith, state_at-lt states j n)

-- What the walk needs of its dependencies: there are as many as assignments, they refer to
-- assignments, and no classification panics.
pub record Given (assignments : Assignments) (deps : List (List Reference)) : Type 0 where
  pub same : length deps ≡ length assignments
  pub bounded : (i t : ℕ) → Refers deps i t → t < length assignments
  pub quiet :
      (i : ℕ) (entry : Bytes × Expr)
      → get_elem? assignments i ≡ some entry
      → (lookup : Bytes → Option SymbolValue) → classify entry.1 lookup ≢ panic

module _ (assignments : Assignments) (deps : List (List Reference))
    (given : Given assignments deps) where
  -- What a round comes to.
  pub record Round (states : List ResolutionState) (stack : List Frame) (m : Machine) : Type 0 where
    pub inv : Inv assignments deps m.states m.stack
    pub extends : Extends states m.states
    pub lower : weight deps m.states m.stack < weight deps states stack

  frame_room :
      (states : List ResolutionState) (f : Frame) (below : List Frame)
      → Inv assignments deps states (f ∷ below)
      → f.index < length states
  frame_room states f below inv =
      state_at-lt states f.index (λ e. let h = inv.frames.0.open_state in cc)

  -- The top frame ends with an answer.
  pop_lem :
      (states : List ResolutionState) (f : Frame) (below : List Frame) (a : Answer)
      → Inv assignments deps states (f ∷ below)
      → Settled assignments deps states f.index a
      → Round states
          (f ∷ below)
          (record { states = set states f.index (resolved a); stack = below })
  unfolding stack_weight
  pop_lem states f below a inv answer =
      let i = f.index in
      let next = set states i (resolved a) in
      let room = frame_room states f below inv in
      let open_state = inv.frames.0.open_state in
      let x = set-Extends states i (resolved a) room (λ b e. cc) (λ e. cc) in
      let inv' : Inv assignments deps next below = record {
        size = length-set states i (resolved a) ∙ inv.size;
        settled = λ j b e. elim (same_or_not i j) [
          | inl q ↦
              let same : a ≡ b =
                ground
                  (arith, state_at-set_self states i (resolved a) room, ap (state_at next) q, e) in
              subst (λ (k : ℕ). Settled assignments deps next k b) q
                (subst (Settled assignments deps next i) same
                  (Settled-Extends assignments deps states next i a x answer))
          | inr q ↦
              Settled-Extends assignments deps states next j b x
                (inv.settled j b (sym (state_at-set_ne states i j (resolved a) q) ∙ e))
        ];
        frames =
            FrameOk-Extends assignments deps states next below x
              (elsewhere assignments deps states i (resolved a) below inv.single.0) inv.frames.1;
        chain = tail_chain below inv.chain;
        single = inv.single.1;
        on_stack = λ j e. elim (same_or_not i j) [
          | inl q ↦ absurd (
              closed a
                (sym (state_at-set_self states i (resolved a) room) ∙ ap (state_at next) q ∙ e))
          | inr q ↦ elim (inv.on_stack j (sym (state_at-set_ne states i j (resolved a) q) ∙ e)) [
            | inl p ↦ absurd (q (sym p))
            | inr o ↦ o
          ]
        ];
      } in
      record {
        inv = inv';
        extends = x;
        lower = omega (arith, states_weight-set states deps i (resolved a) (λ e. cc));
      }
    where
      closed : (a : Answer) → resolved a ≡ visiting → ⊥
      closed a e = cc

      tail_chain : (fs : List Frame) → Awaited deps f.index fs → Chain deps fs
      tail_chain [] c = tt
      tail_chain (g ∷ fs) c = c.1

  -- The top frame passes a usable dependency.
  pass_lem :
      (states : List ResolutionState) (f : Frame) (below : List Frame) (r : Reference)
      → (inv : Inv assignments deps states (f ∷ below))
      → get_elem? inv.frames.0.refs f.next_dependency ≡ some r
      → Usable states r.dependency
      → Round states (f ∷ below) (record { states = states; stack = advance f ∷ below })
  unfolding stack_weight
  pass_lem states f below r inv e usable =
      let top = inv.frames.0 in
      record {
        inv = record {
          size = inv.size;
          settled = inv.settled;
          frames = (
            record {
              open_state = top.open_state;
              refs = top.refs;
              refers = top.refers;
              passed = Passed-suc states f.next_dependency top.refs r e usable top.passed;
            },
            inv.frames.1,
          );
          chain = inv.chain;
          single = inv.single;
          on_stack = inv.on_stack;
        };
        extends = Extends-refl states;
        lower =
            let short = get_elem?-lt top.refs f.next_dependency e in
            let at = ap length (references_at-get_elem? deps f.index top.refs top.refers) in
            omega (arith, short, at);
      }

  -- A first visit.
  push_lem :
      (states : List ResolutionState) (f : Frame) (below : List Frame) (r : Reference) (t : ℕ)
      → (inv : Inv assignments deps states (f ∷ below))
      → get_elem? inv.frames.0.refs f.next_dependency ≡ some r
      → r.dependency ≡ assignment t
      → t < length states
      → state_at states t ≡ unvisited
      → Round states (f ∷ below) (record {
        states = set states t visiting;
        stack = record { index = t; next_dependency = 0 } ∷ f ∷ below;
      })
  unfolding stack_weight Passed
  push_lem states f below r t inv e d room new =
      let next = set states t visiting in
      let frame : Frame = record { index = t; next_dependency = 0 } in
      let x = set-Extends states t visiting room (λ b q. cc) (λ q. cc) in
      let fresh = unvisited_elsewhere assignments deps states t (f ∷ below) new inv.frames in
      let set_self = state_at-set_self states t visiting room in
      let (refs, refers) = get_elem?_lt deps t (omega (arith, inv.size, given.same, room)) in
      record {
        inv = record {
          size = length-set states t visiting ∙ inv.size;
          settled = λ j b q. elim (same_or_not t j) [
            | inl p ↦ absurd (open_answer b (sym set_self ∙ ap (state_at next) p ∙ q))
            | inr p ↦
                Settled-Extends assignments deps states next j b x
                  (inv.settled j b (sym (state_at-set_ne states t j visiting p) ∙ q))
          ];
          frames = (
            record { open_state = set_self; refs = refs; refers = refers; passed = tt },
            FrameOk-Extends assignments deps states next (f ∷ below) x
                (elsewhere assignments deps states t visiting (f ∷ below) fresh) inv.frames,
          );
          chain = ((inv.frames.0.refs, r, inv.frames.0.refers, e, d), inv.chain);
          single = (fresh, inv.single);
          on_stack = λ j q. elim (same_or_not t j) [
            | inl p ↦ inl (sym p)
            | inr p ↦ inr (inv.on_stack j (sym (state_at-set_ne states t j visiting p) ∙ q))
          ];
        };
        extends = x;
        lower =
            omega (arith, states_weight-visit states deps t new room (inv.size ∙ sym given.same));
      }
    where
      open_answer : (b : Answer) → visiting ≡ resolved b → ⊥
      open_answer b q = cc

  -- A cycle is closed: everything on the stack fails.
  cycle_lem :
      (states : List ResolutionState) (f : Frame) (below : List Frame) (r : Reference) (t : ℕ)
      (entry : Bytes × Expr)
      → (inv : Inv assignments deps states (f ∷ below))
      → get_elem? inv.frames.0.refs f.next_dependency ≡ some r
      → r.dependency ≡ assignment t
      → state_at states t ≡ visiting
      → get_elem? assignments t ≡ some entry
      → Round states
          (f ∷ below)
          (record { states = drain states (f ∷ below) (cyclic_definition t entry.0); stack = [] })
  unfolding stack_weight
  cycle_lem states f below r t entry inv e d again found =
      let error = cyclic_definition t entry.0 in
      let fs = f ∷ below in
      let next = drain states fs error in
      let rooms = rooms_of fs inv.frames in
      let awaited : Awaited deps t fs =
        ((inv.frames.0.refs, r, inv.frames.0.refers, e, d), inv.chain) in
      let cycle : Reaches deps t t = OnStack-Reaches deps t t fs awaited (inv.on_stack t again) in
      let x : Extends states next = record {
        kept = λ j a q. elim (drain-at states fs error j rooms) [
          | inl (same, n) ↦ same ∙ q
          | inr (o, s) ↦
              absurd (
                open_answer a
                  (sym (OnStack-visiting assignments deps states j fs inv.frames o) ∙ q))
        ];
        touched = λ j n q. elim (drain-at states fs error j rooms) [
          | inl (same, m) ↦ n (sym same ∙ q)
          | inr (o, s) ↦ new_answer (failed error) (sym q ∙ s)
        ];
      } in
      record {
        inv = record {
          size = length-drain states fs error ∙ inv.size;
          settled = λ j a q. elim (drain-at states fs error j rooms) [
            | inl (same, n) ↦
                Settled-Extends assignments deps states next j a x (inv.settled j a (sym same ∙ q))
            | inr (o, s) ↦ inr (
              t,
              entry,
              found,
              same_answer a (failed error) (sym q ∙ s),
              OnStack-Reaches deps j t fs awaited o,
              cycle,
            )
          ];
          frames = tt;
          chain = tt;
          single = tt;
          on_stack = λ j q. elim (drain-at states fs error j rooms) [
            | inl (same, n) ↦ n (inv.on_stack j (sym same ∙ q))
            | inr (o, s) ↦ open_answer (failed error) (sym q ∙ s)
          ];
        };
        extends = x;
        lower = omega (arith, states_weight-drain deps states fs error);
      }
    where
      open_answer : (b : Answer) → visiting ≡ resolved b → ⊥
      open_answer b q = cc

      new_answer : (b : Answer) → unvisited ≡ resolved b → ⊥
      new_answer b q = cc

      same_answer : (a b : Answer) → resolved a ≡ resolved b → a ≡ b
      same_answer a b q = cc

      rooms_of :
          (fs : List Frame)
          → All (FrameOk assignments deps states) fs
          → All (λ (g : Frame). g.index < length states) fs
      rooms_of [] h = tt
      rooms_of (g ∷ gs) (k, h) =
          (state_at-lt states g.index (λ q. let v = k.open_state in cc), rooms_of gs h)

  abbrev Outcome : List ResolutionState → Frame → List Frame → Option Machine → Type 0
  Outcome states f below result =
      (next : Machine) × (result ≡ some next) × Round states (f ∷ below) next

  close_lem :
      (states : List ResolutionState) (f : Frame) (below : List Frame)
      → (inv : Inv assignments deps states (f ∷ below))
      → get_elem? inv.frames.0.refs f.next_dependency ≡ none
      → Outcome states f below (close assignments deps states f below inv.frames.0.refs)
  unfolding close
  close_lem states f below inv last =
      let top = inv.frames.0 in
      let room : f.index < length assignments =
        omega (arith, inv.size, frame_room states f below inv) in
      let (entry, found) = get_elem?_lt assignments f.index room in
      let (answer, q) =
        evaluate_all states f.next_dependency top.refs f.index entry last top.passed
          (given.quiet f.index entry found) in
      (
        record { states = set states f.index (resolved answer); stack = below },
        rw (found, q, close) refl,
        pop_lem states f below answer inv (inl (top.refs, entry, top.refers, found, q)),
      )

  visit_lem :
      (states : List ResolutionState) (f : Frame) (below : List Frame) (r : Reference) (t : ℕ)
      (s : ResolutionState)
      → (inv : Inv assignments deps states (f ∷ below))
      → get_elem? inv.frames.0.refs f.next_dependency ≡ some r
      → r.dependency ≡ assignment t
      → t < length states
      → state_at states t ≡ s
      → Outcome states f below (visit assignments deps states f below t s)
  unfolding visit Usable
  visit_lem states f below r t unvisited inv e d room q =
      (_, refl, push_lem states f below r t inv e d room q)
  visit_lem states f below r t visiting inv e d room q =
      let (entry, found) = get_elem?_lt assignments t (omega (arith, inv.size, room)) in
      (_, rw (found, visit) refl, cycle_lem states f below r t entry inv e d q found)
  visit_lem states f below r t (resolved (value v)) inv e d room q =
      (_, refl, pass_lem states f below r inv e (rw d (v, q)))
  visit_lem states f below r t (resolved (failed error)) inv e d room q =
      let top = inv.frames.0 in
      let here : f.index < length assignments =
        omega (arith, inv.size, frame_room states f below inv) in
      let (entry, found) = get_elem?_lt assignments f.index here in
      let stop =
        evaluate_stop states f.next_dependency top.refs f.index entry r t error e d q top.passed in
      (
        _,
        refl,
        pop_lem states f below (failed error) inv (inl (top.refs, entry, top.refers, found, stop)),
      )

  follow_lem :
      (states : List ResolutionState) (f : Frame) (below : List Frame) (r : Reference)
      (d : AssignmentDependency)
      → (inv : Inv assignments deps states (f ∷ below))
      → get_elem? inv.frames.0.refs f.next_dependency ≡ some r
      → r.dependency ≡ d
      → Outcome states f below (follow assignments deps states f below r)
  unfolding follow Usable
  follow_lem states f below r (base v) inv e d =
      (_, rw (d, follow) refl, pass_lem states f below r inv e (rw d tt))
  follow_lem states f below r undefined inv e d =
      (_, rw (d, follow) refl, pass_lem states f below r inv e (rw d tt))
  follow_lem states f below r (assignment t) inv e d =
      let top = inv.frames.0 in
      let refers : Refers deps f.index t = (top.refs, f.next_dependency, r, top.refers, e, d) in
      let room : t < length states = omega (arith, inv.size, given.bounded f.index t refers) in
      let (next, q, x) = visit_lem states f below r t (state_at states t) inv e d room refl in
      (next, rw (d, lt→ltb _ _ room, follow) q, x)

  -- Every round succeeds, keeps the invariant, and lowers the measure.
  pub round_lem :
      (states : List ResolutionState) (f : Frame) (below : List Frame)
      → Inv assignments deps states (f ∷ below)
      → (next : Machine) × (round assignments deps states f below ≡ some next)
        × Round states (f ∷ below) next
  unfolding round
  round_lem states f below inv =
      let top = inv.frames.0 in
      elim (Option-cases (get_elem? top.refs f.next_dependency)) [
        | inl last ↦
            let (next, q, x) = close_lem states f below inv last in
            (next, rw (top.refers, last, round) q, x)
        | inr (r, e) ↦
            let (next, q, x) = follow_lem states f below r r.dependency inv e refl in
            (next, rw (top.refers, e, round) q, x)
      ]

  -- The walk from an assignment that is not visited yet.
  pub start_lem :
      (states : List ResolutionState) (root : ℕ)
      → Inv assignments deps states []
      → root < length states
      → state_at states root ≡ unvisited
      → Round states [] (record {
        states = set states root visiting;
        stack = record { index = root; next_dependency = 0 } ∷ [];
      })
  unfolding stack_weight Passed
  start_lem states root inv room new =
      let next = set states root visiting in
      let x = set-Extends states root visiting room (λ b q. cc) (λ q. cc) in
      let set_self = state_at-set_self states root visiting room in
      let (refs, refers) = get_elem?_lt deps root (omega (arith, inv.size, given.same, room)) in
      record {
        inv = record {
          size = length-set states root visiting ∙ inv.size;
          settled = λ j b q. elim (same_or_not root j) [
            | inl p ↦ absurd (open_answer b (sym set_self ∙ ap (state_at next) p ∙ q))
            | inr p ↦
                Settled-Extends assignments deps states next j b x
                  (inv.settled j b (sym (state_at-set_ne states root j visiting p) ∙ q))
          ];
          frames =
              (record { open_state = set_self; refs = refs; refers = refers; passed = tt }, tt);
          chain = tt;
          single = (tt, tt);
          on_stack = λ j q. elim (same_or_not root j) [
            | inl p ↦ inl (sym p)
            | inr p ↦ absurd (inv.on_stack j (sym (state_at-set_ne states root j visiting p) ∙ q))
          ];
        };
        extends = x;
        lower =
            omega
              (arith, states_weight-visit states deps root new room (inv.size ∙ sym given.same));
      }
    where
      open_answer : (b : Answer) → visiting ≡ resolved b → ⊥
      open_answer b q = cc
