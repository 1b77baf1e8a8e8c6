-- ===== src/Expr/Assign/States.antt =====
-- How the states of the assignments of src/expr.rs change, and what an evaluation sees of them.
use afs_as.Base.{
  ℕ, zero, suc, ◌+◌, ◌<◌, ◌≡◌, ◌≢◌, ◌⊎◌, inl, inr, refl, sym, ap, ◌∙◌, none, some, List, [], ◌∷◌,
  ◌++◌, get_elem?, length, set, ◌==◌, ==_iff, Bool-cases, arith,
}
use afs_as.Base.Bytes.{Bytes}
use afs_as.Expr.{Expr, SymbolValue}
use afs_as.Base.Int.{ℤ}
use afs_as.Expr.Assign.{
  AbsoluteAssignmentError, Answer, value, failed, assignment, base, undefined, AssignmentDependency,
  Reference, ResolutionState, unvisited, visiting, resolved, state_at, Gathered, unreachable,
  stopped, gathered, gather, evaluate_assignment,
}

pub same_or_not : (i j : ℕ) → (i ≡ j) ⊎ (i ≢ j)
same_or_not i j = elim (Bool-cases (i == j)) [
  | inl e ↦ inl ((==_iff i j).0 e)
  | inr e ↦ inr (λ q. let f = (==_iff i j).1 q in cc)
]

pub state_at-set_self :
    (states : List ResolutionState) (i : ℕ) (s : ResolutionState)
    → i < length states
    → state_at (set states i s) i ≡ s
unfolding state_at
state_at-set_self [] i s h = absurd (omega (arith, h))
state_at-set_self (x ∷ states) zero s h = refl
state_at-set_self (x ∷ states) (suc i) s h = state_at-set_self states i s (omega (arith, h))

pub state_at-set_ne :
    (states : List ResolutionState) (i j : ℕ) (s : ResolutionState)
    → i ≢ j
    → state_at (set states i s) j ≡ state_at states j
unfolding state_at
state_at-set_ne [] i j s h = refl
state_at-set_ne (x ∷ states) zero zero s h = absurd (h refl)
state_at-set_ne (x ∷ states) zero (suc j) s h = refl
state_at-set_ne (x ∷ states) (suc i) zero s h = refl
state_at-set_ne (x ∷ states) (suc i) (suc j) s h = state_at-set_ne states i j s (λ e. h (ap suc e))

-- Later states: what is resolved stays so, and no assignment is unvisited again.
pub record Extends (states later : List ResolutionState) : Type 0 where
  pub kept : (j : ℕ) (a : Answer) → state_at states j ≡ resolved a → state_at later j ≡ resolved a
  pub touched : (j : ℕ) → state_at states j ≢ unvisited → state_at later j ≢ unvisited

pub Extends-refl : (states : List ResolutionState) → Extends states states
Extends-refl states = record { kept = λ j a e. e; touched = λ j h. h }

pub Extends-trans : (a b c : List ResolutionState) → Extends a b → Extends b c → Extends a c
Extends-trans a b c f g = record {
  kept = λ j x e. g.kept j x (f.kept j x e);
  touched = λ j h. g.touched j (f.touched j h);
}

-- A state that is not resolved may be set, to one that is not unvisited.
pub set-Extends :
    (states : List ResolutionState) (i : ℕ) (s : ResolutionState)
    → i < length states
    → ((a : Answer) → state_at states i ≢ resolved a)
    → s ≢ unvisited
    → Extends states (set states i s)
set-Extends states i s room open_state new = record {
  kept = λ j a e. elim (same_or_not i j) [
    | inl q ↦ absurd (open_state a (ap (state_at states) q ∙ e))
    | inr q ↦ state_at-set_ne states i j s q ∙ e
  ];
  touched = λ j h. elim (same_or_not i j) [
    | inl q ↦
        λ e. new (sym (state_at-set_self states i s room) ∙ ap (state_at (set states i s)) q ∙ e)
    | inr q ↦ λ e. h (sym (state_at-set_ne states i j s q) ∙ e)
  ];
}

-- A dependency that an evaluation can use.
unfoldable pub Usable : List ResolutionState → AssignmentDependency → Type 0
Usable states (assignment t) = (v : ℤ) × (state_at states t ≡ resolved (value v))
Usable states (base v) = Unit {0}
Usable states undefined = Unit {0}

-- The first `k` references are usable.
unfoldable pub Passed : List ResolutionState → ℕ → List Reference → Type 0
Passed states zero refs = Unit {0}
Passed states (suc k) [] = Unit {0}
Passed states (suc k) (r ∷ rs) = Usable states r.dependency × Passed states k rs

Usable-Extends :
    (states later : List ResolutionState) (d : AssignmentDependency)
    → Extends states later
    → Usable states d
    → Usable later d
unfolding Usable
Usable-Extends states later (assignment t) x (v, e) = (v, x.kept t (value v) e)
Usable-Extends states later (base v) x u = u
Usable-Extends states later undefined x u = u

pub Passed-Extends :
    (states later : List ResolutionState) (k : ℕ) (refs : List Reference)
    → Extends states later
    → Passed states k refs
    → Passed later k refs
unfolding Passed
Passed-Extends states later zero refs x p = p
Passed-Extends states later (suc k) [] x p = p
Passed-Extends states later (suc k) (r ∷ rs) x (u, p) =
    (Usable-Extends states later r.dependency x u, Passed-Extends states later k rs x p)

pub Passed-suc :
    (states : List ResolutionState) (k : ℕ) (refs : List Reference) (r : Reference)
    → get_elem? refs k ≡ some r
    → Usable states r.dependency
    → Passed states k refs
    → Passed states (k + 1) refs
unfolding Passed
Passed-suc states k refs r e u p = let q : k + 1 ≡ suc k = omega arith in rw q (go k refs e p)
  where
    go :
        (k : ℕ) (refs : List Reference)
        → get_elem? refs k ≡ some r
        → Passed states k refs
        → Passed states (suc k) refs
    go k [] e p = tt
    go zero (x ∷ rs) e p = let q : x ≡ r = ground arith in rw q (u, tt)
    go (suc k) (x ∷ rs) e (v, p) = (v, go k rs e p)

-- A usable reference adds a symbol.
gather_step :
    (states : List ResolutionState) (r : Reference) (rs : List Reference)
    (symbols : List (Bytes × SymbolValue)) (unresolved : List Bytes) (d : AssignmentDependency)
    → r.dependency ≡ d
    → Usable states d
    → (known : List (Bytes × SymbolValue)) × (names : List Bytes) × (gather states
          (r ∷ rs)
          symbols
          unresolved
        ≡ gather states rs known names)
unfolding gather Usable
gather_step states r rs symbols unresolved (assignment t) e (v, q) =
    ((r.name, SymbolValue.absolute v) ∷ symbols, unresolved, rw (e, q) refl)
gather_step states r rs symbols unresolved (base v) e u =
    ((r.name, v) ∷ symbols, unresolved, rw e refl)
gather_step states r rs symbols unresolved undefined e u =
    ((r.name, SymbolValue.undefined) ∷ symbols, unresolved ++ (r.name ∷ []), rw e refl)

-- Where every reference is usable, the symbols are gathered.
pub gather_all :
    (states : List ResolutionState) (k : ℕ) (refs : List Reference)
    (symbols : List (Bytes × SymbolValue)) (unresolved : List Bytes)
    → get_elem? refs k ≡ none
    → Passed states k refs
    → (known : List (Bytes × SymbolValue)) × (names : List Bytes) × (gather states refs symbols
          unresolved
        ≡ gathered known names)
unfolding gather Passed
gather_all states k [] symbols unresolved e p = (symbols, unresolved, refl)
gather_all states zero (r ∷ rs) symbols unresolved e p = cc
gather_all states (suc k) (r ∷ rs) symbols unresolved e (u, p) =
    let (known, names, q) = gather_step states r rs symbols unresolved r.dependency refl u in
    let (known', names', q') = gather_all states k rs known names e p in (known', names', q ∙ q')

-- The first reference to a failed assignment stops the gathering with its error.
pub gather_stop :
    (states : List ResolutionState) (k : ℕ) (refs : List Reference)
    (symbols : List (Bytes × SymbolValue)) (unresolved : List Bytes) (r : Reference) (t : ℕ)
    (error : AbsoluteAssignmentError)
    → get_elem? refs k ≡ some r
    → r.dependency ≡ assignment t
    → state_at states t ≡ resolved (failed error)
    → Passed states k refs
    → gather states refs symbols unresolved ≡ stopped error
unfolding gather Passed
gather_stop states k [] symbols unresolved r t error e d q p = cc
gather_stop states zero (x ∷ rs) symbols unresolved r t error e d q p =
    let same : x ≡ r = ground arith in rw (same, d, q) refl
gather_stop states (suc k) (x ∷ rs) symbols unresolved r t error e d q (u, p) =
    let (known, names, f) = gather_step states x rs symbols unresolved x.dependency refl u in
    f ∙ gather_stop states k rs known names r t error e d q p

module _ (states later : List ResolutionState) (x : Extends states later) (r : Reference)
    (rs : List Reference) (g : Gathered) (n : g ≢ unreachable)
    (again : (known : List (Bytes × SymbolValue)) (names : List Bytes)
      → gather states rs known names ≡ g
      → gather later rs known names ≡ g) where
  gather_assignment :
      (symbols : List (Bytes × SymbolValue)) (unresolved : List Bytes) (t : ℕ) (s : ResolutionState)
      → r.dependency ≡ assignment t
      → state_at states t ≡ s
      → gather states (r ∷ rs) symbols unresolved ≡ g
      → gather later (r ∷ rs) symbols unresolved ≡ g
  unfolding gather
  gather_assignment symbols unresolved t unvisited e q h = absurd (n (sym (rw (e, q) at h)))
  gather_assignment symbols unresolved t visiting e q h = absurd (n (sym (rw (e, q) at h)))
  gather_assignment symbols unresolved t (resolved (value v)) e q h =
      rw (e, x.kept t (value v) q)
        (again ((r.name, SymbolValue.absolute v) ∷ symbols) unresolved (rw (e, q) at h))
  gather_assignment symbols unresolved t (resolved (failed error)) e q h =
      rw (e, x.kept t (failed error) q) (rw (e, q) at h)

  gather_reference :
      (symbols : List (Bytes × SymbolValue)) (unresolved : List Bytes) (d : AssignmentDependency)
      → r.dependency ≡ d
      → gather states (r ∷ rs) symbols unresolved ≡ g
      → gather later (r ∷ rs) symbols unresolved ≡ g
  unfolding gather
  gather_reference symbols unresolved (assignment t) e h =
      gather_assignment symbols unresolved t (state_at states t) e refl h
  gather_reference symbols unresolved (base v) e h =
      rw e (again ((r.name, v) ∷ symbols) unresolved (rw e at h))
  gather_reference symbols unresolved undefined e h =
      rw e (
        again ((r.name, SymbolValue.undefined) ∷ symbols) (unresolved ++ (r.name ∷ [])) (rw e at h))

-- What is gathered stays so.
gather-Extends :
    (states later : List ResolutionState) (refs : List Reference)
    (symbols : List (Bytes × SymbolValue)) (unresolved : List Bytes) (g : Gathered)
    → Extends states later
    → gather states refs symbols unresolved ≡ g
    → g ≢ unreachable
    → gather later refs symbols unresolved ≡ g
unfolding gather
gather-Extends states later [] symbols unresolved g x e n = e
gather-Extends states later (r ∷ rs) symbols unresolved g x e n =
    gather_reference states later x r rs g n
      (λ known names h. gather-Extends states later rs known names g x h n) symbols unresolved
      r.dependency refl e

answer_at :
    (states later : List ResolutionState) (refs : List Reference) (i : ℕ) (a : Bytes × Expr)
    (g : Gathered) {answer : Answer}
    → gather states refs [] [] ≡ g
    → (g ≢ unreachable → gather later refs [] [] ≡ g)
    → evaluate_assignment states refs i a ≡ some answer
    → evaluate_assignment later refs i a ≡ some answer
unfolding evaluate_assignment
answer_at states later refs i (name, e) unreachable h f q = cc (rw (h, evaluate_assignment) at q)
answer_at states later refs i (name, e) (stopped error) h f q =
    let l = f (λ c. cc) in rw (l, evaluate_assignment) (rw (h, evaluate_assignment) at q)
answer_at states later refs i (name, e) (gathered known names) h f q =
    let l = f (λ c. cc) in rw (l, evaluate_assignment) (rw (h, evaluate_assignment) at q)

-- An evaluation that succeeds gives the same answer later.
pub evaluate-Extends :
    (states later : List ResolutionState) (refs : List Reference) (i : ℕ) (a : Bytes × Expr)
    {answer : Answer}
    → Extends states later
    → evaluate_assignment states refs i a ≡ some answer
    → evaluate_assignment later refs i a ≡ some answer
evaluate-Extends states later refs i a x h =
    let g = gather states refs [] [] in
    answer_at states later refs i a g refl (λ n. gather-Extends states later refs [] [] g x refl n)
      h
