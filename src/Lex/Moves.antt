-- ===== src/Lex/Moves.antt =====
-- The moves of the lexer of src/lex.rs along the text: a cursor is reached from another by stepping
-- over bytes, and keeps the line and column of its place.
use afs_as.Base.{
  ℕ, zero, suc, ◌+◌, ◌≤◌, ◌<◌, ◌≡◌, refl, sym, ap, ◌∙◌, Bool, true, Bool-cases, inl, inr, [], ◌∷◌,
  length, ◌==◌, arith,
}
use afs_as.Base.Bytes.{Bytes}
use mathlib.Core.Path.{subst}
use afs_as.Lex.Cursor.{
  Cursor, head_or_nul, tail_of, peek, peek2, step, advance, take_while, run_while,
}

abbrev pub left : Cursor → ℕ
left c = length c.rest

-- The cursor `n` bytes further.
unfoldable pub at_offset : ℕ → Cursor → Cursor
at_offset zero c = c
at_offset (suc n) c = at_offset n (advance c)

-- `c'` stands some bytes behind `c`, within the text.
abbrev pub Moves : Cursor → Cursor → Type 0
Moves c c' = (n : ℕ) × (n ≤ left c) × (c' ≡ at_offset n c)

-- At least one byte behind.
abbrev pub Passes : Cursor → Cursor → Type 0
Passes c c' = (n : ℕ) × (1 ≤ n) × (n ≤ left c) × (c' ≡ at_offset n c)

-- A line and a column at or behind `c`.
abbrev pub Located : Cursor → ℕ → ℕ → Type 0
Located c line col =
    (n : ℕ) × (n ≤ left c) × (line ≡ (at_offset n c).line) × (col ≡ (at_offset n c).col)

step_rest : (b : ℕ) (bs : Bytes) (line col : ℕ) → (step b bs line col).rest ≡ bs
step_rest b bs line col = elim (Bool-cases (b == b'\n')) [ inl e ↦ rw e refl | inr e ↦ rw e refl ]

step_eta :
    (b : ℕ) (bs : Bytes) (line col : ℕ)
    → record { rest = bs; line = (step b bs line col).line; col = (step b bs line col).col }
      ≡ step b bs line col
step_eta b bs line col = elim (Bool-cases (b == b'\n')) [ inl e ↦ rw e refl | inr e ↦ rw e refl ]

pub advance_rest : (c : Cursor) → (advance c).rest ≡ tail_of c.rest
advance_rest c = step_rest (peek c) (tail_of c.rest) c.line c.col

head_tail : (bs : Bytes) → 1 ≤ length bs → bs ≡ head_or_nul bs ∷ tail_of bs
head_tail [] h = absurd (omega (arith, h))
head_tail (b ∷ bs) h = refl

-- A cursor's text is its first byte and what the next cursor has.
pub peel : (c : Cursor) → 1 ≤ left c → c.rest ≡ peek c ∷ (advance c).rest
peel c h = head_tail c.rest h ∙ ap (λ (bs : Bytes). peek c ∷ bs) (sym (advance_rest c))

left-step :
    (bs : Bytes) (line col : ℕ)
    → 1 ≤ length bs
    → length bs ≡ left (advance (record { rest = bs; line = line; col = col })) + 1
left-step [] line col h = absurd (omega (arith, h))
left-step (b ∷ bs) line col h = rw (step_rest b bs line col) (omega arith)

pub left-advance : (c : Cursor) → 1 ≤ left c → left c ≡ left (advance c) + 1
left-advance c = left-step c.rest c.line c.col

pub left-at_offset : (n : ℕ) (c : Cursor) → n ≤ left c → left c ≡ left (at_offset n c) + n
unfolding at_offset
left-at_offset zero c h = omega arith
left-at_offset (suc n) c h =
    let e = left-advance c (omega arith) in
    let f = left-at_offset n (advance c) (omega (arith, e)) in omega (arith, e, f)

pub at_offset_add : (n m : ℕ) (c : Cursor) → at_offset m (at_offset n c) ≡ at_offset (n + m) c
unfolding at_offset
at_offset_add zero m c = let e : 0 + m ≡ m = omega arith in rw e refl
at_offset_add (suc n) m c =
    let e : suc n + m ≡ suc (n + m) = omega arith in rw e (at_offset_add n m (advance c))

pub stay : (c : Cursor) → Moves c c
unfolding at_offset
stay c = (0, omega arith, refl)

pub hop : (c : Cursor) → 1 ≤ left c → Passes c (advance c)
unfolding at_offset
hop c h = (1, omega arith, h, refl)

pub Passes-Moves : (c c' : Cursor) → Passes c c' → Moves c c'
Passes-Moves c c' (n, p, r, e) = (n, r, e)

pub Moves-trans : (a b c : Cursor) → Moves a b → Moves b c → Moves a c
Moves-trans a b c (n, r, e) (m, s, f) =
    let room = left-at_offset n a r in
    let s' : m ≤ left (at_offset n a) = rw e at s in
    (n + m, omega (arith, room, s'), f ∙ rw e (at_offset_add n m a))

pub Passes-Moves-trans : (a b c : Cursor) → Passes a b → Moves b c → Passes a c
Passes-Moves-trans a b c (n, p, r, e) m =
    let (k, s, f) = m in
    let room = left-at_offset n a r in
    let s' : k ≤ left (at_offset n a) = rw e at s in
    (n + k, omega (arith, p), omega (arith, room, s'), f ∙ rw e (at_offset_add n k a))

pub Moves-Passes-trans : (a b c : Cursor) → Moves a b → Passes b c → Passes a c
Moves-Passes-trans a b c (n, r, e) (k, p, s, f) =
    let room = left-at_offset n a r in
    let s' : k ≤ left (at_offset n a) = rw e at s in
    (n + k, omega (arith, p), omega (arith, room, s'), f ∙ rw e (at_offset_add n k a))

pub Moves-left : (a b : Cursor) → Moves a b → left b ≤ left a
Moves-left a b (n, r, e) = rw e (omega (arith, left-at_offset n a r))

pub Passes-left : (a b : Cursor) → Passes a b → left b < left a
Passes-left a b (n, p, r, e) = rw e (omega (arith, left-at_offset n a r, p))

pub here : (c : Cursor) → Located c c.line c.col
unfolding at_offset
here c = (0, omega arith, refl, refl)

pub Moves-Located :
    (a b : Cursor) (line col : ℕ) → Moves a b → Located b line col → Located a line col
Moves-Located a b line col (n, r, e) (m, s, f, g) =
    let room = left-at_offset n a r in
    let s' : m ≤ left (at_offset n a) = rw e at s in
    let sum : at_offset m b ≡ at_offset (n + m) a = rw e (at_offset_add n m a) in
    (
      n + m,
      omega (arith, room, s'),
      f ∙ ap (λ (c : Cursor). c.line) sum,
      g ∙ ap (λ (c : Cursor). c.col) sum,
    )

one_byte : (bs : Bytes) → 1 ≤ head_or_nul bs → 1 ≤ length bs
one_byte [] h = absurd (omega (arith, h))
one_byte (b ∷ bs) h = omega arith

two_bytes : (bs : Bytes) → 1 ≤ head_or_nul (tail_of bs) → 2 ≤ length bs
two_bytes [] h = absurd (omega (arith, h))
two_bytes (b ∷ []) h = absurd (omega (arith, h))
two_bytes (b ∷ d ∷ bs) h = omega arith

pub peek-left : (c : Cursor) → 1 ≤ peek c → 1 ≤ left c
peek-left c = one_byte c.rest

pub peek2-left : (c : Cursor) → 1 ≤ peek2 c → 2 ≤ left c
peek2-left c = two_bytes c.rest

-- Two bytes further.
pub hop_twice : (c : Cursor) → 2 ≤ left c → Passes c (advance (advance c))
hop_twice c h =
    let e = left-advance c (omega (arith, h)) in
    Passes-Moves-trans c (advance c) (advance (advance c)) (hop c (omega (arith, h)))
      (Passes-Moves (advance c) (advance (advance c)) (hop (advance c) (omega (arith, h, e))))

-- The rest of a loop, started behind the byte `b`.
pub from_step :
    (b : ℕ) (bs : Bytes) (line col : ℕ) (c : Cursor)
    → Moves
        (record { rest = bs; line = (step b bs line col).line; col = (step b bs line col).col })
        c
    → Moves (step b bs line col) c
from_step b bs line col c m = subst (λ (start : Cursor). Moves start c) (step_eta b bs line col) m

pub take_while-Moves :
    (test : ℕ → Bool) (bs : Bytes) (line col : ℕ)
    → Moves (record { rest = bs; line = line; col = col }) (take_while test bs line col).1
unfolding take_while
take_while-Moves test [] line col = stay (record { rest = []; line = line; col = col })
take_while-Moves test (b ∷ bs) line col =
    let c : Cursor = record { rest = b ∷ bs; line = line; col = col } in
    let next = step b bs line col in
    let behind = (take_while test bs next.line next.col).1 in
    let more = from_step b bs line col behind (take_while-Moves test bs next.line next.col) in
    let all : Moves c behind =
      Moves-trans c (advance c) behind (Passes-Moves c (advance c) (hop c (omega arith))) more in
    elim (Bool-cases (test b)) [ inl hit ↦ rw hit all | inr miss ↦ rw miss (stay c) ]

pub run_while-Moves : (test : ℕ → Bool) (c : Cursor) → Moves c (run_while test c).1
run_while-Moves test c = take_while-Moves test c.rest c.line c.col

take_while-Passes :
    (test : ℕ → Bool) (bs : Bytes) (line col : ℕ) {x : ℕ} {xs : Bytes}
    → (take_while test bs line col).0 ≡ x ∷ xs
    → Passes (record { rest = bs; line = line; col = col }) (take_while test bs line col).1
unfolding take_while
take_while-Passes test [] line col e = cc
take_while-Passes test (b ∷ bs) line col {x} {xs} e =
    let c : Cursor = record { rest = b ∷ bs; line = line; col = col } in
    let next = step b bs line col in
    let behind = (take_while test bs next.line next.col).1 in
    let more = from_step b bs line col behind (take_while-Moves test bs next.line next.col) in
    let all : Passes c behind =
      Passes-Moves-trans c (advance c) behind (hop c (omega arith)) more in
    elim (Bool-cases (test b)) [
      | inl hit ↦ rw hit all
      | inr miss ↦ let none_taken : [] ≡ x ∷ xs = rw miss at e in cc
    ]

-- A byte is passed over where any is taken.
pub run_while-Passes :
    (test : ℕ → Bool) (c : Cursor) {x : ℕ} {xs : Bytes}
    → (run_while test c).0 ≡ x ∷ xs
    → Passes c (run_while test c).1
run_while-Passes test c e = take_while-Passes test c.rest c.line c.col e

take_while_first :
    (test : ℕ → Bool) (bs : Bytes) (line col : ℕ)
    → 1 ≤ length bs
    → test (head_or_nul bs) ≡ true
    → Passes (record { rest = bs; line = line; col = col }) (take_while test bs line col).1
unfolding take_while
take_while_first test [] line col room h = absurd (omega (arith, room))
take_while_first test (b ∷ bs) line col room h =
    take_while-Passes test (b ∷ bs) line col {x = b}
      {xs = (take_while test bs (step b bs line col).line (step b bs line col).col).0} (rw h refl)

-- A byte is passed over where the first one passes the test.
pub run_while_first :
    (test : ℕ → Bool) (c : Cursor)
    → 1 ≤ left c
    → test (peek c) ≡ true
    → Passes c (run_while test c).1
run_while_first test c room h = take_while_first test c.rest c.line c.col room h
