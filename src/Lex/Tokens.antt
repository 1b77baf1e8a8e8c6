-- ===== src/Lex/Tokens.antt =====
-- One token of src/lex.rs: `next_token` answers with a token that takes at least a byte, or with the
-- end, and never runs out of fuel.
use afs_as.Base.{
  ℕ, zero, suc, ◌≤◌, ◌<◌, ◌≡◌, ◌⊎◌, refl, ap, ◌∙◌, inl, inr, true, false, Bool-cases, not, ◌&&◌,
  ◌||◌, Option, none, some, [], ◌∷◌, length, ◌==◌, ok, arith,
}
use afs_as.Base.Bytes.{Bytes}
use afs_as.Lex.{Tok, eof, Token, LexError}
use afs_as.Lex.Cursor.{
  Cursor, tail_of, peek, peek2, at_end, advance, run_while, skip_whitespace, skip_line_comment,
  skip_block_comment, is_blank, is_digit, is_ident_start, is_ident_cont,
}
use afs_as.Lex.Covers.{Reads, NumberFits-TokFits, NumberFits-Covers, Mark, punctuation-Mark}
use afs_as.Lex.Gap.{
  Gap, nothing, Closes, skip_whitespace-Gap, take_while-split, skip_line_comment-Gap,
  block_comment-Gap,
}
use afs_as.Lex.Literals.{IsAt, ReadsNumber, read_number_literal_lem}
use afs_as.Lex.Moves.{
  left, Moves, Passes, Located, stay, hop, here, Passes-Moves, Moves-trans, Passes-Moves-trans,
  Moves-Passes-trans, peel, Moves-left, Passes-left, Moves-Located, peek2-left, run_while-Moves,
  run_while_first,
}
use afs_as.Lex.Number.{read_number_literal}
use afs_as.Lex.Outcome.{Outcome, if-Outcome, bind-Outcome, map-Outcome}
use afs_as.Lex.Scan.{
  punctuation, read_hash, read_dot, read_word, read_token, make_tok, next_token_within, next_token,
}
use afs_as.Lex.Str.{read_string_literal}
use afs_as.Lex.Strings.{inside, read_string_literal_lem, skip_block_comment_lem}

-- An error at a place at or behind `c`.
abbrev pub IsWithin : Cursor → LexError → Type 0
IsWithin c e = Located c e.line e.col

IsAt-IsWithin :
    (c start : Cursor) (e : LexError) → Moves c start → IsAt start.line start.col e → IsWithin c e
IsAt-IsWithin c start e moved (l, k) =
    let (n, r, f, g) = Moves-Located c start start.line start.col moved (here start) in
    (n, r, l ∙ f, k ∙ g)

-- A number behind `c1`, which stands at or behind `c`.
number_Reads :
    (c c1 : Cursor) → Moves c c1 → Outcome (Reads c) (IsWithin c) (read_number_literal c1)
number_Reads c c1 moved =
    map-Outcome (Reads c) (IsWithin c) (ReadsNumber c1) (IsAt c1.line c1.col)
      (read_number_literal c1) (read_number_literal_lem c1)
      (λ (tok, c2) (fits, passed). (
        NumberFits-TokFits tok fits,
        NumberFits-Covers tok c.rest c2.rest fits,
        Moves-Passes-trans c c1 c2 moved passed,
      ))
      (λ e at. IsAt-IsWithin c c1 e moved at)

read_hash_lem :
    (c : Cursor)
    → 1 ≤ left c
    → (peek c == b'#') ≡ true
    → Outcome (Reads c) (IsWithin c) (read_hash c)
unfolding read_hash Outcome
read_hash_lem c room h =
    let c1 = skip_whitespace (advance c) in
    let passed =
      Passes-Moves-trans c (advance c) c1 (hop c room) (run_while-Moves is_blank (advance c)) in
    if-Outcome (Reads c) (IsWithin c) (not (at_end c1) && (is_digit (peek c1) || peek c1 == b'-')) _
      _ (λ _. number_Reads c c1 (Passes-Moves c c1 passed)) (λ _. (tt, ground (arith, h), passed))

read_dot_lem : (c : Cursor) → 1 ≤ left c → (peek c == b'.') ≡ true → Reads c (read_dot c)
unfolding read_dot
read_dot_lem c room k =
    let c1 = advance c in
    let run = run_while is_ident_cont c1 in
    let is_dot : peek c ≡ b'.' = ground (arith, k) in
    let first : c.rest ≡ b'.' ∷ c1.rest = peel c room ∙ ap (λ (b : ℕ). b ∷ c1.rest) is_dot in
    elim (Bool-cases (not (at_end c1) && is_ident_start (peek c1))) [
      | inl h ↦ rw h (
        tt,
        first
            ∙ ap (λ (t : Bytes). b'.' ∷ t) (take_while-split is_ident_cont c1.rest c1.line c1.col),
        Passes-Moves-trans c c1 run.1 (hop c room) (run_while-Moves is_ident_cont c1),
      )
      | inr h ↦ rw h (tt, first, hop c room)
    ]

start-cont : (b : ℕ) → is_ident_start b ≡ true → is_ident_cont b ≡ true
unfolding is_ident_start is_ident_cont
start-cont b h = ground arith

read_word_lem : (c : Cursor) → 1 ≤ left c → Outcome (Reads c) (IsWithin c) (read_word c)
unfolding read_word Outcome
read_word_lem c room =
    let good = Reads c in
    let bad = IsWithin c in
    if-Outcome good bad (peek c == b'#') _ _ (λ h. read_hash_lem c room h)
      (λ h.
        if-Outcome good bad (peek c == b'.') _ _ (λ h. read_dot_lem c room h)
          (λ h.
            if-Outcome good bad (peek c == b'"') _ _
              (λ quote.
                bind-Outcome good bad (λ (r : Bytes × Cursor). Passes c r.1) (read_string_literal c)
                  _
                  (map-Outcome (λ (r : Bytes × Cursor). Passes c r.1) bad
                    (λ (r : Bytes × Cursor). Passes c r.1) (IsAt c.line c.col) _
                    (read_string_literal_lem c room) (λ r passed. passed)
                    (λ e at. IsAt-IsWithin c c e (stay c) at))
                  (λ r passed. (tt, ground (arith, quote), passed)))
              (λ h.
                if-Outcome good bad (is_digit (peek c)) _ _ (λ h. number_Reads c c (stay c))
                  (λ h.
                    if-Outcome good bad (is_ident_start (peek c)) _ _
                      (λ h. (
                        tt,
                        take_while-split is_ident_cont c.rest c.line c.col,
                        run_while_first is_ident_cont c room (start-cont (peek c) h),
                      ))
                      (λ h. here c)))))

read_marked :
    (c : Cursor) (mark : Option Tok)
    → Mark (peek c) mark
    → 1 ≤ left c
    → Outcome (Reads c) (IsWithin c) (elim mark [ some t ↦ ok (t, advance c) | none ↦ read_word c ])
unfolding Outcome
read_marked c none m room = read_word_lem c room
read_marked c (some t) (fits, covers) room =
    (fits, covers c.rest (advance c).rest (peel c room), hop c room)

read_token_lem : (c : Cursor) → 1 ≤ left c → Outcome (Reads c) (IsWithin c) (read_token c)
unfolding read_token
read_token_lem c room = read_marked c (punctuation (peek c)) (punctuation-Mark (peek c)) room

-- What a call of `next_token` at `c` answers with: the place of the token, and either the end of the
-- text or a token behind which the cursor stands.
pub record Found (c : Cursor) (r : Token × Cursor) : Type 0 where
  pub start : Cursor
  pub moved : Moves c start
  pub gap : Gap c.rest start.rest
  pub line : r.0.line ≡ start.line
  pub col : r.0.col ≡ start.col
  pub taken : ((r.0.kind ≡ eof) × (left start ≡ 0)) ⊎ Reads start (r.0.kind, r.1)

-- What is skipped from `c` to `c1` belongs to a gap.
abbrev Skips : Cursor → Cursor → Type 0
Skips c c1 = (s : Bytes) → Gap c1.rest s → Gap c.rest s

Moves-Found :
    (c c1 : Cursor) (r : Token × Cursor) → Moves c c1 → Skips c c1 → Found c1 r → Found c r
Moves-Found c c1 r moved skips f = record {
  start = f.start;
  moved = Moves-trans c c1 f.start moved f.moved;
  gap = skips f.start.rest f.gap;
  line = f.line;
  col = f.col;
  taken = f.taken;
}

pub Moves-IsWithin : (c c1 : Cursor) (e : LexError) → Moves c c1 → IsWithin c1 e → IsWithin c e
Moves-IsWithin c c1 e moved at = Moves-Located c c1 e.line e.col moved at

outside : (bs : Bytes) → elim bs [ [] ↦ true | _ ∷ _ ↦ false ] ≡ true → length bs ≡ 0
outside [] h = refl
outside (b ∷ bs) h = cc

module _ (fuel : ℕ)
    (next : (c : Cursor)
      → left c < fuel
      → Outcome (Found c) (IsWithin c) (next_token_within fuel c)) where
  -- The call behind a comment, which has taken a byte.
  behind_comment :
      (c c1 : Cursor)
      → left c < suc fuel
      → Passes c c1
      → Skips c c1
      → Outcome (Found c) (IsWithin c) (next_token_within fuel c1)
  behind_comment c c1 enough passed skips =
      let moved = Passes-Moves c c1 passed in
      map-Outcome (Found c) (IsWithin c) (Found c1) (IsWithin c1) _
        (next c1 (omega (arith, Passes-left c c1 passed, enough)))
        (λ r. Moves-Found c c1 r moved skips) (λ e. Moves-IsWithin c c1 e moved)

  -- Behind the blanks, at `c`.
  pub next_token_step :
      (c0 : Cursor)
      → left c0 < suc fuel
      → Outcome (Found c0) (IsWithin c0) (next_token_within (suc fuel) c0)
  unfolding next_token_within Outcome
  next_token_step c0 enough0 =
      let c = skip_whitespace c0 in
      let moved : Moves c0 c = run_while-Moves is_blank c0 in
      let enough : left c < suc fuel = omega (arith, Moves-left c0 c moved, enough0) in
      let good = Found c in
      let bad = IsWithin c in
      let word = λ (room : 1 ≤ left c) (r : Tok × Cursor) (reads : Reads c r).
        let found : Found c (make_tok r.0 c, r.1) = record {
          start = c;
          moved = stay c;
          gap = nothing c.rest;
          line = refl;
          col = refl;
          taken = inr reads;
        } in
        found in
      map-Outcome (Found c0) (IsWithin c0) good bad _
        (if-Outcome good bad (at_end c) _ _
          (λ h. record {
            start = c;
            moved = stay c;
            gap = nothing c.rest;
            line = refl;
            col = refl;
            taken = inl (refl, outside c.rest h);
          })
          (λ h.
            let room = inside c h in
            if-Outcome good bad (peek c == b'/' && peek2 c == b'/') _ _
              (λ g.
                behind_comment c (skip_line_comment c) enough
                  (run_while_first (λ b. not (b == b'\n')) c room (ground arith))
                  (λ s. skip_line_comment-Gap c s (inr (ground (arith, g), ground (arith, g)))))
              (λ g.
                if-Outcome good bad (peek c == b'/' && peek2 c == b'*') _ _
                  (λ k.
                    bind-Outcome good bad
                      (λ (c1 : Cursor). Passes c c1 × Closes (tail_of (tail_of c.rest)) c1.rest)
                      (skip_block_comment c) _
                      (map-Outcome
                        (λ (c1 : Cursor). Passes c c1 × Closes (tail_of (tail_of c.rest)) c1.rest)
                        bad
                        (λ (c1 : Cursor). Passes c c1 × Closes (tail_of (tail_of c.rest)) c1.rest)
                        (IsAt c.line c.col) _
                        (skip_block_comment_lem c (peek2-left c (ground arith)))
                        (λ c1 passed. passed) (λ e at. IsAt-IsWithin c c e (stay c) at))
                      (λ c1 (passed, closed). behind_comment c c1 enough passed (λ s.
                        block_comment-Gap c.rest c1.rest s (ground (arith, k)) (ground (arith, k))
                          closed)))
                  (λ k.
                    if-Outcome good bad (peek c == b';') _ _
                      (λ m.
                        behind_comment c (skip_line_comment c) enough
                          (run_while_first (λ b. not (b == b'\n')) c room (ground arith))
                          (λ s. skip_line_comment-Gap c s (inl (ground (arith, m)))))
                      (λ m.
                        bind-Outcome good bad (Reads c) (read_token c) _ (read_token_lem c room)
                          (word room))))))
        (λ r. Moves-Found c0 c r moved (λ s. skip_whitespace-Gap c0 s))
        (λ e. Moves-IsWithin c0 c e moved)

next_token_within_lem :
    (fuel : ℕ) (c : Cursor)
    → left c < fuel
    → Outcome (Found c) (IsWithin c) (next_token_within fuel c)
next_token_within_lem zero c enough = absurd (omega (arith, enough))
next_token_within_lem (suc fuel) c enough =
    next_token_step fuel (next_token_within_lem fuel) c enough

pub next_token_lem : (c : Cursor) → Outcome (Found c) (IsWithin c) (next_token c)
unfolding next_token
next_token_lem c = next_token_within_lem (suc (left c)) c (omega arith)
