-- ===== src/Lex/Strings.antt =====
-- String literals and block comments of src/lex.rs end inside the text, and an error names where
-- they start.
use afs_as.Base.{
  ℕ, zero, suc, ◌-◌, ◌*◌, ◌%◌, ◌^◌, ◌≤◌, ◌<◌, ◌≡◌, refl, ap, ◌∙◌, inl, inr, true, false, Bool-cases,
  not, ◌&&◌, ◌||◌, [], ◌∷◌, ◌++◌, length, ◌==◌, arith,
}
use Prim.Native.Nat.{bit_or}
use afs_as.Base.Bytes.{Bytes}
use afs_as.Lex.Cursor.{
  Cursor, head_or_nul, tail_of, peek, at_end, step, advance, run_while, is_hexdigit, block_comment,
  skip_block_comment,
}
use afs_as.Lex.Gap.{Closes}
use mathlib.Core.Path.{subst}
use afs_as.Lex.Literals.{IsAt}
use afs_as.Lex.Moves.{
  left, left-advance, advance_rest, Moves, Passes, stay, hop, hop_twice, Passes-Moves, Moves-trans,
  Passes-Moves-trans, Passes-left, run_while-Moves, from_step,
}
use afs_as.Lex.Outcome.{Outcome, if-Outcome, elim-Outcome, bind-Outcome, map-Outcome}
use afs_as.Lex.Str.{
  at_line_end, is_octal, octal_digits, read_escape, string_body, read_string_literal,
}

bytes_inside : (bs : Bytes) → elim bs [ [] ↦ true | _ ∷ _ ↦ false ] ≡ false → 1 ≤ length bs
bytes_inside [] h = cc
bytes_inside (b ∷ bs) h = omega arith

pub inside : (c : Cursor) → at_end c ≡ false → 1 ≤ left c
inside c = bytes_inside c.rest

octal_digits-Moves : (n value : ℕ) (c : Cursor) → Moves c (octal_digits n value c).1
unfolding octal_digits
octal_digits-Moves zero value c = stay c
octal_digits-Moves (suc n) value c = elim (Bool-cases (not (at_end c) && is_octal (peek c))) [
  | inl more ↦
      let room : 1 ≤ left c = inside c (ground arith) in
      let next = bit_or (value * 2 ^ 3 % 2 ^ 16) (peek c - b'0') in
      let behind = (octal_digits n next (advance c)).1 in
      rw more (
        Moves-trans c (advance c) behind (Passes-Moves c (advance c) (hop c room))
          (octal_digits-Moves n next (advance c)))
  | inr done ↦ rw done (stay c)
]

read_escape_lem :
    (line col esc : ℕ) (c : Cursor)
    → Outcome (λ (r : Bytes × Cursor). Moves c r.1) (IsAt line col) (read_escape line col esc c)
unfolding read_escape Outcome
read_escape_lem line col esc c =
    let good = λ (r : Bytes × Cursor). Moves c r.1 in
    let bad = IsAt line col in
    if-Outcome good bad (esc == b'a' || esc == b'v') _ _ (λ h. (refl, refl))
      (λ h.
        if-Outcome good bad (esc == b'b') _ _ (λ h. stay c)
          (λ h.
            if-Outcome good bad (esc == b'f') _ _ (λ h. stay c)
              (λ h.
                if-Outcome good bad (esc == b'n') _ _ (λ h. stay c)
                  (λ h.
                    if-Outcome good bad (esc == b't') _ _ (λ h. stay c)
                      (λ h.
                        if-Outcome good bad (esc == b'r') _ _ (λ h. stay c)
                          (λ h.
                            if-Outcome good bad (is_octal esc) _ _
                              (λ h. octal_digits-Moves 2 (esc - b'0') c)
                              (λ h.
                                if-Outcome good bad (esc == b'x') _ _
                                  (λ h.
                                    elim-Outcome good bad (run_while is_hexdigit c).0 _ _
                                      (λ e. (refl, refl)) (λ x xs e. run_while-Moves is_hexdigit c))
                                  (λ h.
                                    if-Outcome good bad (esc == b'\\') _ _ (λ h. stay c)
                                      (λ h.
                                        if-Outcome good bad (esc == b'"') _ _ (λ h. stay c)
                                          (λ h. stay c))))))))))

string_body_lem :
    (fuel line col : ℕ) (buf : Bytes) (c : Cursor)
    → left c < fuel
    → Outcome
        (λ (r : Bytes × Cursor). Passes c r.1)
        (IsAt line col)
        (string_body fuel line col buf c)
unfolding string_body Outcome
string_body_lem zero line col buf c enough = absurd (omega (arith, enough))
string_body_lem (suc fuel) line col buf c enough =
    let good = λ (r : Bytes × Cursor). Passes c r.1 in
    let bad = IsAt line col in
    let c1 = advance c in
    if-Outcome good bad (at_line_end c) _ _ (λ h. (refl, refl))
      (λ h.
        let room : 1 ≤ left c = inside c (ground arith) in
        let less = left-advance c room in
        if-Outcome good bad (peek c == b'"') _ _ (λ g. hop c room)
          (λ g.
            if-Outcome good bad (peek c == b'\\') _ _
              (λ k.
                if-Outcome good bad (at_line_end c1) _ _ (λ m. (refl, refl))
                  (λ m.
                    let room1 : 1 ≤ left c1 = inside c1 (ground arith) in
                    let c2 = advance c1 in
                    let two = hop_twice c (omega (arith, less, room1)) in
                    bind-Outcome good bad (λ (r : Bytes × Cursor). Moves c2 r.1)
                      (read_escape line col (peek c1) c2) _ (read_escape_lem line col (peek c1) c2)
                      (λ (added, c3) moved.
                        let start = Passes-Moves-trans c c2 c3 two moved in
                        map-Outcome good bad (λ (r : Bytes × Cursor). Passes c3 r.1) bad _
                          (string_body_lem fuel line col (buf ++ added) c3
                            (omega (arith, Passes-left c c3 start, enough)))
                          (λ r passed.
                            Passes-Moves-trans c c3 r.1 start (Passes-Moves c3 r.1 passed))
                          (λ e at. at))))
              (λ k.
                map-Outcome good bad (λ (r : Bytes × Cursor). Passes c1 r.1) bad _
                  (string_body_lem fuel line col (buf ++ (peek c ∷ [])) c1
                    (omega (arith, less, enough)))
                  (λ r passed.
                    Passes-Moves-trans c c1 r.1 (hop c room) (Passes-Moves c1 r.1 passed))
                  (λ e at. at))))

pub read_string_literal_lem :
    (c : Cursor)
    → 1 ≤ left c
    → Outcome (λ (r : Bytes × Cursor). Passes c r.1) (IsAt c.line c.col) (read_string_literal c)
unfolding read_string_literal
read_string_literal_lem c room =
    let c1 = advance c in
    map-Outcome (λ (r : Bytes × Cursor). Passes c r.1) (IsAt c.line c.col)
      (λ (r : Bytes × Cursor). Passes c1 r.1) (IsAt c.line c.col) _
      (string_body_lem (suc (left c)) c.line c.col [] c1 (omega (arith, left-advance c room)))
      (λ r passed. Passes-Moves-trans c c1 r.1 (hop c room) (Passes-Moves c1 r.1 passed))
      (λ e at. at)

Closes-here :
    (b : ℕ) (bs rest : Bytes)
    → (b == b'*' && head_or_nul bs == b'/') ≡ true
    → rest ≡ tail_of bs
    → Closes (b ∷ bs) rest
Closes-here b [] rest h e = absurd (ground arith)
Closes-here b (d ∷ bs) rest h e =
    let star : b ≡ b'*' = ground arith in
    let slash : d ≡ b'/' = ground arith in
    record { body = []; parts = rw (star, slash, e) refl; inner = tt }

head_inside :
    (body : Bytes) (tail : Bytes) → head_or_nul body ≡ b'/' → head_or_nul (body ++ tail) ≡ b'/'
head_inside [] tail h = absurd (omega (arith, h))
head_inside (b ∷ body) tail h = h

Closes-later :
    (b : ℕ) (bs rest : Bytes)
    → (b == b'*' && head_or_nul bs == b'/') ≡ false
    → Closes bs rest
    → Closes (b ∷ bs) rest
Closes-later b bs rest h closed = record {
  body = b ∷ closed.body;
  parts = ap (λ (t : Bytes). b ∷ t) closed.parts;
  inner = (
    (λ (star, slash).
        let next : head_or_nul bs ≡ b'/' =
          ap head_or_nul closed.parts ∙ head_inside closed.body (b'*' ∷ b'/' ∷ rest) slash in
        absurd (ground (arith, h, star, next))),
    closed.inner,
  );
}

block_comment_lem :
    (line0 col0 : ℕ) (bs : Bytes) (line col : ℕ)
    → Outcome
        (λ (c1 : Cursor).
          Moves (record { rest = bs; line = line; col = col }) c1 × Closes bs c1.rest)
        (IsAt line0 col0)
        (block_comment line0 col0 bs line col)
unfolding block_comment Outcome
block_comment_lem line0 col0 [] line col = (refl, refl)
block_comment_lem line0 col0 (b ∷ bs) line col =
    let c : Cursor = record { rest = b ∷ bs; line = line; col = col } in
    let next = step b bs line col in
    let good = λ (c1 : Cursor). Moves c c1 × Closes (b ∷ bs) c1.rest in
    let bad = IsAt line0 col0 in
    if-Outcome good bad (b == b'*' && head_or_nul bs == b'/') _ _
      (λ h.
        let more : 1 ≤ head_or_nul bs = ground arith in
        (
          Passes-Moves c (advance next) (hop_twice c (two_left b bs more)),
          Closes-here b bs (advance next).rest h (advance_rest next ∙ ap tail_of (advance_rest c)),
        ))
      (λ h.
        map-Outcome good bad
          (λ (c1 : Cursor).
            Moves (record { rest = bs; line = next.line; col = next.col }) c1 × Closes bs c1.rest)
          bad _ (block_comment_lem line0 col0 bs next.line next.col)
          (λ behind (moved, closed). (
            Moves-trans c next behind (Passes-Moves c next (hop c (omega arith)))
                (from_step b bs line col behind moved),
            Closes-later b bs behind.rest h closed,
          ))
          (λ e at. at))
  where
    two_left : (b : ℕ) (bs : Bytes) → 1 ≤ head_or_nul bs → 2 ≤ length (b ∷ bs)
    two_left b [] h = absurd (omega (arith, h))
    two_left b (d ∷ bs) h = omega arith

pub skip_block_comment_lem :
    (c : Cursor)
    → 2 ≤ left c
    → Outcome
        (λ (c1 : Cursor). Passes c c1 × Closes (tail_of (tail_of c.rest)) c1.rest)
        (IsAt c.line c.col)
        (skip_block_comment c)
unfolding skip_block_comment
skip_block_comment_lem c room =
    let c2 = advance (advance c) in
    let ahead : c2.rest ≡ tail_of (tail_of c.rest) =
      advance_rest (advance c) ∙ ap tail_of (advance_rest c) in
    map-Outcome (λ (c1 : Cursor). Passes c c1 × Closes (tail_of (tail_of c.rest)) c1.rest)
      (IsAt c.line c.col) (λ (c1 : Cursor). Moves c2 c1 × Closes c2.rest c1.rest)
      (IsAt c.line c.col) _ (block_comment_lem c.line c.col c2.rest c2.line c2.col)
      (λ behind (moved, closed). (
        Passes-Moves-trans c c2 behind (hop_twice c room) moved,
        subst (λ (t : Bytes). Closes t behind.rest) ahead closed,
      ))
      (λ e at. at)
