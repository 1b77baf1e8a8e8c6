-- ===== src/Lex/Literals.antt =====
-- Number and string literals of src/lex.rs: they take at least a byte, end inside the text, and an
-- error names where the literal starts.
use afs_as.Base.{
  ℕ, zero, suc, ◌-◌, ◌^◌, ◌≤◌, ◌<◌, ◌≡◌, refl, Bool, true, false, ◌&&◌, ◌||◌, ltb, ltb→lt, ◌==◌,
  if◌then◌else◌, ok, ◌>>=◌, arith,
}
use afs_as.Base.Int.{pos, negsuc, IsI64, negate, int_laws}
use afs_as.Lex.{
  Tok, integer, unsigned_integer, float, LexError, LexMessage, invalid_hex, invalid_integer,
}
use afs_as.Lex.Cursor.{Cursor, peek, peek2, advance, run_while, is_digit, is_hexdigit}
use afs_as.Lex.Number.{
  fail, digits_value, integer_token, read_hex, read_decimal, read_unsigned, read_number_literal,
}
use afs_as.Lex.Outcome.{Outcome, if-Outcome, elim-Outcome, bind-Outcome, map-Outcome}
use afs_as.Lex.Moves.{
  left, Passes, hop, hop_twice, Passes-Moves, Passes-Moves-trans, Moves-Passes-trans, peek-left,
  peek2-left, run_while-Moves, run_while-Passes,
}

-- A number, where the two integer tokens hold an i64, and a u64 that is none.
abbrev pub NumberFits : Tok → Type 0
NumberFits (integer v) = IsI64 v
NumberFits (unsigned_integer n) = (2 ^ 63 ≤ n) × (n < 2 ^ 64)
NumberFits (float bs) = Unit {0}
NumberFits _ = ⊥

-- An error at the line and column of a literal.
abbrev pub IsAt : ℕ → ℕ → LexError → Type 0
IsAt line col e = (e.line ≡ line) × (e.col ≡ col)

integer_token_lem :
    (val : ℕ) (negative : Bool) (line col : ℕ)
    → val < 2 ^ 64
    → Outcome NumberFits (IsAt line col) (integer_token val negative line col)
unfolding integer_token Outcome
integer_token_lem zero true line col small =
    let q : negate (pos 0) ≡ pos 0 = omega int_laws in rw q (omega arith, omega arith)
integer_token_lem (suc n) true line col small =
    if-Outcome NumberFits (IsAt line col) (ltb (2 ^ 63) (suc n)) _ _ (λ h. (refl, refl))
      (λ h.
        let q : negate (pos (suc n)) ≡ negsuc n = omega int_laws in
        rw q (omega arith, ground arith))
integer_token_lem val false line col small =
    if-Outcome NumberFits (IsAt line col) (ltb (2 ^ 63 - 1) val) _ _ (λ h. (ground arith, small))
      (λ h. (ground arith, omega arith))

-- A number in its range, behind at least a byte.
abbrev pub ReadsNumber : Cursor → Tok × Cursor → Type 0
ReadsNumber c r = NumberFits r.0 × Passes c r.1

-- The end of both branches: digits that fit a u64 give a token.
literal_lem :
    (val : ℕ) (negative : Bool) (line col : ℕ) (c behind : Cursor) (message : LexMessage)
    → Passes c behind
    → Outcome (ReadsNumber c) (IsAt line col) (
        if ltb val (2 ^ 64)
        then integer_token val negative line col >>= (λ tok. ok (tok, behind))
        else fail line col message)
unfolding Outcome
literal_lem val negative line col c behind message passed =
    if-Outcome (ReadsNumber c) (IsAt line col) (ltb val (2 ^ 64)) _ _
      (λ h.
        bind-Outcome (ReadsNumber c) (IsAt line col) NumberFits
          (integer_token val negative line col) _
          (integer_token_lem val negative line col (ltb→lt _ _ h)) (λ tok fits. (fits, passed)))
      (λ h. (refl, refl))

read_hex_lem :
    (negative : Bool) (line col : ℕ) (c : Cursor)
    → Outcome (ReadsNumber c) (IsAt line col) (read_hex negative line col c)
unfolding read_hex Outcome
read_hex_lem negative line col c =
    let behind = (run_while is_hexdigit c).1 in
    let val = digits_value 16 0 (run_while is_hexdigit c).0 in
    elim-Outcome (ReadsNumber c) (IsAt line col) (run_while is_hexdigit c).0 _ _
      (λ none_taken. (refl, refl))
      (λ x xs e.
        literal_lem val negative line col c behind invalid_hex (run_while-Passes is_hexdigit c e))

read_decimal_lem :
    (negative : Bool) (line col : ℕ) (c : Cursor)
    → Outcome (ReadsNumber c) (IsAt line col) (read_decimal negative line col c)
unfolding read_decimal Outcome
read_decimal_lem negative line col c =
    let c1 = (run_while is_digit c).1 in
    let whole_digits = run_while-Moves is_digit c in
    if-Outcome (ReadsNumber c) (IsAt line col) (peek c1 == b'.' && is_digit (peek2 c1)) _ _
      (λ h.
        let room : 1 ≤ left c1 = peek-left c1 (ground arith) in
        let behind = (run_while is_digit (advance c1)).1 in
        (
          tt,
          Moves-Passes-trans c c1 behind whole_digits (
              Passes-Moves-trans c1 (advance c1) behind (hop c1 room)
                (run_while-Moves is_digit (advance c1))),
        ))
      (λ h.
        let val = digits_value 10 0 (run_while is_digit c).0 in
        elim-Outcome (ReadsNumber c) (IsAt line col) (run_while is_digit c).0 _ _
          (λ none_taken. (refl, refl))
          (λ x xs e.
            literal_lem val negative line col c c1 invalid_integer (run_while-Passes is_digit c e)))

read_unsigned_lem :
    (negative : Bool) (line col : ℕ) (c : Cursor)
    → Outcome (ReadsNumber c) (IsAt line col) (read_unsigned negative line col c)
unfolding read_unsigned
read_unsigned_lem negative line col c =
    let prefixed = peek c == b'0' && (peek2 c == b'x' || peek2 c == b'X') in
    let behind = advance (advance c) in
    if-Outcome (ReadsNumber c) (IsAt line col) prefixed _ _
      (λ h.
        let room : 2 ≤ left c = peek2-left c (ground arith) in
        let jump = Passes-Moves c behind (hop_twice c room) in
        map-Outcome (ReadsNumber c) (IsAt line col) (ReadsNumber behind) (IsAt line col) _
          (read_hex_lem negative line col behind)
          (λ (tok, c1) (fits, passed). (fits, Moves-Passes-trans c behind c1 jump passed))
          (λ e h. h))
      (λ h. read_decimal_lem negative line col c)

pub read_number_literal_lem :
    (c : Cursor) → Outcome (ReadsNumber c) (IsAt c.line c.col) (read_number_literal c)
unfolding read_number_literal
read_number_literal_lem c =
    if-Outcome (ReadsNumber c) (IsAt c.line c.col) (peek c == b'-') _ _
      (λ h.
        let room : 1 ≤ left c = peek-left c (ground arith) in
        let jump = Passes-Moves c (advance c) (hop c room) in
        map-Outcome (ReadsNumber c) (IsAt c.line c.col) (ReadsNumber (advance c))
          (IsAt c.line c.col) _ (read_unsigned_lem true c.line c.col (advance c))
          (λ (tok, c1) (fits, passed). (fits, Moves-Passes-trans c (advance c) c1 jump passed))
          (λ e h. h))
      (λ h. read_unsigned_lem false c.line c.col c)
