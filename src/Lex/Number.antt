-- ===== src/Lex/Number.antt =====
-- `read_number_literal` and `integer_token` of src/lex.rs.
use afs_as.Base.{
  ℕ, ◌+◌, ◌-◌, ◌*◌, ◌^◌, Bool, true, false, ◌&&◌, ◌||◌, [], ◌∷◌, ◌++◌, leb, ltb, ◌==◌,
  if◌then◌else◌, Result, ok, err, ◌>>=◌,
}
use afs_as.Base.Bytes.{Bytes}
use afs_as.Base.Int.{pos, negate}
use afs_as.Lex.{
  Tok, integer, unsigned_integer, float, LexError, LexMessage, expected_hex_digits, invalid_hex,
  invalid_integer, integer_overflows,
}
use afs_as.Lex.Cursor.{Cursor, peek, peek2, advance, run_while, is_digit, is_hexdigit}

abbrev pub fail : {A : Type 0} → ℕ → ℕ → LexMessage → Result LexError A
fail line col m = err (record { line = line; col = col; msg = m })

-- `char::to_digit`
unfoldable pub digit_value : ℕ → ℕ
digit_value b = if leb b b'9' then b - b'0' else if leb b'a' b then b - b'a' + 10 else b - b'A' + 10

unfoldable pub digits_value : ℕ → ℕ → Bytes → ℕ
digits_value base acc [] = acc
digits_value base acc (b ∷ bs) = digits_value base (acc * base + digit_value b) bs

unfoldable pub integer_token : ℕ → Bool → ℕ → ℕ → Result LexError Tok
integer_token val true line col =
    if ltb (2 ^ 63) val
    then fail line col (integer_overflows val)
    else ok (integer (negate (pos val)))
integer_token val false line col =
    if ltb (2 ^ 63 - 1) val then ok (unsigned_integer val) else ok (integer (pos val))

-- The branch behind `0x`: `c` stands behind the prefix.
unfoldable pub read_hex : Bool → ℕ → ℕ → Cursor → Result LexError (Tok × Cursor)
read_hex negative line col c =
    let run = run_while is_hexdigit c in
    let val = digits_value 16 0 run.0 in
    let found : Result LexError (Tok × Cursor) = (do
      tok ← integer_token val negative line col
      ok (tok, run.1)) in
    elim run.0 [
      | [] ↦ fail line col expected_hex_digits
      | _ ∷ _ ↦ if ltb val (2 ^ 64) then found else fail line col invalid_hex
    ]

abbrev sign_bytes : Bool → Bytes
sign_bytes true = b'-' ∷ []
sign_bytes false = []

unfoldable pub read_decimal : Bool → ℕ → ℕ → Cursor → Result LexError (Tok × Cursor)
read_decimal negative line col c =
    let run = run_while is_digit c in
    let c1 = run.1 in
    let fraction = run_while is_digit (advance c1) in
    let val = digits_value 10 0 run.0 in
    let found : Result LexError (Tok × Cursor) = (do
      tok ← integer_token val negative line col
      ok (tok, c1)) in
    let whole : Result LexError (Tok × Cursor) = elim run.0 [
      | [] ↦ fail line col invalid_integer
      | _ ∷ _ ↦ if ltb val (2 ^ 64) then found else fail line col invalid_integer
    ] in
    if peek c1 == b'.' && is_digit (peek2 c1)
    then ok (float (sign_bytes negative ++ (run.0 ++ (b'.' ∷ fraction.0))), fraction.1)
    else whole

unfoldable pub read_unsigned : Bool → ℕ → ℕ → Cursor → Result LexError (Tok × Cursor)
read_unsigned negative line col c =
    if peek c == b'0' && (peek2 c == b'x' || peek2 c == b'X')
    then read_hex negative line col (advance (advance c))
    else read_decimal negative line col c

unfoldable pub read_number_literal : Cursor → Result LexError (Tok × Cursor)
read_number_literal c =
    if peek c == b'-'
    then read_unsigned true c.line c.col (advance c)
    else read_unsigned false c.line c.col c
