-- ===== src/Lex/Str.antt =====
-- `read_string_literal` of src/lex.rs.
use afs_as.Base.{
  ℕ, zero, suc, ◌-◌, ◌*◌, ◌%◌, ◌^◌, Bool, not, ◌&&◌, ◌||◌, [], ◌∷◌, ◌++◌, length, ◌==◌,
  if◌then◌else◌, Result, ok, panic, ◌>>=◌,
}
use Prim.Native.Nat.{bit_or}
use afs_as.Base.Bytes.{Bytes}
use afs_as.Lex.{
  LexError, unterminated_string, unterminated_escape, invalid_escape, expected_hex_in_string,
}
use afs_as.Lex.Cursor.{Cursor, peek, at_end, advance, run_while, within, is_hexdigit}
use afs_as.Lex.Number.{fail, digit_value}

-- `pos >= len || peek() == b'\n'`
abbrev pub at_line_end : Cursor → Bool
at_line_end c = at_end c || peek c == b'\n'

unfoldable pub is_octal : ℕ → Bool
is_octal b = within b'0' b'7' b

-- Up to `n` more octal digits; the value is a u16.
unfoldable pub octal_digits : ℕ → ℕ → Cursor → ℕ × Cursor
octal_digits zero value c = (value, c)
octal_digits (suc n) value c =
    let more = octal_digits n (bit_or (value * 2 ^ 3 % 2 ^ 16) (peek c - b'0')) (advance c) in
    if not (at_end c) && is_octal (peek c) then more else (value, c)

-- `value = (value << 4) | digit` over all hex digits, on a u16.
unfoldable pub hex_value : ℕ → Bytes → ℕ
hex_value value [] = value
hex_value value (b ∷ bs) = hex_value (bit_or (value * 2 ^ 4 % 2 ^ 16) (digit_value b)) bs

-- What an escape adds to the text. `c` stands behind the byte `esc` that follows the backslash.
unfoldable pub read_escape : ℕ → ℕ → ℕ → Cursor → Result LexError (Bytes × Cursor)
read_escape line col esc c =
    let octal = octal_digits 2 (esc - b'0') c in
    let hex = run_while is_hexdigit c in
    let hex_found : Result LexError (Bytes × Cursor) = elim hex.0 [
      | [] ↦ fail line col expected_hex_in_string
      | _ ∷ _ ↦ ok (hex_value 0 hex.0 % 2 ^ 8 ∷ [], hex.1)
    ] in
    if esc == b'a' || esc == b'v'
    then fail line col invalid_escape
    else if esc == b'b'
    then ok (0x08 ∷ [], c)
    else if esc == b'f'
    then ok (0x0c ∷ [], c)
    else if esc == b'n'
    then ok (b'\n' ∷ [], c)
    else if esc == b't'
    then ok (b'\t' ∷ [], c)
    else if esc == b'r'
    then ok (b'\r' ∷ [], c)
    else if is_octal esc
    then ok (octal.0 % 2 ^ 8 ∷ [], octal.1)
    else if esc == b'x'
    then hex_found
    else if esc == b'\\'
    then ok (b'\\' ∷ [], c)
    else if esc == b'"'
    then ok (b'"' ∷ [], c)
    else ok (b'\\' ∷ esc ∷ [], c)

-- The loop, on fuel; `panic` marks that the fuel ran out.
unfoldable pub string_body : ℕ → ℕ → ℕ → Bytes → Cursor → Result LexError (Bytes × Cursor)
string_body zero line col buf c = panic
string_body (suc fuel) line col buf c =
    let ch = peek c in
    let c1 = advance c in
    let plainly = string_body fuel line col (buf ++ (ch ∷ [])) c1 in
    let escaped : Result LexError (Bytes × Cursor) = (do
      (added, c2) ← read_escape line col (peek c1) (advance c1)
      string_body fuel line col (buf ++ added) c2) in
    if at_line_end c
    then fail line col unterminated_string
    else if ch == b'"'
    then ok (buf, c1)
    else if ch == b'\\'
    then (if at_line_end c1 then fail line col unterminated_escape else escaped)
    else plainly

-- Each round takes a byte at least.
unfoldable pub read_string_literal : Cursor → Result LexError (Bytes × Cursor)
read_string_literal c = string_body (suc (length c.rest)) c.line c.col [] (advance c)
