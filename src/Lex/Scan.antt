-- ===== src/Lex/Scan.antt =====
-- `next_token` and `tokenize_bytes` of src/lex.rs.
use afs_as.Base.{
  ℕ, zero, suc, Bool, true, false, not, ◌&&◌, ◌||◌, Option, none, some, List, [], ◌∷◌, ◌++◌, length,
  ◌==◌, if◌then◌else◌, Result, ok, panic, ◌>>=◌,
}
use afs_as.Base.Bytes.{Bytes}
use afs_as.Lex.{
  Tok, ident, string_lit, hash, comma, plus, minus, colon, l_paren, r_paren, l_bracket, r_bracket,
  l_brace, r_brace, bang, dot, at_sign, equals, newline, eof, Token, LexError, unexpected_character,
}
use afs_as.Lex.Cursor.{
  Cursor, new_bytes, peek, peek2, at_end, advance, run_while, skip_whitespace, skip_line_comment,
  skip_block_comment, is_digit, is_ident_start, is_ident_cont,
}
use afs_as.Lex.Number.{fail, read_number_literal}
use afs_as.Lex.Str.{read_string_literal}

-- The `match` on single-character tokens.
unfoldable pub punctuation : ℕ → Option Tok
punctuation ch =
    if ch == b'\n'
    then some newline
    else if ch == b','
    then some comma
    else if ch == b'+'
    then some plus
    else if ch == b'-'
    then some minus
    else if ch == b':'
    then some colon
    else if ch == b'('
    then some l_paren
    else if ch == b')'
    then some r_paren
    else if ch == b'['
    then some l_bracket
    else if ch == b']'
    then some r_bracket
    else if ch == b'{'
    then some l_brace
    else if ch == b'}'
    then some r_brace
    else if ch == b'!'
    then some bang
    else if ch == b'@'
    then some at_sign
    else if ch == b'='
    then some equals
    else none

-- `#`: an immediate value, or a bare hash.
unfoldable pub read_hash : Cursor → Result LexError (Tok × Cursor)
read_hash c =
    let c1 = skip_whitespace (advance c) in
    if not (at_end c1) && (is_digit (peek c1) || peek c1 == b'-')
    then read_number_literal c1
    else ok (hash, c1)

-- `.`: a directive or local label, or a bare dot.
unfoldable pub read_dot : Cursor → Tok × Cursor
read_dot c =
    let c1 = advance c in
    let run = run_while is_ident_cont c1 in
    if not (at_end c1) && is_ident_start (peek c1) then (ident (b'.' ∷ run.0), run.1) else (dot, c1)

-- Behind the comments: one token at a byte that is not blank.
unfoldable pub read_word : Cursor → Result LexError (Tok × Cursor)
read_word c =
    let ch = peek c in
    let str : Result LexError (Tok × Cursor) = (do
      (s, c1) ← read_string_literal c
      ok (string_lit s, c1)) in
    let run = run_while is_ident_cont c in
    if ch == b'#'
    then read_hash c
    else if ch == b'.'
    then ok (read_dot c)
    else if ch == b'"'
    then str
    else if is_digit ch
    then read_number_literal c
    else if is_ident_start ch
    then ok (ident run.0, run.1)
    else fail c.line c.col (unexpected_character ch)

unfoldable pub read_token : Cursor → Result LexError (Tok × Cursor)
read_token c = elim (punctuation (peek c)) [ some t ↦ ok (t, advance c) | none ↦ read_word c ]

abbrev pub make_tok : Tok → Cursor → Token
make_tok kind c = record { kind = kind; line = c.line; col = c.col }

-- On fuel, for the calls behind a comment; `panic` marks that the fuel ran out.
unfoldable pub next_token_within : ℕ → Cursor → Result LexError (Token × Cursor)
next_token_within zero c0 = panic
next_token_within (suc fuel) c0 =
    let c = skip_whitespace c0 in
    let line_comment = next_token_within fuel (skip_line_comment c) in
    let after_block : Result LexError (Token × Cursor) = (do
      c1 ← skip_block_comment c
      next_token_within fuel c1) in
    let token : Result LexError (Token × Cursor) = (do
      (kind, c1) ← read_token c
      ok (make_tok kind c, c1)) in
    if at_end c
    then ok (make_tok eof c, c)
    else if peek c == b'/' && peek2 c == b'/'
    then line_comment
    else if peek c == b'/' && peek2 c == b'*'
    then after_block
    else if peek c == b';'
    then line_comment
    else token

unfoldable pub next_token : Cursor → Result LexError (Token × Cursor)
next_token c = next_token_within (suc (length c.rest)) c

abbrev pub is_eof : Tok → Bool
is_eof eof = true
is_eof _ = false

unfoldable pub tokenize_within : ℕ → List Token → Cursor → Result LexError (List Token)
tokenize_within zero tokens c = panic
tokenize_within (suc fuel) tokens c = do
  (tok, c1) ← next_token c
  let rest = tokenize_within fuel (tokens ++ (tok ∷ [])) c1
  if is_eof tok.kind then ok (tokens ++ (tok ∷ [])) else rest

-- Each round but the last takes a byte at least.
unfoldable pub tokenize_bytes : Bytes → Result LexError (List Token)
tokenize_bytes src = tokenize_within (suc (length src)) [] (new_bytes src)
