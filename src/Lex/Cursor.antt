-- ===== src/Lex/Cursor.antt =====
-- The state of the lexer of src/lex.rs and its elementary moves. `rest` is `src[pos..]`. Lines and
-- columns are u32 in the source and wrap around here, as in a build without overflow checks; the
-- theorem on the lexer is for texts that are too short for an overflow.
use afs_as.Base.{
  ℕ, ◌+◌, ◌%◌, ◌^◌, Bool, true, false, not, ◌&&◌, ◌||◌, [], ◌∷◌, leb, ◌==◌, if◌then◌else◌, Result,
  ok, err,
}
use afs_as.Base.Bytes.{Bytes}
use afs_as.Lex.{LexError, unterminated_block_comment}

pub record Cursor : Type 0 where
  pub rest : Bytes
  pub line : ℕ
  pub col : ℕ

-- `Lexer::new_bytes`
abbrev pub new_bytes : Bytes → Cursor
new_bytes src = record { rest = src; line = 1; col = 1 }

abbrev pub head_or_nul : Bytes → ℕ
head_or_nul [] = 0
head_or_nul (b ∷ _) = b

abbrev pub tail_of : Bytes → Bytes
tail_of [] = []
tail_of (_ ∷ bs) = bs

-- 0 stands for the end of the text.
abbrev pub peek : Cursor → ℕ
peek c = head_or_nul c.rest

abbrev pub peek2 : Cursor → ℕ
peek2 c = head_or_nul (tail_of c.rest)

abbrev pub at_end : Cursor → Bool
at_end c = elim c.rest [ [] ↦ true | _ ∷ _ ↦ false ]

-- The cursor behind the byte `b`, with `bs` left.
abbrev pub step : ℕ → Bytes → ℕ → ℕ → Cursor
step b bs line col =
    if b == b'\n'
    then record { rest = bs; line = (line + 1) % 2 ^ 32; col = 1 }
    else record { rest = bs; line = line; col = (col + 1) % 2 ^ 32 }

abbrev pub advance : Cursor → Cursor
advance c = step (peek c) (tail_of c.rest) c.line c.col

abbrev pub is_blank : ℕ → Bool
is_blank b = b == b' ' || b == b'\t' || b == b'\r'

abbrev pub within : ℕ → ℕ → ℕ → Bool
within lo hi b = leb lo b && leb b hi

-- `is_ascii_digit`, `is_ascii_hexdigit`, `is_ident_start` and `is_ident_cont`.
unfoldable pub is_digit : ℕ → Bool
is_digit b = within b'0' b'9' b

unfoldable pub is_hexdigit : ℕ → Bool
is_hexdigit b = within b'0' b'9' b || within b'a' b'f' b || within b'A' b'F' b

unfoldable pub is_ident_start : ℕ → Bool
is_ident_start b = within b'a' b'z' b || within b'A' b'Z' b || b == b'_'

unfoldable pub is_ident_cont : ℕ → Bool
is_ident_cont b =
    within b'a' b'z' b
    || within b'A' b'Z' b
    || within b'0' b'9' b
    || b == b'_'
    || b == b'$'
    || b == b'.'

-- `while pos < len && test(peek()) { advance() }`: the bytes passed over and the cursor behind.
unfoldable pub take_while : (ℕ → Bool) → Bytes → ℕ → ℕ → Bytes × Cursor
take_while test [] line col = ([], record { rest = []; line = line; col = col })
take_while test (b ∷ bs) line col =
    let next = step b bs line col in
    let more = take_while test bs next.line next.col in
    if test b then (b ∷ more.0, more.1) else ([], record { rest = b ∷ bs; line = line; col = col })

abbrev pub run_while : (ℕ → Bool) → Cursor → Bytes × Cursor
run_while test c = take_while test c.rest c.line c.col

abbrev pub skip_whitespace : Cursor → Cursor
skip_whitespace c = (run_while is_blank c).1

abbrev pub skip_line_comment : Cursor → Cursor
skip_line_comment c = (run_while (λ b. not (b == b'\n')) c).1

-- The loop of `skip_block_comment`; the position of the comment is kept for the error.
unfoldable pub block_comment : ℕ → ℕ → Bytes → ℕ → ℕ → Result LexError Cursor
block_comment line0 col0 [] line col =
    err (record { line = line0; col = col0; msg = unterminated_block_comment })
block_comment line0 col0 (b ∷ bs) line col =
    let next = step b bs line col in
    let more = block_comment line0 col0 bs next.line next.col in
    if b == b'*' && head_or_nul bs == b'/' then ok (advance next) else more

unfoldable pub skip_block_comment : Cursor → Result LexError Cursor
skip_block_comment c =
    let inside = advance (advance c) in
    block_comment c.line c.col inside.rest inside.line inside.col
