-- ===== src/Lex.antt =====
-- src/lex.rs: the tokens of ARM64 assembly text, and the lexer in the children.
mod Tests
pub mod Cursor
pub mod Number
pub mod Str
pub mod Scan
pub mod Outcome
pub mod Gap
pub mod Position
pub mod Moves
pub mod Literals
pub mod Strings
pub mod Covers
pub mod Tokens
pub mod Runs
pub mod Total
use afs_as.Base.{ℕ}
use afs_as.Base.Bytes.{Bytes}
use afs_as.Base.Int.{ℤ}

pub data Tok : Type 0 where
  ident : Bytes → Tok
  integer : ℤ → Tok
  unsigned_integer : ℕ → Tok
  float : Bytes → Tok
  string_lit : Bytes → Tok
  hash comma plus minus colon l_paren r_paren l_bracket r_bracket l_brace r_brace : Tok
  bang dot at_sign equals newline eof : Tok

pub record Token : Type 0 where
  pub kind : Tok
  pub line : ℕ
  pub col : ℕ

-- The texts of `LexError::msg`, with the values that the source formats into them.
pub data LexMessage : Type 0 where
  unterminated_block_comment unterminated_string unterminated_escape invalid_escape : LexMessage
  expected_hex_digits expected_hex_in_string invalid_hex invalid_integer : LexMessage
  unexpected_character integer_overflows : ℕ → LexMessage

pub record LexError : Type 0 where
  pub line : ℕ
  pub col : ℕ
  pub msg : LexMessage
