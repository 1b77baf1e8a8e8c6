-- ===== src/Lex/Tests.antt =====
-- Runs of src/lex.rs, and its theorem at one of them.
use afs_as.Base.{◌≡◌, refl, List, [], ◌∷◌, ◌++◌, Result, ok, err, arith}
use afs_as.Base.Bytes.{Bytes}
use afs_as.Base.Int.{pos, negsuc}
use afs_as.Base.Text.{text}
use afs_as.Lex.{ident, integer, float, comma, newline, eof, Token, unterminated_block_comment}
use afs_as.Lex.Cursor.{new_bytes}
use afs_as.Lex.Outcome.{Outcome}
use afs_as.Lex.Scan.{make_tok, tokenize_bytes}
use afs_as.Lex.Total.{Spells, IsPlaced, tokenize_bytes_total}

abbrev line : Bytes
line = text "add x0, #-1 // one" ++ (b'\n' ∷ text "#2.5")

abbrev tokens : List Token
tokens =
    record { kind = ident (text "add"); line = 1; col = 1 }
    ∷ record { kind = ident (text "x0"); line = 1; col = 5 }
    ∷ record { kind = comma; line = 1; col = 7 }
    ∷ record { kind = integer (negsuc 0); line = 1; col = 9 }
    ∷ record { kind = newline; line = 1; col = 19 }
    ∷ record { kind = float (text "2.5"); line = 2; col = 1 }
    ∷ record { kind = eof; line = 2; col = 5 }
    ∷ []

line-tokenize : tokenize_bytes line ≡ ok tokens
unfolding tokenize_bytes afs_as.Lex.Scan.tokenize_within afs_as.Lex.Scan.next_token
    afs_as.Lex.Scan.next_token_within afs_as.Lex.Scan.read_token afs_as.Lex.Scan.read_word
    afs_as.Lex.Scan.read_hash afs_as.Lex.Scan.read_dot afs_as.Lex.Scan.punctuation
    afs_as.Lex.Cursor.take_while afs_as.Lex.Cursor.is_digit afs_as.Lex.Cursor.is_hexdigit
    afs_as.Lex.Cursor.is_ident_start afs_as.Lex.Cursor.is_ident_cont afs_as.Lex.Cursor.block_comment
    afs_as.Lex.Cursor.skip_block_comment afs_as.Lex.Number.read_number_literal
    afs_as.Lex.Number.read_unsigned afs_as.Lex.Number.read_decimal afs_as.Lex.Number.read_hex
    afs_as.Lex.Number.integer_token afs_as.Lex.Number.digits_value afs_as.Lex.Number.digit_value
    afs_as.Base.Int.◌-ℤ◌
line-tokenize = refl

open_comment-tokenize :
    tokenize_bytes (text "x /* y")
    ≡ err (record { line = 1; col = 3; msg = unterminated_block_comment })
unfolding tokenize_bytes afs_as.Lex.Scan.tokenize_within afs_as.Lex.Scan.next_token
    afs_as.Lex.Scan.next_token_within afs_as.Lex.Scan.read_token afs_as.Lex.Scan.read_word
    afs_as.Lex.Scan.read_hash afs_as.Lex.Scan.read_dot afs_as.Lex.Scan.punctuation
    afs_as.Lex.Cursor.take_while afs_as.Lex.Cursor.is_digit afs_as.Lex.Cursor.is_hexdigit
    afs_as.Lex.Cursor.is_ident_start afs_as.Lex.Cursor.is_ident_cont afs_as.Lex.Cursor.block_comment
    afs_as.Lex.Cursor.skip_block_comment afs_as.Lex.Number.read_number_literal
    afs_as.Lex.Number.read_unsigned afs_as.Lex.Number.read_decimal afs_as.Lex.Number.read_hex
    afs_as.Lex.Number.integer_token afs_as.Lex.Number.digits_value afs_as.Lex.Number.digit_value
    afs_as.Base.Int.◌-ℤ◌
open_comment-tokenize = refl

tokenize_bytes_total_example : Outcome (Spells line 0) (IsPlaced line) (tokenize_bytes line)
tokenize_bytes_total_example = tokenize_bytes_total line (omega arith)
