-- ===== src/Lex/Covers.antt =====
-- What the tokens of src/lex.rs hold and which text they stand for, described by itself.
use afs_as.Base.{
  ℕ, ◌≤◌, ◌<◌, ◌^◌, ◌≡◌, refl, ap, ◌∙◌, Bool, true, false, Option, none, some, ◌∷◌, ◌++◌, ◌==◌,
  if◌then◌else◌, arith,
}
use afs_as.Base.Bytes.{Bytes}
use afs_as.Base.Int.{IsI64}
use afs_as.Lex.{
  Tok, ident, integer, unsigned_integer, float, string_lit, hash, dot, eof, newline, comma, plus,
  minus, colon, l_paren, r_paren, l_bracket, r_bracket, l_brace, r_brace, bang, at_sign, equals,
}
use afs_as.Lex.Cursor.{Cursor, head_or_nul}
use afs_as.Lex.Literals.{NumberFits}
use afs_as.Lex.Moves.{Passes}
use afs_as.Lex.Scan.{punctuation}

-- A token that stands for some bytes: any but the end, where the two integer tokens hold an i64,
-- and a u64 that is none.
abbrev pub TokFits : Tok → Type 0
TokFits (integer v) = IsI64 v
TokFits (unsigned_integer n) = (2 ^ 63 ≤ n) × (n < 2 ^ 64)
TokFits eof = ⊥
TokFits _ = Unit {0}

-- What the text `t` starts with at a token, where `s` is left behind it: an identifier is its own
-- text, a mark of one byte is that byte; a string and a hash start with theirs.
abbrev pub Covers : Tok → Bytes → Bytes → Type 0
Covers (ident name) t s = t ≡ name ++ s
Covers (string_lit bs) t s = head_or_nul t ≡ b'"'
Covers hash t s = head_or_nul t ≡ b'#'
Covers dot t s = t ≡ b'.' ∷ s
Covers newline t s = t ≡ b'\n' ∷ s
Covers comma t s = t ≡ b',' ∷ s
Covers plus t s = t ≡ b'+' ∷ s
Covers minus t s = t ≡ b'-' ∷ s
Covers colon t s = t ≡ b':' ∷ s
Covers l_paren t s = t ≡ b'(' ∷ s
Covers r_paren t s = t ≡ b')' ∷ s
Covers l_bracket t s = t ≡ b'[' ∷ s
Covers r_bracket t s = t ≡ b']' ∷ s
Covers l_brace t s = t ≡ b'{' ∷ s
Covers r_brace t s = t ≡ b'}' ∷ s
Covers bang t s = t ≡ b'!' ∷ s
Covers at_sign t s = t ≡ b'@' ∷ s
Covers equals t s = t ≡ b'=' ∷ s
Covers _ t s = Unit {0}

-- A token in its range that covers the bytes it has taken, one at least.
abbrev pub Reads : Cursor → Tok × Cursor → Type 0
Reads c r = TokFits r.0 × Covers r.0 c.rest r.1.rest × Passes c r.1

pub NumberFits-TokFits : (tok : Tok) → NumberFits tok → TokFits tok
NumberFits-TokFits (integer v) h = h
NumberFits-TokFits (unsigned_integer n) h = h
NumberFits-TokFits (float bs) h = tt
NumberFits-TokFits _ h = absurd h

pub NumberFits-Covers : (tok : Tok) (t s : Bytes) → NumberFits tok → Covers tok t s
NumberFits-Covers (integer v) t s h = tt
NumberFits-Covers (unsigned_integer n) t s h = tt
NumberFits-Covers (float bs) t s h = tt
NumberFits-Covers _ t s h = absurd h

-- What the byte `ch` is for a token of one byte.
abbrev pub Mark : ℕ → Option Tok → Type 0
Mark ch none = Unit {0}
Mark ch (some tok) = TokFits tok × ((t s : Bytes) → t ≡ ch ∷ s → Covers tok t s)

if-Mark :
    (ch : ℕ) (b : Bool) (x y : Option Tok)
    → (b ≡ true → Mark ch x)
    → Mark ch y
    → Mark ch (if b then x else y)
if-Mark ch true x y f g = f refl
if-Mark ch false x y f g = g

single : (ch x : ℕ) → (ch == x) ≡ true → Unit {0} × ((t s : Bytes) → t ≡ ch ∷ s → t ≡ x ∷ s)
single ch x h = let same : ch ≡ x = ground arith in (tt, (λ t s e. e ∙ ap (λ (b : ℕ). b ∷ s) same))

pub punctuation-Mark : (ch : ℕ) → Mark ch (punctuation ch)
unfolding punctuation
punctuation-Mark ch = if-Mark ch (ch == b'\n') _ _ (single ch b'\n') (
    if-Mark ch (ch == b',') _ _ (single ch b',') (
      if-Mark ch (ch == b'+') _ _ (single ch b'+') (
        if-Mark ch (ch == b'-') _ _ (single ch b'-') (
          if-Mark ch (ch == b':') _ _ (single ch b':') (
            if-Mark ch (ch == b'(') _ _ (single ch b'(') (
              if-Mark ch (ch == b')') _ _ (single ch b')') (
                if-Mark ch (ch == b'[') _ _ (single ch b'[') (
                  if-Mark ch (ch == b']') _ _ (single ch b']') (
                    if-Mark ch (ch == b'{') _ _ (single ch b'{') (
                      if-Mark ch (ch == b'}') _ _ (single ch b'}') (
                        if-Mark ch (ch == b'!') _ _ (single ch b'!') (
                          if-Mark ch (ch == b'@') _ _ (single ch b'@')
                            (if-Mark ch (ch == b'=') _ _ (single ch b'=') (tt))))))))))))))
