-- ===== src/Lex/Gap.antt =====
-- What stands between the tokens of a text for src/lex.rs, described by itself: blanks and comments.
-- The functions of the lexer that skip them pass over nothing else.
use afs_as.Base.{
  ℕ, ◌≤◌, ◌≡◌, ◌⊎◌, refl, sym, ap, inl, inr, Bool, true, Bool-cases, not, [], ◌∷◌, ◌++◌, ◌==◌,
  arith,
}
use mathlib.Core.Path.{subst}
use afs_as.Base.Bytes.{Bytes}
use afs_as.Lex.Cursor.{
  Cursor, head_or_nul, tail_of, step, is_blank, take_while, run_while, skip_whitespace,
  skip_line_comment,
}

-- A space, a tab or a carriage return.
abbrev pub IsBlank : ℕ → Type 0
IsBlank b = (b ≡ b' ') ⊎ ((b ≡ b'\t') ⊎ (b ≡ b'\r'))

-- A text opens a comment that runs to the end of its line.
abbrev pub Opens : Bytes → Type 0
Opens s = (head_or_nul s ≡ b';') ⊎ ((head_or_nul s ≡ b'/') × (head_or_nul (tail_of s) ≡ b'/'))

abbrev pub NoNewline : Bytes → Type 0
NoNewline [] = Unit {0}
NoNewline (b ∷ bs) = ((b ≡ b'\n') → ⊥) × NoNewline bs

-- The end of a line, or of the text.
abbrev pub Ends : Bytes → Type 0
Ends [] = Unit {0}
Ends (b ∷ bs) = b ≡ b'\n'

-- No star is followed by a slash.
abbrev pub NoClose : Bytes → Type 0
NoClose [] = Unit {0}
NoClose (b ∷ bs) = ((b ≡ b'*') × (head_or_nul bs ≡ b'/') → ⊥) × NoClose bs

-- `s` is what is left of a text behind the end of a block comment that the text starts in.
pub record Closes (t s : Bytes) : Type 0 where
  pub body : Bytes
  pub parts : t ≡ body ++ (b'*' ∷ b'/' ∷ s)
  pub inner : NoClose body

-- `Gap t s`: the text `t` is blanks and comments, and then `s`.
pub data Gap : Bytes → Bytes → Type 0 where
  nothing : (s : Bytes) → Gap s s
  blank : (b : ℕ) (t s : Bytes) → IsBlank b → Gap t s → Gap (b ∷ t) s
  line_comment :
      (t body rest s : Bytes)
      → Opens t
      → t ≡ body ++ rest
      → NoNewline body
      → Ends rest
      → Gap rest s
      → Gap t s
  block_comment : (t rest s : Bytes) → Closes t rest → Gap rest s → Gap (b'/' ∷ b'*' ∷ t) s

is_blank-IsBlank : (b : ℕ) → is_blank b ≡ true → IsBlank b
is_blank-IsBlank b h = elim (Bool-cases (b == b' ')) [
  | inl e ↦ inl (ground arith)
  | inr e ↦ elim (Bool-cases (b == b'\t')) [
    | inl f ↦ inr (inl (ground arith))
    | inr f ↦ inr (inr (ground arith))
  ]
]

take_while-blank-Gap :
    (bs : Bytes) (line col : ℕ) (s : Bytes)
    → Gap (take_while is_blank bs line col).1.rest s
    → Gap bs s
unfolding take_while
take_while-blank-Gap [] line col s g = g
take_while-blank-Gap (b ∷ bs) line col s g = elim (Bool-cases (is_blank b)) [
  | inl hit ↦
      let next = step b bs line col in
      blank b bs s (is_blank-IsBlank b hit)
        (take_while-blank-Gap bs next.line next.col s (rw hit at g))
  | inr miss ↦ rw miss at g
]

pub skip_whitespace-Gap : (c : Cursor) (s : Bytes) → Gap (skip_whitespace c).rest s → Gap c.rest s
skip_whitespace-Gap c s g = take_while-blank-Gap c.rest c.line c.col s g

pub take_while-split :
    (test : ℕ → Bool) (bs : Bytes) (line col : ℕ)
    → bs ≡ (take_while test bs line col).0 ++ (take_while test bs line col).1.rest
unfolding take_while
take_while-split test [] line col = refl
take_while-split test (b ∷ bs) line col = elim (Bool-cases (test b)) [
  | inl hit ↦
      let next = step b bs line col in
      rw hit (ap (λ (rest : Bytes). b ∷ rest) (take_while-split test bs next.line next.col))
  | inr miss ↦ rw miss refl
]

abbrev plain : ℕ → Bool
plain b = not (b == b'\n')

take_while-NoNewline : (bs : Bytes) (line col : ℕ) → NoNewline (take_while plain bs line col).0
unfolding take_while
take_while-NoNewline [] line col = tt
take_while-NoNewline (b ∷ bs) line col = elim (Bool-cases (plain b)) [
  | inl hit ↦
      let next = step b bs line col in
      rw hit ((λ e. ground arith), take_while-NoNewline bs next.line next.col)
  | inr miss ↦ rw miss tt
]

take_while-Ends : (bs : Bytes) (line col : ℕ) → Ends (take_while plain bs line col).1.rest
unfolding take_while
take_while-Ends [] line col = tt
take_while-Ends (b ∷ bs) line col = elim (Bool-cases (plain b)) [
  | inl hit ↦ let next = step b bs line col in rw hit (take_while-Ends bs next.line next.col)
  | inr miss ↦ rw miss (ground arith)
]

pub skip_line_comment-Gap :
    (c : Cursor) (s : Bytes) → Opens c.rest → Gap (skip_line_comment c).rest s → Gap c.rest s
skip_line_comment-Gap c s opens g =
    line_comment c.rest (run_while plain c).0 (run_while plain c).1.rest s opens
      (take_while-split plain c.rest c.line c.col) (take_while-NoNewline c.rest c.line c.col)
      (take_while-Ends c.rest c.line c.col) g

-- A text by its first two bytes.
heads_lem :
    (bs : Bytes) (x y : ℕ)
    → 1 ≤ x
    → 1 ≤ y
    → head_or_nul bs ≡ x
    → head_or_nul (tail_of bs) ≡ y
    → bs ≡ x ∷ y ∷ tail_of (tail_of bs)
heads_lem [] x y p q e f = absurd (omega (arith, p, e))
heads_lem (b ∷ []) x y p q e f = absurd (omega (arith, q, f))
heads_lem (b ∷ d ∷ bs) x y p q e f = rw (e, f) refl

pub block_comment-Gap :
    (bs rest s : Bytes)
    → head_or_nul bs ≡ b'/'
    → head_or_nul (tail_of bs) ≡ b'*'
    → Closes (tail_of (tail_of bs)) rest
    → Gap rest s
    → Gap bs s
block_comment-Gap bs rest s e f closed g =
    let parts = heads_lem bs b'/' b'*' (omega arith) (omega arith) e f in
    subst (λ (t : Bytes). Gap t s) (sym parts)
      (block_comment (tail_of (tail_of bs)) rest s closed g)
