-- ===== src/Lex/Total.antt =====
-- `tokenize_bytes` of src/lex.rs reads every text to its end, or reports an error at a place of the
-- text.
use afs_as.Base.{
  ℕ, suc, ◌+◌, ◌-◌, ◌^◌, ◌≤◌, ◌<◌, ◌≡◌, ◌⊎◌, refl, sym, ap, ◌∙◌, inl, inr, List, [], ◌∷◌, length,
  length-drop, drop, arith,
}
use afs_as.Base.Bytes.{Bytes}
use afs_as.Lex.{eof, Token, LexError}
use afs_as.Lex.Covers.{TokFits, Covers}
use afs_as.Lex.Cursor.{Cursor, new_bytes}
use afs_as.Lex.Gap.{Gap}
use afs_as.Lex.Moves.{left, at_offset, at_offset_add}
use afs_as.Lex.Outcome.{Outcome, map-Outcome}
use afs_as.Lex.Position.{line_at, column_at, IsAtOffset, at_offset-IsAtOffset}
use afs_as.Lex.Runs.{Runs, Adds, tokenize_within_lem}
use afs_as.Lex.Scan.{tokenize_bytes}
use afs_as.Lex.Tokens.{IsWithin}
use mathlib.Core.Path.{subst}

-- How tokens cover the text from the offset `n` on: blanks and comments and then a token, that has
-- the line and the column of its first byte and covers the bytes up to the next offset, one at
-- least; the last is the end of the text.
unfoldable pub Spells : Bytes → ℕ → List Token → Type 0
Spells src n [] = ⊥
Spells src n (t ∷ ts) =
    (m : ℕ) × (n ≤ m)
    × (m ≤ length src)
    × Gap (drop n src) (drop m src)
    × (t.line ≡ line_at m src)
    × (t.col ≡ column_at m src)
    × (((t.kind ≡ eof) × (ts ≡ []) × (m ≡ length src))
        ⊎ ((k : ℕ) × (m < k)
            × (k ≤ length src)
            × TokFits t.kind
            × Covers t.kind (drop m src) (drop k src)
            × Spells src k ts))

-- An error at a place of the text.
abbrev pub IsPlaced : Bytes → LexError → Type 0
IsPlaced src e = (m : ℕ) × (m ≤ length src) × (e.line ≡ line_at m src) × (e.col ≡ column_at m src)

module _ (src : Bytes) (small : length src + 1 < 2 ^ 32) where
  known :
      (n : ℕ) (c : Cursor) → n ≤ length src → c ≡ at_offset n (new_bytes src) → IsAtOffset src n c
  known n c room e = subst (IsAtOffset src n) (sym e) (at_offset-IsAtOffset src n small room)

  left_at :
      (n : ℕ) (c : Cursor)
      → n ≤ length src
      → c ≡ at_offset n (new_bytes src)
      → n + left c ≡ length src
  left_at n c room e =
      let size : left c ≡ length src - n = ap length (known n c room e).rest ∙ length-drop n src in
      omega (arith, size, room)

  further :
      (n k : ℕ) (c d : Cursor)
      → c ≡ at_offset n (new_bytes src)
      → d ≡ at_offset k c
      → d ≡ at_offset (n + k) (new_bytes src)
  further n k c d e f = f ∙ ap (at_offset k) e ∙ at_offset_add n k (new_bytes src)

  Runs-Spells :
      (ts : List Token) (n : ℕ) (c : Cursor)
      → n ≤ length src
      → c ≡ at_offset n (new_bytes src)
      → Runs c ts
      → Spells src n ts
  unfolding Runs Spells
  Runs-Spells [] n c room e runs = runs
  Runs-Spells (t ∷ ts) n c room e (start, (k, k_room, f), gap, line, col, taken) =
      let m = n + k in
      let m_room : m ≤ length src = omega (arith, left_at n c room e, k_room) in
      let start_at : start ≡ at_offset m (new_bytes src) = further n k c start e f in
      let at_n = known n c room e in
      let at_m = known m start m_room start_at in
      let size = left_at m start m_room start_at in
      (
        m,
        omega arith,
        m_room,
        rw (← at_n.rest, ← at_m.rest) gap,
        line ∙ at_m.line,
        col ∙ at_m.col,
        elim taken [
          | inl (is_end, last, done) ↦ inl (is_end, last, omega (arith, size, done))
          | inr (behind, (fits, covers, (j, some_byte, j_room, g)), more) ↦
              let p_room : m + j ≤ length src = omega (arith, size, j_room) in
              let behind_at : behind ≡ at_offset (m + j) (new_bytes src) =
                further m j start behind start_at g in
              let at_p = known (m + j) behind p_room behind_at in
              inr (
                m + j,
                omega (arith, some_byte),
                p_room,
                fits,
                rw (← at_m.rest, ← at_p.rest) covers,
                Runs-Spells ts (m + j) behind p_room behind_at more,
              )
        ],
      )

  IsWithin-IsPlaced : (e : LexError) → IsWithin (new_bytes src) e → IsPlaced src e
  IsWithin-IsPlaced e (n, room, line, col) =
      let at_n = at_offset-IsAtOffset src n small room in
      (n, room, line ∙ at_n.line, col ∙ at_n.col)

-- Every text of fewer than 2^32 - 1 bytes is tokenized or refused, and the loops end. The tokens
-- cover the text in order: between them stand only blanks and comments, each has the line and column
-- of its first byte and takes one byte at least, up to where the next gap starts; an identifier takes
-- its own text, a mark or a newline its own byte, strings and hashes start with theirs; integers are
-- in the ranges of their tokens; the end is the last token and only there. An error has the line and
-- column of a place of the text.
pub tokenize_bytes_total :
    (src : Bytes)
    → length src + 1 < 2 ^ 32
    → Outcome (Spells src 0) (IsPlaced src) (tokenize_bytes src)
unfolding tokenize_bytes at_offset
tokenize_bytes_total src small =
    map-Outcome (Spells src 0) (IsPlaced src) (Adds [] (new_bytes src)) (IsWithin (new_bytes src)) _
      (tokenize_within_lem (suc (length src)) [] (new_bytes src) (omega arith))
      (λ out (more, e, runs).
        Runs-Spells src small out 0 (new_bytes src) (omega arith) refl
          (subst (Runs (new_bytes src)) (sym e) runs))
      (λ e at. IsWithin-IsPlaced src small e at)
