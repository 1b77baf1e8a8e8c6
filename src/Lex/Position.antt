-- ===== src/Lex/Position.antt =====
-- Lines and columns of a text for src/lex.rs, described by themselves: a line is counted by the
-- newlines in front, a column by the bytes behind the last of them.
use afs_as.Base.{
  ℕ, zero, suc, ◌+◌, ◌%◌, ◌^◌, ◌≤◌, ◌<◌, ◌≡◌, refl, ◌∙◌, inl, inr, true, false, Bool-cases, [], ◌∷◌,
  length, take, drop, ◌==◌, if◌then◌else◌, arith,
}
use afs_as.Base.Bytes.{Bytes}
use afs_as.Lex.Cursor.{Cursor, new_bytes}
use afs_as.Lex.Moves.{at_offset}

unfoldable pub newlines : Bytes → ℕ
newlines [] = 0
newlines (b ∷ bs) = let more = newlines bs in if b == b'\n' then 1 + more else more

-- What stands behind the last newline; all where there is none.
unfoldable pub last_line : Bytes → Bytes
last_line [] = []
last_line (b ∷ bs) =
    let later = last_line bs in
    if b == b'\n' then later else if newlines bs == 0 then b ∷ bs else later

abbrev pub line_at : ℕ → Bytes → ℕ
line_at n src = 1 + newlines (take n src)

abbrev pub column_at : ℕ → Bytes → ℕ
column_at n src = 1 + length (last_line (take n src))

last_line_whole : (bs : Bytes) → newlines bs ≡ 0 → last_line bs ≡ bs
unfolding newlines last_line
last_line_whole [] h = refl
last_line_whole (b ∷ bs) h = elim (Bool-cases (b == b'\n')) [
  | inl e ↦ absurd (let g : 1 + newlines bs ≡ 0 = rw e at h in omega (arith, g))
  | inr e ↦ let g : newlines bs ≡ 0 = rw e at h in rw (e, g) refl
]

-- The column behind a text that starts at the column `col`.
abbrev column_behind : ℕ → Bytes → ℕ
column_behind col s = if newlines s == 0 then col + length s else 1 + length (last_line s)

pub record IsBehind (n : ℕ) (s : Bytes) (l k : ℕ) (c : Cursor) : Type 0 where
  pub rest : c.rest ≡ drop n s
  pub line : c.line ≡ l + newlines (take n s)
  pub col : c.col ≡ column_behind k (take n s)

newline_behind :
    (k : ℕ) (b : ℕ) (s : Bytes) → b == b'\n' ≡ true → column_behind 1 s ≡ column_behind k (b ∷ s)
unfolding newlines last_line
newline_behind k b s e = elim (Bool-cases (newlines s == 0)) [
  | inl f ↦
      let none_there : newlines s ≡ 0 = ground (arith, f) in
      rw (e, none_there, last_line_whole s none_there) refl
  | inr f ↦ let more : (1 + newlines s == 0) ≡ false = ground arith in rw (e, f, more) refl
]

plain_behind :
    (k : ℕ) (b : ℕ) (s : Bytes)
    → b == b'\n' ≡ false
    → column_behind (k + 1) s ≡ column_behind k (b ∷ s)
unfolding newlines last_line
plain_behind k b s e = elim (Bool-cases (newlines s == 0)) [
  | inl f ↦ rw (e, f) (omega arith)
  | inr f ↦ rw (e, f) refl
]

at_offset-IsBehind :
    (n : ℕ) (s : Bytes) (l k : ℕ)
    → n ≤ length s
    → l + n < 2 ^ 32
    → k + n < 2 ^ 32
    → IsBehind n s l k (at_offset n (record { rest = s; line = l; col = k }))
unfolding at_offset newlines last_line
at_offset-IsBehind zero s l k room small_line small_col = record {
  rest = refl;
  line = omega arith;
  col = omega arith;
}
at_offset-IsBehind (suc n) [] l k room small_line small_col = absurd (omega (arith, room))
at_offset-IsBehind (suc n) (b ∷ s) l k room small_line small_col = elim (Bool-cases (b == b'\n')) [
  | inl e ↦
      let wrap : (l + 1) % 2 ^ 32 ≡ l + 1 = omega (arith, small_line) in
      let more =
        at_offset-IsBehind n s (l + 1) 1 (omega (arith, room)) (omega (arith, small_line))
          (omega (arith, small_line)) in
      rw (e, wrap)
        (record {
          rest = more.rest;
          line = rw e (omega (arith, more.line));
          col = more.col ∙ newline_behind k b (take n s) e;
        })
  | inr e ↦
      let wrap : (k + 1) % 2 ^ 32 ≡ k + 1 = omega (arith, small_col) in
      let more =
        at_offset-IsBehind n s l (k + 1) (omega (arith, room)) (omega (arith, small_line))
          (omega (arith, small_col)) in
      rw (e, wrap)
        (record {
          rest = more.rest;
          line = rw e (more.line);
          col = more.col ∙ plain_behind k b (take n s) e;
        })
]

-- A cursor that `n` steps from the start of a text give is where the text says.
pub record IsAtOffset (src : Bytes) (n : ℕ) (c : Cursor) : Type 0 where
  pub rest : c.rest ≡ drop n src
  pub line : c.line ≡ line_at n src
  pub col : c.col ≡ column_at n src

column_behind_first : (s : Bytes) → column_behind 1 s ≡ 1 + length (last_line s)
column_behind_first s = elim (Bool-cases (newlines s == 0)) [
  | inl e ↦
      let none_there : newlines s ≡ 0 = ground (arith, e) in
      rw (e, last_line_whole s none_there) refl
  | inr e ↦ rw e refl
]

pub at_offset-IsAtOffset :
    (src : Bytes) (n : ℕ)
    → length src + 1 < 2 ^ 32
    → n ≤ length src
    → IsAtOffset src n (at_offset n (new_bytes src))
at_offset-IsAtOffset src n small room =
    let known =
      at_offset-IsBehind n src 1 1 room (omega (arith, small, room)) (omega (arith, small, room)) in
    record {
      rest = known.rest;
      line = known.line;
      col = known.col ∙ column_behind_first (take n src);
    }
