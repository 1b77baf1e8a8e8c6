-- ===== src/Lex/Runs.antt =====
-- The loop of `tokenize_bytes` of src/lex.rs, along the cursors that it reaches.
use afs_as.Base.{
  ℕ, zero, suc, ◌<◌, ◌≡◌, ◌⊎◌, refl, ◌∙◌, inl, inr, true, false, List, [], ◌∷◌, ◌++◌, if◌then◌else◌,
  ok, arith,
}
use afs_as.Lex.{Tok, eof, Token}
use afs_as.Lex.Cursor.{Cursor}
use afs_as.Lex.Covers.{TokFits, Reads}
use afs_as.Lex.Gap.{Gap}
use afs_as.Lex.Moves.{left, Moves, Passes-Moves, Moves-Passes-trans, Passes-left}
use afs_as.Lex.Outcome.{Outcome, if-Outcome, bind-Outcome, map-Outcome}
use afs_as.Lex.Scan.{next_token, is_eof, tokenize_within}
use afs_as.Lex.Tokens.{IsWithin, Found, Moves-IsWithin, next_token_lem}
use mathlib.Core.List.{append_assoc}

-- The tokens from `c` on, by the cursors at which they start and end.
unfoldable pub Runs : Cursor → List Token → Type 0
Runs c [] = ⊥
Runs c (t ∷ ts) =
    (start : Cursor) × Moves c start
    × Gap c.rest start.rest
    × (t.line ≡ start.line)
    × (t.col ≡ start.col)
    × (((t.kind ≡ eof) × (ts ≡ []) × (left start ≡ 0))
        ⊎ ((behind : Cursor) × (Reads start (t.kind, behind)) × Runs behind ts))

TokFits-ne-eof : (k : Tok) → TokFits k → is_eof k ≡ true → ⊥
TokFits-ne-eof eof fits h = fits
TokFits-ne-eof _ fits h = cc

-- What the loop adds to the tokens that it has.
abbrev pub Adds : List Token → Cursor → List Token → Type 0
Adds tokens c out = (more : List Token) × (out ≡ tokens ++ more) × Runs c more

module _ (fuel : ℕ) (c : Cursor) (tokens : List Token) where
  -- One round of the loop, before the rounds that `fuel` allows.
  round :
      (tok : Token) (c1 : Cursor) (f : Found c (tok, c1))
      → left c < suc fuel
      → ((tok.kind ≡ eof) × (left f.start ≡ 0)) ⊎ Reads f.start (tok.kind, c1)
      → (left c1 < fuel
          → Outcome
              (Adds (tokens ++ (tok ∷ [])) c1)
              (IsWithin c1)
              (tokenize_within fuel (tokens ++ (tok ∷ [])) c1))
      → Outcome (Adds tokens c) (IsWithin c) (
          if is_eof tok.kind
          then ok (tokens ++ (tok ∷ []))
          else tokenize_within fuel (tokens ++ (tok ∷ [])) c1)
  unfolding Outcome Runs
  round tok c1 f enough (inl (e, done)) next =
      if-Outcome (Adds tokens c) (IsWithin c) (is_eof tok.kind) _ _
        (λ h. (tok ∷ [], refl, (f.start, f.moved, f.gap, f.line, f.col, inl (e, refl, done))))
        (λ h. let g : is_eof eof ≡ false = rw e at h in cc)
  round tok c1 f enough (inr (fits, covers, passed)) next =
      let ahead = Moves-Passes-trans c f.start c1 f.moved passed in
      if-Outcome (Adds tokens c) (IsWithin c) (is_eof tok.kind) _ _
        (λ h. absurd (TokFits-ne-eof tok.kind fits h))
        (λ h.
          map-Outcome (Adds tokens c) (IsWithin c) (Adds (tokens ++ (tok ∷ [])) c1) (IsWithin c1) _
            (next (omega (arith, Passes-left c c1 ahead, enough)))
            (λ out (more, e, runs). (
              tok ∷ more,
              e ∙ append_assoc tokens (tok ∷ []) more,
              (f.start, f.moved, f.gap, f.line, f.col, inr (c1, (fits, covers, passed), runs)),
            ))
            (λ e. Moves-IsWithin c c1 e (Passes-Moves c c1 ahead)))

pub tokenize_within_lem :
    (fuel : ℕ) (tokens : List Token) (c : Cursor)
    → left c < fuel
    → Outcome (Adds tokens c) (IsWithin c) (tokenize_within fuel tokens c)
unfolding tokenize_within
tokenize_within_lem zero tokens c enough = absurd (omega (arith, enough))
tokenize_within_lem (suc fuel) tokens c enough =
    bind-Outcome (Adds tokens c) (IsWithin c) (Found c) (next_token c) _ (next_token_lem c)
      (λ (tok, c1) f.
        round fuel c tokens tok c1 f enough f.taken
          (tokenize_within_lem fuel (tokens ++ (tok ∷ [])) c1))
