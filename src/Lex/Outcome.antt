-- ===== src/Lex/Outcome.antt =====
-- What the steps of the lexer of src/lex.rs answer with: a property of the good answers, one of the
-- errors, and no panic.
use afs_as.Base.{
  ℕ, [], ◌∷◌, ◌≡◌, refl, Bool, true, false, if◌then◌else◌, Result, ok, err, panic, ◌>>=◌,
}
use afs_as.Base.Bytes.{Bytes}
use afs_as.Lex.{LexError}

unfoldable pub Outcome :
    {A : Type 0} → (A → Type 0) → (LexError → Type 0) → Result LexError A → Type 0
Outcome good bad panic = ⊥
Outcome good bad (err e) = bad e
Outcome good bad (ok a) = good a

module _ {A : Type 0} (good : A → Type 0) (bad : LexError → Type 0) where
  pub if-Outcome :
      (b : Bool) (x y : Result LexError A)
      → (b ≡ true → Outcome good bad x)
      → (b ≡ false → Outcome good bad y)
      → Outcome good bad (if b then x else y)
  if-Outcome true x y f g = f refl
  if-Outcome false x y f g = g refl

  pub bind-Outcome :
      {B : Type 0} (first : B → Type 0) (m : Result LexError B) (f : B → Result LexError A)
      → Outcome first bad m
      → ((b : B) → first b → Outcome good bad (f b))
      → Outcome good bad (m >>= f)
  unfolding Outcome
  bind-Outcome first panic f h next = h
  bind-Outcome first (err e) f h next = h
  bind-Outcome first (ok b) f h next = next b h

  pub map-Outcome :
      (known : A → Type 0) (worse : LexError → Type 0) (r : Result LexError A)
      → Outcome known worse r
      → ((a : A) → known a → good a)
      → ((e : LexError) → worse e → bad e)
      → Outcome good bad r
  unfolding Outcome
  map-Outcome known worse panic h f g = h
  map-Outcome known worse (err e) h f g = g e h
  map-Outcome known worse (ok a) h f g = f a h

  -- A choice by whether a text is empty.
  pub elim-Outcome :
      (bs : Bytes) (x y : Result LexError A)
      → (bs ≡ [] → Outcome good bad x)
      → ((b : ℕ) (rest : Bytes) → bs ≡ b ∷ rest → Outcome good bad y)
      → Outcome good bad (elim bs [ [] ↦ x | _ ∷ _ ↦ y ])
  elim-Outcome [] x y f g = f refl
  elim-Outcome (b ∷ rest) x y f g = g b rest refl
