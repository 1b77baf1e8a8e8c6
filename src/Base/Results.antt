-- ===== src/Base/Results.antt =====
-- The outcome of a Rust function that returns `Result<A, E>` and may panic.
use mathlib.Core.Path.{◌≡◌, refl}
use mathlib.Core.Logic.{◌↔◌}
use mathlib.Core.Bool.{Bool, true, false}
use mathlib.Core.Option.{Option, none, some}

-- `panic` stands for an abort: an index out of bounds, a failed assertion, `unreachable!`.
pub data Result {ℓ} (E A : Type ℓ) : Type ℓ where
  panic : Result E A
  err : E → Result E A
  ok : A → Result E A

-- `Option::ok_or`
abbrev pub ok_or {ℓ} : {E A : Type ℓ} → Option A → E → Result E A
ok_or (some found) missing = ok found
ok_or none missing = err missing

-- `if !test { return Err(error) }`
abbrev pub guard {ℓ} : {E : Type ℓ} → Bool → E → Result E (Unit {ℓ})
guard false error = err error
guard true error = ok tt

infixl 5 ◌>>=◌ ◌>>◌
-- The `?` operator, in a `do` block.
abbrev pub ◌>>=◌ {ℓ} : {E A B : Type ℓ} → Result E A → (A → Result E B) → Result E B
panic >>= next = panic
err error >>= next = err error
ok value >>= next = next value

-- A statement whose answer is not used.
abbrev pub ◌>>◌ {ℓ} : {E A B : Type ℓ} → Result E A → Result E B → Result E B
first >> second = first >>= λ ignored. second

pub >>=-eq-ok {ℓ} :
    {E A B : Type ℓ} (first : Result E A) (next : A → Result E B) {out : B}
    → (first >>= next) ≡ ok out
    → (value : A) × (first ≡ ok value) × (next value ≡ ok out)
>>=-eq-ok panic next h = cc
>>=-eq-ok (err error) next h = cc
>>=-eq-ok (ok value) next h = (value, refl, h)

pub guard-eq-ok :
    {E A : Type 0} (test : Bool) (error : E) (next : Result E A) {out : A}
    → (guard test error >> next) ≡ ok out
    → (test ≡ true) × (next ≡ ok out)
guard-eq-ok false error next h = cc
guard-eq-ok true error next h = (refl, h)

pub ok_eq : {E A : Type 0} {a b : A} (r : Result E A) → r ≡ ok a → r ≡ ok b → b ≡ a
ok_eq panic g h = cc
ok_eq (err e) g h = cc
ok_eq (ok c) g h = cc

-- A check that answers nothing succeeds exactly where its parts do.
pub guard_exact : {E : Type 0} (b : Bool) (e : E) → (guard b e ≡ ok tt) ↔ (b ≡ true)
guard_exact true e = (λ _. refl, λ _. refl)
guard_exact false e = (λ h. cc, λ h. cc)

pub seq_exact :
    {E P Q : Type 0} (m k : Result E (Unit {0}))
    → (m ≡ ok tt) ↔ P
    → (k ≡ ok tt) ↔ Q
    → (m >> k ≡ ok tt) ↔ (P × Q)
seq_exact (ok u) k f g = (λ h. (f.0 refl, g.0 h), λ (p, q). g.1 q)
seq_exact (err e) k f g = (λ h. cc, λ (p, q). cc (f.1 p))
seq_exact panic k f g = (λ h. cc, λ (p, q). cc (f.1 p))
