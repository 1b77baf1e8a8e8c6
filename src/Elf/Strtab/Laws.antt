-- ===== src/Elf/Strtab/Laws.antt =====
-- What `intern` stores, `read` finds, then and after any further `intern`.
use afs_as.Base.{
  ℕ, zero, suc, ◌%◌, ◌^◌, ◌<◌, ◌≤◌, ◌≡◌, refl, sym, ap, true, false, some, inl, inr, List, [], ◌∷◌,
  ◌++◌, length, take, drop, All, leb, ◌==◌, Bool-cases, Option-cases, ok, arith, length-append, map,
  drop-append,
}
use afs_as.Base.Bytes.{Bytes}
use afs_as.Base.Text.{lookup, is_utf8, text_eq, text_eq_iff, text_eq_refl}
use afs_as.Elf.Strtab.{StringTable, new, intern, intern_all, position_zero, read}
use mathlib.Core.List.{append_assoc, append-nil}

-- The bytes at `off` are the text `s` and a NUL.
abbrev pub Holds : Bytes → Bytes → ℕ → Type 0
Holds b s off = (rest : Bytes) × (drop off b ≡ s ++ (0 ∷ rest))

-- A text that can stand in a table: UTF-8 with no NUL.
abbrev pub IsName : Bytes → Type 0
IsName s = All (λ c. 0 < c) s × (is_utf8 s ≡ true)

pub record IsValid (t : StringTable) : Type 0 where
  pub leads : Holds t.contents [] 0
  pub stored : All (λ (e : Bytes × ℕ). Holds t.contents e.0 e.1) t.names

Holds-append : (b more s : Bytes) (off : ℕ) → Holds b s off → Holds (b ++ more) s off
Holds-append b more s zero (rest, e) = (rest ++ more, rw e (append_assoc s (0 ∷ rest) more))
Holds-append [] more [] (suc off) (rest, e) = cc
Holds-append [] more (x ∷ s) (suc off) (rest, e) = cc
Holds-append (x ∷ b) more s (suc off) h = Holds-append b more s off h

All-Holds-append :
    (b more : Bytes) (names : List (Bytes × ℕ))
    → All (λ (e : Bytes × ℕ). Holds b e.0 e.1) names
    → All (λ (e : Bytes × ℕ). Holds (b ++ more) e.0 e.1) names
All-Holds-append b more [] h = tt
All-Holds-append b more ((s, off) ∷ names) (p, h) =
    (Holds-append b more s off p, All-Holds-append b more names h)

lookup-Holds :
    (b s : Bytes) (names : List (Bytes × ℕ)) (off : ℕ)
    → All (λ (e : Bytes × ℕ). Holds b e.0 e.1) names
    → lookup s names ≡ some off
    → Holds b s off
unfolding lookup
lookup-Holds b s [] off h e = cc
lookup-Holds b s ((j, v) ∷ names) off (p, h) e = elim (Bool-cases (text_eq j s)) [
  | inl same ↦
      let f : v ≡ off = ground (arith, rw same at e) in
      let g : j ≡ s = (text_eq_iff j s).0 same in rw (← f, ← g) p
  | inr other ↦ lookup-Holds b s names off h (rw other at e)
]

read_at :
    (b s rest : Bytes)
    → All (λ c. 0 < c) s
    → b ≡ s ++ (0 ∷ rest)
    → (position_zero b ≡ some (length s)) × (take (length s) b ≡ s)
unfolding position_zero
read_at b [] rest h e = rw e (refl, refl)
read_at b (c ∷ s) rest (p, h) e =
    let (f, g) = read_at (s ++ (0 ∷ rest)) s rest h refl in
    let ne : (c == 0) ≡ false = ground arith in rw e (rw (ne, f) (ground arith), ap (◌∷◌ c) g)

Holds-lt : (b s : Bytes) (off : ℕ) → Holds b s off → off < length b
Holds-lt [] [] zero (rest, e) = cc
Holds-lt [] (x ∷ s) zero (rest, e) = cc
Holds-lt [] [] (suc off) (rest, e) = cc
Holds-lt [] (x ∷ s) (suc off) (rest, e) = cc
Holds-lt (x ∷ b) s zero h = omega arith
Holds-lt (x ∷ b) s (suc off) h = omega (arith, Holds-lt b s off h)

pub read-Holds : (b s : Bytes) (off : ℕ) → IsName s → Holds b s off → read b off ≡ ok s
unfolding read
read-Holds b s off (nonzero, utf8) (rest, e) =
    let (f, g) = read_at (drop off b) s rest nonzero e in
    let inside : leb (length b) off ≡ false = ground (arith, Holds-lt b s off (rest, e)) in
    rw (inside, f, read) (rw (g, utf8))

pub new-IsValid : IsValid new
unfolding new
new-IsValid = record { leads = ([], refl); stored = tt }

-- A table that `intern` has only appended to.
abbrev pub Extends : StringTable → StringTable → Type 0
Extends t u = (more : Bytes) × (u.contents ≡ t.contents ++ more)

pub Extends-trans : (t u w : StringTable) → Extends t u → Extends u w → Extends t w
Extends-trans t u w (m, e) (n, f) = (m ++ n, rw f (rw e (append_assoc t.contents m n)))

pub Extends-Holds :
    (t u : StringTable) (s : Bytes) (off : ℕ)
    → Extends t u
    → Holds t.contents s off
    → Holds u.contents s off
Extends-Holds t u s off (more, e) h = rw e (Holds-append t.contents more s off h)

intern-Extends : (t : StringTable) (s : Bytes) → Extends t (intern t s).1
unfolding intern
intern-Extends t [] = ([], sym (append-nil t.contents))
intern-Extends t (c ∷ cs) = elim (Option-cases (lookup (c ∷ cs) t.names)) [
  | inl fresh ↦ rw (fresh, intern) (c ∷ cs ++ 0 ∷ [], append_assoc t.contents (c ∷ cs) (0 ∷ []))
  | inr (off, old) ↦ rw (old, intern) ([], sym (append-nil t.contents))
]

record Interned (t : StringTable) (s : Bytes) (r : ℕ × StringTable) : Type 0 where
  valid : IsValid r.1
  found : Holds r.1.contents s r.0

intern_lem :
    (t : StringTable) (s : Bytes)
    → IsValid t
    → length t.contents < 2 ^ 32
    → Interned t s (intern t s)
unfolding intern
intern_lem t [] v small = record { valid = v; found = v.leads }
intern_lem t (c ∷ cs) v small = elim (Option-cases (lookup (c ∷ cs) t.names)) [
  | inl fresh ↦
      rw (fresh, intern)
        (rw (fits, appended)
          (record {
            valid = record {
              leads = Holds-append t.contents (c ∷ cs ++ 0 ∷ []) [] 0 v.leads;
              stored = (here, All-Holds-append t.contents (c ∷ cs ++ 0 ∷ []) t.names v.stored);
            };
            found = here;
          }))
  | inr (off, old) ↦
      rw (old, intern)
        (record { valid = v; found = lookup-Holds t.contents (c ∷ cs) t.names off v.stored old })
]
  where
    fits : length t.contents % 2 ^ 32 ≡ length t.contents
    fits = omega arith

    appended : (t.contents ++ (c ∷ cs)) ++ (0 ∷ []) ≡ t.contents ++ (c ∷ cs ++ 0 ∷ [])
    appended = append_assoc t.contents (c ∷ cs) (0 ∷ [])

    here : Holds (t.contents ++ (c ∷ cs ++ 0 ∷ [])) (c ∷ cs) (length t.contents)
    here = ([], drop-append t.contents (c ∷ cs ++ 0 ∷ []))

pub Extends-refl : (t : StringTable) → Extends t t
Extends-refl t = ([], sym (append-nil t.contents))

Extends-length : (t u : StringTable) → Extends t u → length t.contents ≤ length u.contents
Extends-length t u (more, e) = rw e (omega (arith, length-append t.contents more))

-- The table after a run of `intern`s, for which no bound is asked in advance.
intern_all-Extends : (ss : List Bytes) (t : StringTable) → Extends t (intern_all t ss).1
unfolding intern_all
intern_all-Extends [] t = Extends-refl t
intern_all-Extends (s ∷ ss) t =
    Extends-trans t (intern t s).1 (intern_all (intern t s).1 ss).1 (intern-Extends t s)
      (intern_all-Extends ss (intern t s).1)

intern_all-IsValid :
    (ss : List Bytes) (t : StringTable)
    → IsValid t
    → length (intern_all t ss).1.contents < 2 ^ 32
    → IsValid (intern_all t ss).1
unfolding intern_all
intern_all-IsValid [] t v small = v
intern_all-IsValid (s ∷ ss) t v small =
    intern_all-IsValid ss (intern t s).1 (intern_lem t s v (fits s ss t small)).valid small
  where
    fits :
        (s : Bytes) (ss : List Bytes) (t : StringTable)
        → length (intern_all (intern t s).1 ss).1.contents < 2 ^ 32
        → length t.contents < 2 ^ 32
    fits s ss t h = omega (
      arith,
      Extends-length t (intern t s).1 (intern-Extends t s),
      Extends-length (intern t s).1 (intern_all (intern t s).1 ss).1
          (intern_all-Extends ss (intern t s).1),
    )

intern_all_found :
    (ss : List Bytes) (t : StringTable)
    → IsValid t
    → length (intern_all t ss).1.contents < 2 ^ 32
    → All IsName ss
    → map (read (intern_all t ss).1.contents) (intern_all t ss).0 ≡ map ok ss
unfolding intern_all
intern_all_found [] t v small names = refl
intern_all_found (s ∷ ss) t v small (n, names) =
    let u = (intern t s).1 in
    let w = (intern_all u ss).1 in
    let later = intern_all-Extends ss u in
    let fits : length t.contents < 2 ^ 32 =
      omega (arith, Extends-length t u (intern-Extends t s), Extends-length u w later) in
    let i = intern_lem t s v fits in
    let first =
      read-Holds w.contents s (intern t s).0 n (Extends-Holds u w s (intern t s).0 later i.found) in
    rw (first, intern_all_found ss u i.valid small names)

-- After any run of interned names (UTF-8 with no NUL), in which names may repeat, the table is valid and every offset
-- that was handed out reads back as its name, as long as the table stays within 32-bit offsets.
pub read-intern_all :
    (ss : List Bytes)
    → length (intern_all new ss).1.contents < 2 ^ 32
    → All IsName ss
    → IsValid (intern_all new ss).1
      × (map (read (intern_all new ss).1.contents) (intern_all new ss).0 ≡ map ok ss)
read-intern_all ss small names =
    (intern_all-IsValid ss new new-IsValid small, intern_all_found ss new new-IsValid small names)

-- Interning a name again changes nothing and hands out the same offset.
pub intern_again :
    (t : StringTable) (s : Bytes) → intern (intern t s).1 s ≡ ((intern t s).0, (intern t s).1)
unfolding intern
intern_again t [] = refl
intern_again t (c ∷ cs) = elim (Option-cases (lookup (c ∷ cs) t.names)) [
  | inl fresh ↦
      let u : StringTable = record {
        contents = (t.contents ++ (c ∷ cs)) ++ (0 ∷ []);
        names = (c ∷ cs, length t.contents % 2 ^ 32) ∷ t.names;
      } in
      let e : intern t (c ∷ cs) ≡ (length t.contents % 2 ^ 32, u) = rw (fresh, intern) in
      let found : lookup (c ∷ cs) u.names ≡ some (length t.contents % 2 ^ 32) =
        unfold lookup in rw (text_eq_refl (c ∷ cs)) in
      rw e (rw (found, intern))
  | inr (off, old) ↦ let e : intern t (c ∷ cs) ≡ (off, t) = rw (old, intern) in rw e e
]
