-- ===== src/Elf/Validate/Exact.antt =====
-- `validate` decides what an object must satisfy to be written, stated without the code's tests.
use afs_as.Base.{
  ℕ, zero, suc, ◌+◌, ◌/◌, ◌%◌, ◌^◌, ◌<◌, ◌≤◌, ◌≡◌, ◌≢◌, ◌↔◌, ◌⊎◌, inl, inr, refl, true, Option,
  none, some, List, [], ◌∷◌, length, ◌==◌, ok, arith, All, Bool-cases, ◌||◌, ◌-◌, guard_exact,
  seq_exact,
}
use afs_as.Base.Bytes.{usize}
use afs_as.Elf.Constants.{sht_nobits}
use afs_as.Elf.Error.{new, alignment_not_power_of_two}
use afs_as.Elf.Model.{SymbolPlace, section, Symbol, Rela, Section, ObjectFile}
use afs_as.Elf.Validate.{
  power_of_two_within, is_power_of_two, width_for, validate_width, validate_rela, validate_relas,
  validate_sections, validate_place, validate_symbols, validate,
}
use native.Mathlib.Nat.{pow-suc}
use native.Mathlib.Decide.{dec_lt}

pub record RelaFits (obj : ObjectFile) (sec : Section) (r : Rela) : Type 0 where
  pub symbol : r.symbol < length obj.symbols
  pub has_bytes : sec.sh_type ≢ sht_nobits
  pub field :
      (w : ℕ) × (width_for obj.machine r.r_type ≡ some (some w))
      × (r.offset + w ≤ length sec.contents)

abbrev pub IsAlignment : ℕ → Type 0
IsAlignment a = (a ≡ 0) ⊎ ((k : ℕ) × (a ≡ 2 ^ k))

pub record SectionFits (obj : ObjectFile) (sec : Section) : Type 0 where
  pub alignment : IsAlignment sec.sh_addralign
  pub relas : All (RelaFits obj sec) sec.relas

abbrev pub PlaceFits : ObjectFile → SymbolPlace → Type 0
PlaceFits obj (section idx) = idx < length obj.sections
PlaceFits obj _ = Unit {0}

pub record IsWritable (obj : ObjectFile) : Type 0 where
  pub sections : All (SectionFits obj) obj.sections
  pub symbols : All (λ (s : Symbol). PlaceFits obj s.place) obj.symbols

power_of_two_within-pow : (bits n : ℕ) → power_of_two_within bits n ≡ true → (k : ℕ) × (n ≡ 2 ^ k)
unfolding power_of_two_within
power_of_two_within-pow zero n h = cc
power_of_two_within-pow (suc bits) n h = elim (Bool-cases (n % 2 == 0)) [
  | inl even ↦
      let (k, e) = power_of_two_within-pow bits (n / 2) (rw (even, power_of_two_within) at h) in
      (suc k, double k e even)
  | inr odd ↦ (0, ground (arith, rw (odd, power_of_two_within) at h))
]
  where
    double : (k : ℕ) → n / 2 ≡ 2 ^ k → (n % 2 == 0) ≡ true → n ≡ 2 ^ suc k
    double k e even = let f : n % 2 ≡ 0 = ground arith in omega (arith, pow-suc 2 k)

pow-power_of_two_within : (bits k : ℕ) → k < bits → power_of_two_within bits (2 ^ k) ≡ true
unfolding power_of_two_within
pow-power_of_two_within zero k h = absurd (omega arith)
pow-power_of_two_within (suc bits) zero h = refl
pow-power_of_two_within (suc bits) (suc k) h =
    let even : (2 ^ suc k % 2 == 0) ≡ true =
      let e : 2 ^ suc k % 2 ≡ 0 = omega (arith, pow-suc 2 k) in rw e in
    let half : 2 ^ suc k / 2 ≡ 2 ^ k = omega (arith, pow-suc 2 k) in
    rw (even, power_of_two_within) (rw half (pow-power_of_two_within bits k (omega arith)))

module _ (obj : ObjectFile) (sec : Section) where
  RelaFits-of_width :
      (r : Rela) (o : Option (Option ℕ))
      → width_for obj.machine r.r_type ≡ o
      → validate_rela obj sec r ≡ ok tt
      → RelaFits obj sec r
  unfolding validate_rela validate_width usize
  RelaFits-of_width r none e h = ground (arith, rw (e, validate_width) at h)
  RelaFits-of_width r (some none) e h = ground (arith, rw (e, validate_width) at h)
  RelaFits-of_width r (some (some w)) e h =
      let g = rw (e, validate_width) at h in
      record {
        symbol = ground (arith, g);
        has_bytes = λ n. ground (arith, g, n);
        field = (w, e, ground (arith, g));
      }

  RelaFits-validate_rela :
      (r : Rela)
      → length sec.contents < 2 ^ 64
      → RelaFits obj sec r
      → validate_rela obj sec r ≡ ok tt
  unfolding validate_rela validate_width usize
  RelaFits-validate_rela r small f =
      let (w, e, room) = f.field in
      rw (e, validate_width) (ground (arith, f.symbol, f.has_bytes, room))

  validate_relas_exact :
      (rs : List Rela)
      → length sec.contents < 2 ^ 64
      → (validate_relas obj sec rs ≡ ok tt) ↔ All (RelaFits obj sec) rs
  unfolding validate_relas
  validate_relas_exact [] small = (λ _. tt, λ _. refl)
  validate_relas_exact (r ∷ rs) small =
      seq_exact (validate_rela obj sec r) (validate_relas obj sec rs)
        (RelaFits-of_width r (width_for obj.machine r.r_type) refl, RelaFits-validate_rela r small)
        (validate_relas_exact rs small)

pow_mono : (k d : ℕ) → 2 ^ k ≤ 2 ^ (d + k)
pow_mono k zero = let e : 0 + k ≡ k = omega arith in rw e (omega arith)
pow_mono k (suc d) =
    let e : suc d + k ≡ suc (d + k) = omega arith in
    rw e (omega (arith, pow-suc 2 (d + k), pow_mono k d))

exponent_small : (k : ℕ) → 2 ^ k < 2 ^ 64 → k < 64
exponent_small k h = elim (dec_lt k 64) [
  | yes small ↦ small
  | no big ↦
      let e : k - 64 + 64 ≡ k = omega arith in
      absurd (omega (arith, rw e at (pow_mono 64 (k - 64))))
]

IsAlignment-exact : (a : ℕ) → a < 2 ^ 64 → ((a == 0 || is_power_of_two a) ≡ true) ↔ IsAlignment a
unfolding is_power_of_two
IsAlignment-exact a small = (
  (λ h. elim (Bool-cases (a == 0)) [
    | inl zeroed ↦ inl (ground arith)
    | inr nonzero ↦ inr (power_of_two_within-pow 64 a (rw nonzero at h))
  ]),
  elim [
    | inl e ↦ ground arith
    | inr (k, e) ↦
        let found : power_of_two_within 64 a ≡ true =
          rw e (pow-power_of_two_within 64 k (exponent_small k (rw e at small))) in
        rw found (ground arith)
  ],
)

-- The bounds of the field types: a length and an alignment are u64 values.
abbrev pub IsStored : Section → Type 0
IsStored sec = (length sec.contents < 2 ^ 64) × (sec.sh_addralign < 2 ^ 64)

validate_sections_exact :
    (obj : ObjectFile) (secs : List Section)
    → All IsStored secs
    → (validate_sections obj secs ≡ ok tt) ↔ All (SectionFits obj) secs
unfolding validate_sections
validate_sections_exact obj [] h = (λ _. tt, λ _. refl)
validate_sections_exact obj (sec ∷ secs) (h, hs) =
    let aligned = IsAlignment-exact sec.sh_addralign h.1 in
    let guarded =
      guard_exact (sec.sh_addralign == 0 || is_power_of_two sec.sh_addralign)
        (new (alignment_not_power_of_two sec.name sec.sh_addralign)) in
    let relas = validate_relas_exact obj sec sec.relas h.0 in
    let whole =
      seq_exact _ _ (λ e. aligned.0 (guarded.0 e), λ p. guarded.1 (aligned.1 p))
        (seq_exact (validate_relas obj sec sec.relas) (validate_sections obj secs) relas
          (validate_sections_exact obj secs hs)) in
    (
      (λ e. let (a, p) = whole.0 e in (record { alignment = a; relas = p.0 }, p.1)),
      (λ (f, fs). whole.1 (f.alignment, (f.relas, fs))),
    )

validate_place_exact :
    (obj : ObjectFile) (i : ℕ) (s : Symbol) (place : SymbolPlace)
    → (validate_place obj i s place ≡ ok tt) ↔ PlaceFits obj place
unfolding validate_place
validate_place_exact obj i s (section idx) = (λ h. ground arith, λ h. ground arith)
validate_place_exact obj i s _ = (λ _. tt, λ _. refl)

validate_symbols_exact :
    (obj : ObjectFile) (i : ℕ) (syms : List Symbol)
    → (validate_symbols obj i syms ≡ ok tt) ↔ All (λ (s : Symbol). PlaceFits obj s.place) syms
unfolding validate_symbols
validate_symbols_exact obj i [] = (λ _. tt, λ _. refl)
validate_symbols_exact obj i (s ∷ ss) =
    seq_exact (validate_place obj i s s.place) (validate_symbols obj (i + 1) ss)
      (validate_place_exact obj i s s.place) (validate_symbols_exact obj (i + 1) ss)

-- `validate` accepts exactly the writable objects: alignments that are 0 or powers of two,
-- relocations of a known type inside a section that has bytes, against a symbol of the object, and
-- symbols in sections of the object. Lengths and alignments are u64 values.
pub validate_exact :
    (obj : ObjectFile) → All IsStored obj.sections → (validate obj ≡ ok tt) ↔ IsWritable obj
unfolding validate
validate_exact obj stored =
    let whole =
      seq_exact (validate_sections obj obj.sections) (validate_symbols obj 0 obj.symbols)
        (validate_sections_exact obj obj.sections stored)
        (validate_symbols_exact obj 0 obj.symbols) in
    (
      (λ e. let (p, q) = whole.0 e in record { sections = p; symbols = q }),
      (λ w. whole.1 (w.sections, w.symbols)),
    )
