-- ===== src/Elf/SymbolOrder/Exact.antt =====
-- Where the renumbering of `write_elf` in src/elf.rs puts each symbol.
use afs_as.Base.{
  ℕ, zero, suc, ◌+◌, ◌-◌, ◌%◌, ◌^◌, ◌<◌, ◌≤◌, ◌≡◌, ◌≢◌, ◌↔◌, refl, sym, ap, ◌∙◌, Bool, true, false,
  not, some, List, [], ◌∷◌, ◌++◌, length, length-append, length-set, length-replicate, get_elem?,
  get_elem?-set_self, get_elem?-set_ne, replicate, set, arith, All, All-append, Bool-cases, inl,
  inr, ltb, lt→ltb, ok,
}
use afs_as.Elf.Model.{Symbol}
use afs_as.Elf.SymbolOrder.{
  is_local, indexes, locals, order, file_index, first_global, fill_files, model_to_file,
}

abbrev Fresh : ℕ → List ℕ → Type 0
Fresh i is = All (λ j. j ≢ i) is

abbrev Distinct : List ℕ → Type 0
Distinct [] = Unit
Distinct (i ∷ is) = Fresh i is × Distinct is

All_weaken : (P Q : ℕ → Type 0) → ((i : ℕ) → P i → Q i) → (is : List ℕ) → All P is → All Q is
All_weaken P Q f [] h = tt
All_weaken P Q f (i ∷ is) (p, h) = (f i p, All_weaken P Q f is h)

indexes-le :
    (test : Symbol → Bool) (first : ℕ) (ss : List Symbol)
    → All (λ i. first ≤ i) (indexes test first ss)
unfolding indexes
indexes-le test first [] = tt
indexes-le test first (s ∷ ss) =
    let above =
      All_weaken (λ i. first + 1 ≤ i) (λ i. first ≤ i) (λ i h. omega arith)
        (indexes test (first + 1) ss) (indexes-le test (first + 1) ss) in
    elim (Bool-cases (test s)) [ inl hit ↦ rw hit (omega arith, above) | inr miss ↦ rw miss above ]

Distinct-insert :
    (i : ℕ) (xs ys : List ℕ)
    → Fresh i xs
    → Fresh i ys
    → Distinct (xs ++ ys)
    → Distinct (xs ++ (i ∷ ys))
Distinct-insert i [] ys f g d = (g, d)
Distinct-insert i (x ∷ xs) ys (p, f) g (e, d) = (fresh xs e, Distinct-insert i xs ys f g d)
  where
    fresh : (xs : List ℕ) → Fresh x (xs ++ ys) → Fresh x (xs ++ (i ∷ ys))
    fresh [] h = ((λ q. p (sym q)), h)
    fresh (y ∷ xs) (h, hs) = (h, fresh xs hs)

indexes-Distinct :
    (test : Symbol → Bool) (first : ℕ) (ss : List Symbol)
    → Distinct (indexes test first ss ++ indexes (λ s. not (test s)) first ss)
unfolding indexes
indexes-Distinct test first [] = tt
indexes-Distinct test first (s ∷ ss) =
    let xs = indexes test (first + 1) ss in
    let ys = indexes (λ s. not (test s)) (first + 1) ss in
    let above = λ (is : List ℕ) (h : All (λ i. first + 1 ≤ i) is).
      All_weaken (λ i. first + 1 ≤ i) (λ j. j ≢ first) (λ i h. omega arith) is h in
    let f = above xs (indexes-le test (first + 1) ss) in
    let g = above ys (indexes-le (λ s. not (test s)) (first + 1) ss) in
    let d = indexes-Distinct test (first + 1) ss in
    elim (Bool-cases (test s)) [
      | inl hit ↦ rw hit (All-append (λ j. j ≢ first) xs ys f g, d)
      | inr miss ↦ rw miss (Distinct-insert first xs ys f g d)
    ]

-- Every symbol that passes the test stands in the list, at some place.
indexes_complete :
    (test : Symbol → Bool) (first : ℕ) (ss : List Symbol) (i : ℕ) (s : Symbol)
    → get_elem? ss i ≡ some s
    → test s ≡ true
    → (k : ℕ) × (k < length (indexes test first ss))
      × (get_elem? (indexes test first ss) k ≡ some (first + i))
unfolding indexes
indexes_complete test first [] i s e h = cc
indexes_complete test first (t ∷ ss) zero s e h =
    let q : t ≡ s = ground arith in
    let hit : test t ≡ true = rw q h in
    let z : first ≡ first + 0 = omega arith in rw hit (0, omega arith, ap some z)
indexes_complete test first (t ∷ ss) (suc i) s e h =
    let (k, room, found) = indexes_complete test (first + 1) ss i s e h in
    let z : first + 1 + i ≡ first + suc i = omega arith in
    elim (Bool-cases (test t)) [
      | inl hit ↦ rw hit (suc k, omega arith, found ∙ ap some z)
      | inr miss ↦ rw miss (k, room, found ∙ ap some z)
    ]

get_elem?-append_left :
    (xs ys : List ℕ) (k : ℕ) → k < length xs → get_elem? (xs ++ ys) k ≡ get_elem? xs k
get_elem?-append_left [] ys k h = absurd (omega arith)
get_elem?-append_left (x ∷ xs) ys zero h = refl
get_elem?-append_left (x ∷ xs) ys (suc k) h = get_elem?-append_left xs ys k (omega arith)

get_elem?-append_right :
    (xs ys : List ℕ) (k : ℕ) → get_elem? (xs ++ ys) (length xs + k) ≡ get_elem? ys k
get_elem?-append_right [] ys k = let e : 0 + k ≡ k = omega arith in rw e
get_elem?-append_right (x ∷ xs) ys k =
    let e : suc (length xs) + k ≡ suc (length xs + k) = omega arith in
    rw e (get_elem?-append_right xs ys k)

-- The map where no index overflows.
unfoldable filled : ℕ → List ℕ → List ℕ → List ℕ
filled k [] files = files
filled k (i ∷ is) files = filled (k + 1) is (set files i (1 + k))

file_index_lem : (k : ℕ) → k + 1 < 2 ^ 32 → file_index k ≡ ok (1 + k)
unfolding file_index
file_index_lem k h =
    let small : 1 + k % 2 ^ 32 ≡ 1 + k = omega (arith, h) in
    let fits : ltb (1 + k) (2 ^ 32) ≡ true = lt→ltb _ _ (omega (arith, h)) in rw (small, fits) refl

fill_files_lem :
    (is : List ℕ) (k : ℕ) (files : List ℕ)
    → k + length is < 2 ^ 32
    → fill_files k is files ≡ ok (filled k is files)
unfolding fill_files filled
fill_files_lem [] k files h = refl
fill_files_lem (i ∷ is) k files h =
    rw (file_index_lem k (omega (arith, h)))
      (fill_files_lem is (k + 1) (set files i (1 + k)) (omega (arith, h)))

filled_keeps :
    (is : List ℕ) (k i : ℕ) (files : List ℕ)
    → Fresh i is
    → get_elem? (filled k is files) i ≡ get_elem? files i
unfolding filled
filled_keeps [] k i files f = refl
filled_keeps (j ∷ is) k i files (p, f) =
    filled_keeps is (k + 1) i (set files j (1 + k)) f ∙ get_elem?-set_ne files (1 + k) p

filled_sets :
    (is : List ℕ) (k j i : ℕ) (files : List ℕ)
    → Distinct is
    → i < length files
    → get_elem? is j ≡ some i
    → get_elem? (filled k is files) i ≡ some (1 + (k + j))
unfolding filled
filled_sets [] k j i files d room e = cc
filled_sets (x ∷ is) k zero i files (f, d) room e =
    let q : x ≡ i = ground arith in
    let z : k + 0 ≡ k = omega arith in
    rw z (
      rw q (
        filled_keeps is (k + 1) i (set files i (1 + k)) (rw q at f)
        ∙ get_elem?-set_self files i (1 + k) room))
filled_sets (x ∷ is) k (suc j) i files (f, d) room e =
    let z : k + 1 + j ≡ k + suc j = omega arith in
    let u = set files x (1 + k) in
    rw (← z) (filled_sets is (k + 1) j i u d (omega (arith, length-set files x (1 + k))) e)

length-indexes :
    (test : Symbol → Bool) (first : ℕ) (ss : List Symbol)
    → length (indexes test first ss) + length (indexes (λ s. not (test s)) first ss) ≡ length ss
unfolding indexes
length-indexes test first [] = refl
length-indexes test first (s ∷ ss) = ground (arith, length-indexes test (first + 1) ss)

abbrev globals : List Symbol → List ℕ
globals ss = indexes (λ s. not (is_local s)) 0 ss

-- What the file index of a symbol satisfies.
pub record IsFileIndex (ss : List Symbol) (i : ℕ) (s : Symbol) (file : ℕ) : Type 0 where
  pub files : List ℕ
  pub filled : model_to_file ss ≡ ok files
  pub recorded : get_elem? files i ≡ some file
  pub positive : 1 ≤ file
  pub written : get_elem? (order ss) (file - 1) ≡ some i
  pub first : ℕ
  pub counted : first_global ss ≡ ok first
  pub local_first : (is_local s ≡ true) ↔ (file < first)

abbrev files_of : List Symbol → List ℕ
files_of ss = filled 0 (order ss) (replicate (length ss) 0)

length-order : (ss : List Symbol) → length (order ss) ≡ length ss
unfolding order
length-order ss = length-append (locals ss) (globals ss) ∙ length-indexes is_local 0 ss

model_to_file_lem : (ss : List Symbol) → length ss < 2 ^ 32 → model_to_file ss ≡ ok (files_of ss)
unfolding model_to_file
model_to_file_lem ss small =
    fill_files_lem (order ss) 0 (replicate (length ss) 0) (omega (arith, small, length-order ss))

recorded_at :
    (ss : List Symbol) (k i : ℕ)
    → i < length ss
    → get_elem? (order ss) k ≡ some i
    → get_elem? (files_of ss) i ≡ some (1 + k)
unfolding order
recorded_at ss k i room e =
    let z : 0 + k ≡ k = omega arith in
    rw z at (
      filled_sets (order ss) 0 k i (replicate (length ss) 0) (indexes-Distinct is_local 0 ss)
        (omega (arith, length-replicate {A = ℕ} (length ss) 0)) e)

get_elem?-lt : (ss : List Symbol) (i : ℕ) {s : Symbol} → get_elem? ss i ≡ some s → i < length ss
get_elem?-lt [] i e = cc
get_elem?-lt (t ∷ ss) zero e = omega arith
get_elem?-lt (t ∷ ss) (suc i) e = omega (arith, get_elem?-lt ss i e)

local_index :
    (ss : List Symbol) (i : ℕ) (s : Symbol)
    → length ss + 1 < 2 ^ 32
    → get_elem? ss i ≡ some s
    → is_local s ≡ true
    → (file : ℕ) × IsFileIndex ss i s file
unfolding order first_global
local_index ss i s small e hit =
    let (k, room, found) = indexes_complete is_local 0 ss i s e hit in
    let total = length-indexes is_local 0 ss in
    let z : 0 + i ≡ i = omega arith in
    let placed : get_elem? (order ss) k ≡ some i =
      get_elem?-append_left (locals ss) (globals ss) k room ∙ found ∙ ap some z in
    let y : 1 + k - 1 ≡ k = omega arith in
    (
      1 + k,
      record {
        files = files_of ss;
        filled = model_to_file_lem ss (omega (arith, small));
        recorded = recorded_at ss k i (get_elem?-lt ss i e) placed;
        positive = omega arith;
        written = rw y placed;
        first = 1 + length (locals ss);
        counted = file_index_lem (length (locals ss)) (omega (arith, small, total));
        local_first = ((λ _. omega arith), (λ _. hit));
      },
    )

global_index :
    (ss : List Symbol) (i : ℕ) (s : Symbol)
    → length ss + 1 < 2 ^ 32
    → get_elem? ss i ≡ some s
    → is_local s ≡ false
    → (file : ℕ) × IsFileIndex ss i s file
unfolding order first_global
global_index ss i s small e miss =
    let hit : not (is_local s) ≡ true = rw miss in
    let (k, room, found) = indexes_complete (λ s. not (is_local s)) 0 ss i s e hit in
    let total = length-indexes is_local 0 ss in
    let z : 0 + i ≡ i = omega arith in
    let n = length (locals ss) in
    let placed : get_elem? (order ss) (n + k) ≡ some i =
      get_elem?-append_right (locals ss) (globals ss) k ∙ found ∙ ap some z in
    let y : 1 + (n + k) - 1 ≡ n + k = omega arith in
    (
      1 + (n + k),
      record {
        files = files_of ss;
        filled = model_to_file_lem ss (omega (arith, small));
        recorded = recorded_at ss (n + k) i (get_elem?-lt ss i e) placed;
        positive = omega arith;
        written = rw y placed;
        first = 1 + length (locals ss);
        counted = file_index_lem (length (locals ss)) (omega (arith, small, total));
        local_first = ((λ h. cc), (λ h. absurd (omega arith)));
      },
    )

-- With fewer than 2^32 - 1 symbols, no index overflows and every symbol gets a positive file index;
-- the written order holds that symbol there, and it is local exactly if its index is below the
-- `sh_info` of the table.
pub model_to_file_exact :
    (ss : List Symbol) (i : ℕ) (s : Symbol)
    → length ss + 1 < 2 ^ 32
    → get_elem? ss i ≡ some s
    → (file : ℕ) × IsFileIndex ss i s file
model_to_file_exact ss i s small e = elim (Bool-cases (is_local s)) [
  | inl hit ↦ local_index ss i s small e hit
  | inr miss ↦ global_index ss i s small e miss
]
