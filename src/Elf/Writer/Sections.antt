-- ===== src/Elf/Writer/Sections.antt =====
-- The section headers that `write_elf` of src/elf.rs collects: one for each section of the object,
-- and those of the tables that it adds.
use afs_as.Base.{
  ℕ, suc, ◌+◌, ◌≡◌, ◌⊎◌, refl, sym, ap, ◌∙◌, max, inl, inr, Bool-cases, Option, none, some, List,
  [], ◌∷◌, ◌++◌, length, length-append, ◌==◌, if◌then◌else◌, ok, >>=-eq-ok, ok_eq, arith,
}
use afs_as.Base.Bytes.{Bytes}
use afs_as.Elf.Constants.{ehdr_size, sht_nobits, sht_null}
use afs_as.Elf.Layout.{Allocator, align_up, place, SectionHeaderEncoding}
use afs_as.Elf.Model.{Section, ObjectFile}
use afs_as.Elf.Shdr.{Elf64Shdr}
use afs_as.Elf.SymbolOrder.{order, first_global, model_to_file}
use afs_as.Elf.Writer.{
  names_in, symbol_entries, Output, write_note, note_count, write_section, write_sections,
  write_table, rela_entries, write_relas, count_relocated, write_contents,
}
use mathlib.Core.List.{append_assoc, append-nil}

-- The size of a section: the bytes that it holds, or the room that it asks for.
abbrev pub size_of : Section → ℕ
size_of sec = if sec.sh_type == sht_nobits then sec.nobits_size else length sec.contents

-- A header says of a section what the object does.
pub record IsHeaderOf (sec : Section) (h : Elf64Shdr) : Type 0 where
  pub sh_type : h.sh_type ≡ sec.sh_type
  pub sh_flags : h.sh_flags ≡ sec.sh_flags
  pub sh_addralign : h.sh_addralign ≡ sec.sh_addralign
  pub sh_size : h.sh_size ≡ size_of sec

-- One header for each section, in order.
abbrev pub Describes : List Section → List Elf64Shdr → Type 0
Describes [] [] = Unit {0}
Describes (sec ∷ secs) (h ∷ hs) = IsHeaderOf sec h × Describes secs hs
Describes _ _ = ⊥

pub length-Describes :
    (secs : List Section) (hs : List Elf64Shdr) → Describes secs hs → length hs ≡ length secs
length-Describes [] [] d = refl
length-Describes [] (h ∷ hs) d = absurd d
length-Describes (sec ∷ secs) [] d = absurd d
length-Describes (sec ∷ secs) (h ∷ hs) (one, d) = ap suc (length-Describes secs hs d)

List-cases : {A : Type 0} (xs : List A) → (xs ≡ []) ⊎ ((x : A) × (rest : List A) × (xs ≡ x ∷ rest))
List-cases [] = inl refl
List-cases (x ∷ xs) = inr (x, xs, refl)

-- `n` headers more.
abbrev Extends : Output → Output → ℕ → Type 0
Extends out next n = (ts : List Elf64Shdr) × (next.shdrs ≡ out.shdrs ++ ts) × (length ts ≡ n)

Extends-trans : (a b c : Output) (n m : ℕ) → Extends a b n → Extends b c m → Extends a c (n + m)
Extends-trans a b c n m (ts, e, k) (us, f, l) = (
  ts ++ us,
  f ∙ ap (λ (hs : List Elf64Shdr). hs ++ us) e ∙ append_assoc a.shdrs ts us,
  omega (arith, length-append ts us, k, l),
)

write_note_lem :
    (out : Output) (flags : Option ℕ) → Extends out (write_note out flags) (note_count flags)
unfolding write_note
write_note_lem out none = ([], sym (append-nil out.shdrs), refl)
write_note_lem out (some flags) = (_, refl, refl)

module _ (reserve : Allocator) where
  write_section_lem :
      (out : Output) (sec : Section) (next : Output)
      → write_section reserve out sec ≡ ok next
      → (h : Elf64Shdr) × (next.shdrs ≡ out.shdrs ++ (h ∷ [])) × IsHeaderOf sec h
  unfolding write_section
  write_section_lem out sec next e = elim (Bool-cases (sec.sh_type == sht_nobits)) [
    | inl k ↦
        let (here, up, done) =
          >>=-eq-ok (align_up (ehdr_size + length out.body) (max sec.sh_addralign 1)) _
            (rw (k, write_section) at e) in
        (
          _,
          ap (λ (o : Output). o.shdrs) (ok_eq (ok _) refl done),
          record { sh_type = refl; sh_flags = refl; sh_addralign = refl; sh_size = rw k refl },
        )
    | inr k ↦
        let (placed, up, done) =
          >>=-eq-ok (place reserve out.body sec.sh_addralign sec.contents) _
            (rw (k, write_section) at e) in
        (
          _,
          ap (λ (o : Output). o.shdrs) (ok_eq (ok _) refl done),
          record { sh_type = refl; sh_flags = refl; sh_addralign = refl; sh_size = rw k refl },
        )
  ]

  write_sections_lem :
      (out : Output) (secs : List Section) (next : Output)
      → write_sections reserve out secs ≡ ok next
      → (hs : List Elf64Shdr) × (next.shdrs ≡ out.shdrs ++ hs) × Describes secs hs
  unfolding write_sections
  write_sections_lem out [] next e =
      ([], ap (λ (o : Output). o.shdrs) (ok_eq (ok _) refl e) ∙ sym (append-nil out.shdrs), tt)
  write_sections_lem out (sec ∷ secs) next e =
      let (first, done, rest) = >>=-eq-ok (write_section reserve out sec) _ e in
      let (h, added, one) = write_section_lem out sec first done in
      let (hs, more, d) = write_sections_lem first secs next rest in
      (
        h ∷ hs,
        more ∙ ap (λ (ts : List Elf64Shdr). ts ++ hs) added ∙ append_assoc out.shdrs (h ∷ []) hs,
        (one, d),
      )

  write_table_lem :
      (out : Output) (name : Bytes) (typ link info align entsize : ℕ) (bytes : Bytes)
      (next : Output)
      → write_table reserve out name typ link info align entsize bytes ≡ ok next
      → Extends out next 1
  unfolding write_table
  write_table_lem out name typ link info align entsize bytes next e =
      let (placed, up, done) = >>=-eq-ok (place reserve out.body align bytes) _ e in
      (_, ap (λ (o : Output). o.shdrs) (ok_eq (ok _) refl done), refl)

  write_relas_lem :
      (files : List ℕ) (symtab_idx : ℕ) (out : Output) (k : ℕ) (secs : List Section) (next : Output)
      → write_relas reserve files symtab_idx out k secs ≡ ok next
      → Extends out next (count_relocated secs)
  unfolding write_relas count_relocated
  write_relas_lem files symtab_idx out k [] next e =
      ([], ap (λ (o : Output). o.shdrs) (ok_eq (ok _) refl e) ∙ sym (append-nil out.shdrs), refl)
  write_relas_lem files symtab_idx out k (sec ∷ secs) next e = elim (List-cases sec.relas) [
    | inl none_there ↦
        let (ts, added, count) =
          write_relas_lem files symtab_idx out (k + 1) secs next
            (rw (none_there, write_relas) at e) in
        rw none_there (ts, added, omega (arith, count))
    | inr (r, rs, some_there) ↦
        let (body, entries, e1) =
          >>=-eq-ok (rela_entries reserve files (r ∷ rs) []) _
            (rw (some_there, write_relas) at e) in
        let (first, done, rest) = >>=-eq-ok (write_table reserve out _ _ _ _ _ _ body) _ e1 in
        let one = write_table_lem out _ _ _ _ _ _ body first done in
        rw some_there (
          Extends-trans out first next 1 (count_relocated secs) one
            (write_relas_lem files symtab_idx first (k + 1) secs next rest))
  ]

  -- The headers of a written object: the null header, those of the sections, and those of the note,
  -- of the three tables and of the relocation tables.
  pub write_contents_lem :
      (obj : ObjectFile) (encoding : SectionHeaderEncoding) (out : Output)
      → write_contents reserve obj encoding ≡ ok out
      → (null : Elf64Shdr) × (hs ts : List Elf64Shdr) × (out.shdrs ≡ null ∷ (hs ++ ts))
        × Describes obj.sections hs
        × (length ts ≡ note_count obj.gnu_stack_flags + 3 + count_relocated obj.sections)
        × (null.sh_type ≡ sht_null)
        × (null.sh_size ≡ encoding.null_sh_size)
        × (null.sh_link ≡ encoding.null_sh_link)
  unfolding write_contents
  write_contents_lem obj encoding out e =
      let (first, e1, h1) = >>=-eq-ok (first_global obj.symbols) _ e in
      let (files, e2, h2) = >>=-eq-ok (model_to_file obj.symbols) _ h1 in
      let (names, e3, h3) = >>=-eq-ok (names_in obj.symbols (order obj.symbols)) _ h2 in
      let (symtab, e4, h4) = >>=-eq-ok (symbol_entries obj.symbols _ _ _) _ h3 in
      let (contents, e5, h5) = >>=-eq-ok (write_sections reserve _ obj.sections) _ h4 in
      let (hs, placed, d) = write_sections_lem _ obj.sections contents e5 in
      let noted = write_note contents obj.gnu_stack_flags in
      let (o1, e6, h6) = >>=-eq-ok (write_table reserve noted _ _ _ _ _ _ _) _ h5 in
      let (o2, e7, h7) = >>=-eq-ok (write_table reserve o1 _ _ _ _ _ _ _) _ h6 in
      let (o3, e8, h8) = >>=-eq-ok (write_relas reserve _ _ o2 _ _) _ h7 in
      let t0 = write_note_lem contents obj.gnu_stack_flags in
      let t1 = write_table_lem noted _ _ _ _ _ _ _ o1 e6 in
      let t2 = write_table_lem o1 _ _ _ _ _ _ _ o2 e7 in
      let t3 = write_relas_lem _ _ o2 _ obj.sections o3 e8 in
      let t4 = write_table_lem o3 _ _ _ _ _ _ _ out h8 in
      let s1 = Extends-trans contents noted o1 _ _ t0 t1 in
      let s2 = Extends-trans contents o1 o2 _ _ s1 t2 in
      let s3 = Extends-trans contents o2 o3 _ _ s2 t3 in
      let (ts, added, count) = Extends-trans contents o3 out _ _ s3 t4 in
      (
        _,
        hs,
        ts,
        added ∙ ap (λ (ss : List Elf64Shdr). ss ++ ts) placed,
        d,
        omega (arith, count),
        refl,
        refl,
        refl,
      )
