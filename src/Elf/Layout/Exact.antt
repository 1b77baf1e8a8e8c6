-- ===== src/Elf/Layout/Exact.antt =====
-- Padding, placing and the section-count escape do what the format asks.
use afs_as.Base.{
  ℕ, ◌+◌, ◌-◌, ◌*◌, ◌/◌, ◌%◌, ◌^◌, ◌<◌, ◌≤◌, ◌≡◌, ◌∙◌, max, ◌++◌, length, length-append,
  length-replicate, replicate, drop, drop-append, leb, if◌then◌else◌, ok, arith, Bool-cases, inl,
  inr, >>=-eq-ok,
}
use afs_as.Base.Bytes.{Bytes, usize}
use afs_as.Elf.Constants.{shn_loreserve, shn_xindex}
use afs_as.Elf.Layout.{
  align_up, Allocator, reserve_elf_bytes, place_padded, place, SectionHeaderEncoding,
  encode_section_header_table, decode_shnum, decode_shstrndx,
}
use mathlib.Core.List.{append_assoc}
use native.Mathlib.Nat.{div-add-mod', mod-lt}

-- What an aligned value `r` is for `v`.
pub record IsAligned (v align r : ℕ) : Type 0 where
  pub at_least : v ≤ r
  pub nearest : r < v + align
  pub multiple : (q : ℕ) × (r ≡ q * align)

align_up_large :
    (v align r : ℕ) → 2 ≤ align → (v + (align - 1)) / align * align ≡ r → IsAligned v align r
align_up_large v align r big e =
    let x = v + (align - 1) in
    let split = div-add-mod' x align in
    let small : x % align < align = mod-lt x (omega arith) in
    record {
      at_least = omega (arith, split, small, e);
      nearest = omega (arith, split, small, e);
      multiple = (x / align, omega (arith, e));
    }

-- A successful `align_up` to at least 1 gives the least multiple that is not below the value.
pub align_up-IsAligned :
    (v align : ℕ) {r : ℕ} → 1 ≤ align → align_up v align ≡ ok r → IsAligned v align r
unfolding align_up usize
align_up-IsAligned v align {r} positive e = elim (Bool-cases (leb align 1)) [
  | inl one ↦
      let same : v ≡ r = ground (arith, rw one at e) in
      let unit : align ≡ 1 = ground arith in
      record {
        at_least = omega arith;
        nearest = omega arith;
        multiple = (r, rw unit (omega arith));
      }
  | inr many ↦ align_up_large v align r (ground arith) (ground (arith, rw many at e))
]

-- Where a piece stands after `place`.
pub record IsPlaced (body bytes : Bytes) (align off : ℕ) (after : Bytes) : Type 0 where
  pub padding : ℕ
  pub least : padding < align
  pub layout : after ≡ body ++ (replicate padding 0 ++ bytes)
  pub offset : off ≡ 64 + (length body + padding)
  pub aligned : (q : ℕ) × (off ≡ q * align)
  pub found : drop (off - 64) after ≡ bytes

place_padded_lem :
    (reserve : Allocator) (body : Bytes) (n : ℕ) (bytes : Bytes) (off : ℕ) (after : Bytes)
    → place_padded reserve body n bytes ≡ ok (off, after)
    → (off ≡ 64 + length (body ++ replicate n 0)) × (after ≡ (body ++ replicate n 0) ++ bytes)
unfolding place_padded reserve_elf_bytes
place_padded_lem reserve body n bytes off after e = (ground arith, ground arith)

-- A successful `place` pads with fewer zeros than the alignment, and the bytes stand at the offset
-- that it returns, which is a multiple of the alignment.
pub place-IsPlaced :
    (reserve : Allocator) (body bytes : Bytes) (align off : ℕ) (after : Bytes)
    → place reserve body align bytes ≡ ok (off, after)
    → IsPlaced body bytes (max align 1) off after
unfolding place
place-IsPlaced reserve body bytes align off after e =
    let here = 64 + length body in
    let a = max align 1 in
    let (r, up, rest) =
      >>=-eq-ok (align_up here a) (λ aligned. place_padded reserve body (aligned - here) bytes) e in
    let f = align_up-IsAligned here a (omega arith) up in
    let n = r - here in
    let (o, w) = place_padded_lem reserve body n bytes off after rest in
    let padded : length (body ++ replicate n 0) ≡ length body + n =
      omega (arith, length-append body (replicate n 0), length-replicate {A = ℕ} n 0) in
    let back : off - 64 ≡ length (body ++ replicate n 0) = omega arith in
    record {
      padding = n;
      least = omega (arith, f.at_least, f.nearest);
      layout = w ∙ append_assoc body (replicate n 0) bytes;
      offset = omega (arith, o, padded);
      aligned = (f.multiple.0, omega (arith, f.multiple.1, f.at_least, o, padded));
      found = rw (w, back) (drop-append (body ++ replicate n 0) bytes);
    }

-- For an index below the count and below 2^32, the encoding succeeds: the reader decodes the true
-- count and index, also beyond the 16 bits of the header fields, which are themselves in range.
pub encode_section_header_table-exact :
    (count idx : ℕ)
    → idx < count
    → idx < 2 ^ 32
    → (e : SectionHeaderEncoding) × (encode_section_header_table count idx ≡ ok e)
      × (decode_shnum e.e_shnum e.null_sh_size ≡ count)
      × (decode_shstrndx e.e_shstrndx e.null_sh_link ≡ idx)
      × (e.e_shnum < 2 ^ 16)
      × (e.e_shstrndx < 2 ^ 16)
unfolding encode_section_header_table decode_shnum decode_shstrndx
encode_section_header_table-exact count idx below small = (
  record {
    e_shnum = if leb shn_loreserve count then 0 else count;
    e_shstrndx = if leb shn_loreserve idx then shn_xindex else idx;
    null_sh_size = if leb shn_loreserve count then count else 0;
    null_sh_link = if leb shn_loreserve idx then idx else 0;
  },
  ground arith,
  ground arith,
  ground arith,
  ground arith,
  ground arith,
)
