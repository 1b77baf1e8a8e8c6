-- ===== src/Base/Text.antt =====
-- Texts as byte lists: equality, association lists keyed by text, and the UTF-8 test.
use afs_as.Base.Tests.{◌==◌, leb, if◌then◌else◌}
use afs_as.Base.Bytes.{Bytes}
use Prim.Native.Nat.{ℕ}
use mathlib.Core.Path.{◌≡◌, refl}
use mathlib.Core.Logic.{◌↔◌}
use mathlib.Core.Bool.{Bool, true, false, ◌&&◌}
use mathlib.Core.Option.{Option, none, some}
use mathlib.Core.List.{List, [], ◌∷◌}
use native.Mathlib.Omega.{arith}
use Prim.Native.Char.{code}
use Prim.Native.String.{String}

-- The bytes of an ASCII literal.
abbrev pub text : String → Bytes
text String.[] = []
text (String.◌∷◌ c s) = code c ∷ text s

-- `a == b` on `str` and on `[u8]`.
unfoldable pub text_eq : Bytes → Bytes → Bool
text_eq [] [] = true
text_eq (x ∷ xs) (y ∷ ys) = x == y && text_eq xs ys
text_eq _ _ = false

pub text_eq_iff : (a b : Bytes) → (text_eq a b ≡ true) ↔ (a ≡ b)
unfolding text_eq
text_eq_iff (x ∷ a) (y ∷ b) = ground (arith, text_eq_iff a b)
text_eq_iff _ _ = ground arith

pub text_eq_refl : (a : Bytes) → text_eq a a ≡ true
text_eq_refl a = (text_eq_iff a a).1 refl

-- A `HashMap` or `BTreeMap` from names; an entry in front hides those behind it.
module _ {ℓ} {V : Type ℓ} where
  unfoldable pub lookup : Bytes → List (Bytes × V) → Option V
  lookup k [] = none
  lookup k ((j, v) ∷ m) = if text_eq j k then some v else lookup k m

-- What a lead byte asks of the bytes behind it, as ranges; `none` for a byte that leads nothing.
abbrev cont : ℕ × ℕ
cont = (0x80, 0xbf)

abbrev within : ℕ → ℕ → ℕ → Bool
within lo hi b = leb lo b && leb b hi

utf8_lead : ℕ → Option (List (ℕ × ℕ))
utf8_lead b =
    if leb b 0x7f
    then some []
    else if within 0xc2 0xdf b
    then some (cont ∷ [])
    else if b == 0xe0
    then some ((0xa0, 0xbf) ∷ cont ∷ [])
    else if b == 0xed
    then some ((0x80, 0x9f) ∷ cont ∷ [])
    else if within 0xe1 0xef b
    then some (cont ∷ cont ∷ [])
    else if b == 0xf0
    then some ((0x90, 0xbf) ∷ cont ∷ cont ∷ [])
    else if within 0xf1 0xf3 b
    then some (cont ∷ cont ∷ cont ∷ [])
    else if b == 0xf4
    then some ((0x80, 0x8f) ∷ cont ∷ cont ∷ [])
    else none

utf8_next : List (ℕ × ℕ) → ℕ → Option (List (ℕ × ℕ))
utf8_next [] b = utf8_lead b
utf8_next ((lo, hi) ∷ ranges) b = if within lo hi b then some ranges else none

utf8_run : List (ℕ × ℕ) → Bytes → Bool
utf8_run [] [] = true
utf8_run (_ ∷ _) [] = false
utf8_run ranges (b ∷ bs) = elim (utf8_next ranges b) [ none ↦ false | some more ↦ utf8_run more bs ]

-- `String::from_utf8(b).is_ok()`
unfoldable pub is_utf8 : Bytes → Bool
unfolding utf8_run utf8_next utf8_lead
is_utf8 b = utf8_run [] b

-- An ASCII text is UTF-8.
abbrev pub is_ascii : Bytes → Bool
is_ascii [] = true
is_ascii (b ∷ bs) = leb b 0x7f && is_ascii bs

pub is_ascii-is_utf8 : (b : Bytes) → is_ascii b ≡ true → is_utf8 b ≡ true
unfolding is_utf8
is_ascii-is_utf8 [] h = refl
is_ascii-is_utf8 (x ∷ b) h = ground (arith, is_ascii-is_utf8 b)
