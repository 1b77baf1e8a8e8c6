-- ===== src/X86/Mem/Decode.antt =====
-- How a processor in 64-bit mode reads the bytes that `encode_mem` of src/x86/encode.rs writes: the
-- specification of that function, independent of it.
use afs_as.Base.{
  ℕ, ◌+◌, ◌-◌, ◌/◌, ◌%◌, ◌^◌, Bool, true, false, ◌&&◌, Option, none, some, [], ◌∷◌, ltb, ◌==◌,
  if◌then◌else◌,
}
use afs_as.Base.Bytes.{Bytes, from_le}
use afs_as.Base.Int.{ℤ, pos, negsuc}

-- What is added up: the next instruction's address and a displacement, or the registers of the
-- numbers, the second times a factor, and a displacement.
pub data Address : Type 0 where
  at_rip : ℤ → Address
  at : Option ℕ → Option (ℕ × ℕ) → ℤ → Address

-- Two's complement of `k + 1` bits.
unfoldable pub signed : ℕ → ℕ → ℤ
signed k v = if ltb v (2 ^ k) then pos v else negsuc (2 ^ (k + 1) - 1 - v)

unfoldable pub read_disp32 : Bytes → Option (ℤ × Bytes)
read_disp32 (a ∷ b ∷ c ∷ d ∷ s) = some (signed 31 (from_le (a ∷ b ∷ c ∷ d ∷ [])), s)
read_disp32 _ = none

unfoldable pub read_disp8 : Bytes → Option (ℤ × Bytes)
read_disp8 (a ∷ s) = some (signed 7 a, s)
read_disp8 [] = none

-- The displacement that the two bits `mode` announce.
unfoldable pub read_disp : ℕ → Bytes → Option (ℤ × Bytes)
read_disp mode s =
    if mode == 0
    then some (pos 0, s)
    else if mode == 1
    then read_disp8 s
    else if mode == 2
    then read_disp32 s
    else none

-- Three bits, extended by one of the prefix.
unfoldable pub extended : Bool → ℕ → ℕ
extended true n = n + 8
extended false n = n

-- The number 4 means that there is no index.
unfoldable pub scaled : ℕ → ℕ → Option (ℕ × ℕ)
scaled scale n = if n == 4 then none else some (n, 2 ^ scale)

-- The address for the displacement that was read.
abbrev pub with_disp : (ℤ → Address) → Option (ℤ × Bytes) → Option (Address × Bytes)
with_disp address none = none
with_disp address (some (disp, rest)) = some (address disp, rest)

abbrev pub with_field : ℕ → Option (Address × Bytes) → Option (ℕ × Address × Bytes)
with_field field none = none
with_field field (some (address, rest)) = some (field, address, rest)

unfoldable pub decode_sib : Bool → Bool → ℕ → Bytes → Option (Address × Bytes)
decode_sib x b mode [] = none
decode_sib x b mode (y ∷ s) =
    let index = scaled (y / 64) (extended x (y / 8 % 8)) in
    if mode == 0 && y % 8 == 5
    then with_disp (at none index) (read_disp32 s)
    else with_disp (at (some (extended b (y % 8))) index) (read_disp mode s)

-- What the low three bits `rm` of the ModRM byte ask for.
unfoldable pub decode_rm : Bool → Bool → ℕ → ℕ → Bytes → Option (Address × Bytes)
decode_rm x b mode rm s =
    if rm == 4
    then decode_sib x b mode s
    else if mode == 0 && rm == 5
    then with_disp at_rip (read_disp32 s)
    else with_disp (at (some (extended b rm)) none) (read_disp mode s)

-- A memory operand with the bits X and B of the prefix: the register field, the address and the bytes
-- behind it. The number 3 for `mode` means a register.
unfoldable pub decode : Bool → Bool → Bytes → Option (ℕ × Address × Bytes)
decode x b [] = none
decode x b (y ∷ s) =
    if y / 64 == 3 then none else with_field (y / 8 % 8) (decode_rm x b (y / 64) (y % 8) s)
