-- ===== src/X86/Reg.antt =====
-- The registers of src/x86/reg.rs.
pub mod Names
use afs_as.Base.{
  ℕ, zero, suc, ◌+◌, ◌-◌, ◌*◌, ◌/◌, ◌%◌, ◌^◌, ◌<◌, Bool, true, false, not, ◌&&◌, ◌||◌, Option, none,
  some, List, [], ◌∷◌, ◌++◌, get_elem?, length, ltb, leb, ◌==◌, if◌then◌else◌,
}
use afs_as.Base.Bytes.{Bytes}
use afs_as.Base.Text.{text, text_eq}
use Prim.Native.Nat.{bit_and}

infixl 5 ◌>>=◌
abbrev pub ◌>>=◌ : {A B : Type 0} → Option A → (A → Option B) → Option B
none >>= next = none
some value >>= next = next value

pub data Width : Type 0 where
  b w l q x : Width

pub data RegClass : Type 0 where
  gp gp_high8 xmm st : RegClass

pub record Reg : Type 0 where
  pub num : ℕ
  pub width : Width
  pub class : RegClass
  pub forces_rex : Bool

unfoldable pub bytes : Width → ℕ
bytes b = 1
bytes w = 2
bytes l = 4
bytes q = 8
bytes x = 16

-- `self.class == RegClass::GpHigh8`
unfoldable pub rex_forbidden : Reg → Bool
rex_forbidden r = elim r.class [ gp_high8 ↦ true | gp ↦ false | xmm ↦ false | st ↦ false ]

-- The sum of u8 overflows for no register below.
unfoldable pub low3 : Reg → ℕ
low3 r = elim r.class [
  | gp_high8 ↦ r.num + 4
  | gp ↦ bit_and r.num 7
  | xmm ↦ bit_and r.num 7
  | st ↦ bit_and r.num 7
]

unfoldable pub rex_bit : Reg → Bool
rex_bit r = not (rex_forbidden r) && leb 8 r.num

abbrev pub gp_reg_of : ℕ → Width → Reg
gp_reg_of num width = record { num = num; width = width; class = gp; forces_rex = false }

abbrev pub high_reg_of : ℕ → Reg
high_reg_of num = record { num = num; width = b; class = gp_high8; forces_rex = false }

abbrev pub st_reg_of : ℕ → Reg
st_reg_of num = record { num = num; width = x; class = st; forces_rex = false }

abbrev pub xmm_reg_of : ℕ → Reg
xmm_reg_of num = record { num = num; width = x; class = xmm; forces_rex = false }

-- The byte register `num`; 4 to 7 force a REX prefix.
abbrev pub byte_reg_of : ℕ → Reg
byte_reg_of num = record { num = num; width = b; class = gp; forces_rex = leb 4 num && leb num 7 }

abbrev pub q_names : List Bytes
q_names =
    text "rax"
    ∷ text "rcx"
    ∷ text "rdx"
    ∷ text "rbx"
    ∷ text "rsp"
    ∷ text "rbp"
    ∷ text "rsi"
    ∷ text "rdi"
    ∷ text "r8"
    ∷ text "r9"
    ∷ text "r10"
    ∷ text "r11"
    ∷ text "r12"
    ∷ text "r13"
    ∷ text "r14"
    ∷ text "r15"
    ∷ []

abbrev pub l_names : List Bytes
l_names =
    text "eax"
    ∷ text "ecx"
    ∷ text "edx"
    ∷ text "ebx"
    ∷ text "esp"
    ∷ text "ebp"
    ∷ text "esi"
    ∷ text "edi"
    ∷ text "r8d"
    ∷ text "r9d"
    ∷ text "r10d"
    ∷ text "r11d"
    ∷ text "r12d"
    ∷ text "r13d"
    ∷ text "r14d"
    ∷ text "r15d"
    ∷ []

abbrev pub w_names : List Bytes
w_names =
    text "ax"
    ∷ text "cx"
    ∷ text "dx"
    ∷ text "bx"
    ∷ text "sp"
    ∷ text "bp"
    ∷ text "si"
    ∷ text "di"
    ∷ text "r8w"
    ∷ text "r9w"
    ∷ text "r10w"
    ∷ text "r11w"
    ∷ text "r12w"
    ∷ text "r13w"
    ∷ text "r14w"
    ∷ text "r15w"
    ∷ []

abbrev pub b_names : List Bytes
b_names =
    text "al"
    ∷ text "cl"
    ∷ text "dl"
    ∷ text "bl"
    ∷ text "spl"
    ∷ text "bpl"
    ∷ text "sil"
    ∷ text "dil"
    ∷ text "r8b"
    ∷ text "r9b"
    ∷ text "r10b"
    ∷ text "r11b"
    ∷ text "r12b"
    ∷ text "r13b"
    ∷ text "r14b"
    ∷ text "r15b"
    ∷ []

abbrev pub high_names : List Bytes
high_names = text "ah" ∷ text "ch" ∷ text "dh" ∷ text "bh" ∷ []

-- The index of the first name that is equal, from `i` on.
unfoldable pub find_name : Bytes → ℕ → List Bytes → Option ℕ
find_name name i [] = none
find_name name i (n ∷ ns) = elim (text_eq n name) [
  | true ↦ some i
  | false ↦ find_name name (suc i) ns
]

-- `strip_prefix`
unfoldable pub strip_prefix : Bytes → Bytes → Option Bytes
strip_prefix [] s = some s
strip_prefix (p ∷ ps) [] = none
strip_prefix (p ∷ ps) (c ∷ s) = elim (p == c) [ true ↦ strip_prefix ps s | false ↦ none ]

-- `strip_suffix(')')`
unfoldable pub strip_close : Bytes → Option Bytes
strip_close [] = none
strip_close (c ∷ []) = if c == 41 then some [] else none
strip_close (c ∷ d ∷ s) = elim (strip_close (d ∷ s)) [ none ↦ none | some rest ↦ some (c ∷ rest) ]

-- The digits of `parse::<u8>`, behind the value `n` of those read.
unfoldable pub u8_digits : ℕ → Bytes → Option ℕ
u8_digits n [] = some n
u8_digits n (c ∷ s) = elim (leb 48 c && leb c 57 && leb (n * 10 + (c - 48)) 255) [
  | true ↦ u8_digits (n * 10 + (c - 48)) s
  | false ↦ none
]

-- `parse::<u8>`: an optional `+` and one digit or more.
unfoldable pub parse_u8 : Bytes → Option ℕ
parse_u8 [] = none
parse_u8 (c ∷ []) = if c == 43 then none else u8_digits 0 (c ∷ [])
parse_u8 (c ∷ d ∷ s) = if c == 43 then u8_digits 0 (d ∷ s) else u8_digits 0 (c ∷ d ∷ s)

abbrev starts_with_zero : Bytes → Bool
starts_with_zero [] = false
starts_with_zero (c ∷ s) = c == 48

-- Behind `st(`.
unfoldable pub parse_st : Bytes → Option Reg
parse_st rest = do
  digit ← strip_close rest
  n ← parse_u8 digit
  if ltb n 8 && length digit == 1 then some (st_reg_of n) else none

-- Behind `xmm`.
unfoldable pub parse_xmm : Bytes → Option Reg
parse_xmm rest = do
  n ← parse_u8 rest
  let plain = length rest == 1 || not (starts_with_zero rest) in
      if ltb n 16 && plain then some (xmm_reg_of n) else none

-- The registers that have no table.
unfoldable pub parse_other : Bytes → Option Reg
parse_other name =
    if text_eq name (text "st") then some (st_reg_of 0) else elim (strip_prefix (text "st(") name) [
      | some rest ↦ parse_st rest
      | none ↦ elim (strip_prefix (text "xmm") name) [ some rest ↦ parse_xmm rest | none ↦ none ]
    ]

-- `or_else`: a table, then what comes behind it.
unfoldable pub among : List Bytes → (ℕ → Reg) → Bytes → Option Reg → Option Reg
among names reg name others = elim (find_name name 0 names) [
  | some i ↦ some (reg i)
  | none ↦ others
]

unfoldable pub parse : Bytes → Option Reg
parse name =
    among q_names (λ i. gp_reg_of i q) name
      (among l_names (λ i. gp_reg_of i l) name
        (among w_names (λ i. gp_reg_of i w) name
          (among b_names byte_reg_of name (among high_names high_reg_of name (parse_other name)))))

-- The decimal digits of a u8.
unfoldable pub decimal : ℕ → Bytes
decimal n =
    if ltb n 10
    then (48 + n) ∷ []
    else if ltb n 100
    then (48 + n / 10) ∷ (48 + n % 10) ∷ []
    else (48 + n / 100) ∷ (48 + n / 10 % 10) ∷ (48 + n % 10) ∷ []

-- The name in `fmt`; `none` stands for a panic, of an index or of `unreachable!`.
unfoldable pub name_of : Reg → Option Bytes
name_of r = elim r.class [
  | gp_high8 ↦ get_elem? high_names r.num
  | xmm ↦ some (text "xmm" ++ decimal r.num)
  | st ↦ some (text "st(" ++ decimal r.num ++ text ")")
  | gp ↦ elim r.width [
    | q ↦ get_elem? q_names r.num
    | l ↦ get_elem? l_names r.num
    | w ↦ get_elem? w_names r.num
    | b ↦ get_elem? b_names r.num
    | x ↦ none
  ]
]

-- `fmt`: the name behind `%`.
unfoldable pub display : Reg → Option Bytes
display r = do name ← name_of r; some (37 ∷ name)
