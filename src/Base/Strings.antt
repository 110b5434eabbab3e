-- ===== src/Base/Strings.antt =====
-- What the code uses of Go's packages strings and strconv, over the bytes of a text. White space
-- is that of ASCII: no text here holds another.
pub mod Laws
pub mod Parts
use oscdn.Base.{
  ℕ, zero, suc, ◌+◌, ◌-◌, ◌*◌, ◌/◌, ◌%◌, ◌^◌, Bool, true, false, ◌&&◌, ◌||◌, List, [], ◌∷◌, ◌++◌,
  Option, none, some, Bytes, ltb, leb, ◌==◌, if◌then◌else◌, str_eq, take, drop, length, ℤ, pos,
  negsuc, sub_ℕ,
}

-- `strings.Split` at a separator of one byte: there is at least one part.
cons_head : ℕ → List Bytes → List Bytes
cons_head c [] = (c ∷ []) ∷ []
cons_head c (p ∷ ps) = (c ∷ p) ∷ ps

unfoldable pub split : Bytes → ℕ → List Bytes
unfolding cons_head
split [] sep = [] ∷ []
split (c ∷ s) sep = let rest = split s sep in if c == sep then [] ∷ rest else cons_head c rest

-- `strings.Index` and `strings.LastIndex` of one byte; -1 is `none`.
unfoldable pub index : Bytes → ℕ → Option ℕ
index [] sep = none
index (c ∷ s) sep =
    let rest = index s sep in
    if c == sep then some 0 else elim rest [ none ↦ none | some i ↦ some (suc i) ]

unfoldable pub last_index : Bytes → ℕ → Option ℕ
last_index [] sep = none
last_index (c ∷ s) sep = elim (last_index s sep) [
  | some i ↦ some (suc i)
  | none ↦ if c == sep then some 0 else none
]

-- `strings.SplitN(s, sep, 2)`
unfoldable pub split_two : Bytes → ℕ → Bytes × Option Bytes
unfolding index
split_two s sep = elim (index s sep) [
  | none ↦ (s, none)
  | some i ↦ (take i s, some (drop (suc i) s))
]

abbrev pub is_space : ℕ → Bool
is_space c = (leb 9 c && leb c 13) || c == 32

unfoldable pub trim_left : Bytes → Bytes
trim_left [] = []
trim_left (c ∷ s) = let rest = trim_left s in if is_space c then rest else c ∷ s

abbrev null : Bytes → Bool
null [] = true
null (_ ∷ _) = false

unfoldable pub trim_right : Bytes → Bytes
trim_right [] = []
trim_right (c ∷ s) = let rest = trim_right s in if is_space c && null rest then [] else c ∷ rest

-- `strings.TrimSpace`
unfoldable pub trim_space : Bytes → Bytes
unfolding trim_left trim_right
trim_space s = trim_right (trim_left s)

-- `strings.HasPrefix`, `strings.TrimPrefix`, `strings.HasSuffix` and `strings.TrimSuffix`.
unfoldable pub has_prefix : Bytes → Bytes → Bool
has_prefix s [] = true
has_prefix [] (b ∷ p) = false
has_prefix (a ∷ s) (b ∷ p) = (a == b) && has_prefix s p

unfoldable pub trim_prefix : Bytes → Bytes → Bytes
unfolding has_prefix
trim_prefix s p = if has_prefix s p then drop (length p) s else s

unfoldable pub has_suffix : Bytes → Bytes → Bool
has_suffix [] p = str_eq [] p
has_suffix (a ∷ s) p = str_eq (a ∷ s) p || has_suffix s p

unfoldable pub trim_suffix : Bytes → Bytes → Bytes
unfolding has_suffix
trim_suffix s p = if has_suffix s p then take (length s - length p) s else s

abbrev pub is_digit : ℕ → Bool
is_digit c = leb b'0' c && leb c b'9'

-- The number that a run of digits spells; `none` at another byte.
unfoldable pub digits_value : ℕ → Bytes → Option ℕ
digits_value acc [] = some acc
digits_value acc (c ∷ s) =
    let rest = digits_value (acc * 10 + (c - b'0')) s in if is_digit c then rest else none

-- `strconv.ParseUint(s, 10, bits)`; every error is `none`.
unfoldable pub parse_uint : Bytes → ℕ → Option ℕ
unfolding digits_value
parse_uint [] bits = none
parse_uint (c ∷ s) bits = elim (digits_value 0 (c ∷ s)) [
  | none ↦ none
  | some n ↦ if ltb n (2 ^ bits) then some n else none
]

-- `strconv.ParseInt(s, 10, 64)`, which is `strconv.Atoi` where `int` has 64 bits.
parse_nonneg : Bytes → Option ℤ
unfolding parse_uint
parse_nonneg s = elim (parse_uint s 64) [
  | none ↦ none
  | some n ↦ if ltb n (2 ^ 63) then some (pos n) else none
]

parse_neg : Bytes → Option ℤ
unfolding parse_uint
parse_neg s = elim (parse_uint s 64) [
  | none ↦ none
  | some n ↦ if leb n (2 ^ 63) then some (sub_ℕ 0 n) else none
]

unfoldable pub parse_int : Bytes → Option ℤ
unfolding parse_nonneg parse_neg
parse_int [] = none
parse_int (c ∷ s) =
    if c == b'+' then parse_nonneg s else if c == b'-' then parse_neg s else parse_nonneg (c ∷ s)

-- `strconv.Itoa` and `%d`. The fuel `n + 1` is more than the number of digits.
digits : ℕ → ℕ → Bytes
digits zero n = []
digits (suc f) n =
    let front = digits f (n / 10) in
    if ltb n 10 then (b'0' + n) ∷ [] else front ++ (b'0' + n % 10) ∷ []

unfoldable pub format_uint : ℕ → Bytes
unfolding digits
format_uint n = digits (suc n) n

unfoldable pub format_int : ℤ → Bytes
unfolding format_uint
format_int (pos n) = format_uint n
format_int (negsuc n) = b'-' ∷ format_uint (suc n)
