-- ===== src/Base/Strings/Laws.antt =====
-- Lemmas on the functions of strings and strconv.
use Prim.Native.Nat.{ℕ}
use mathlib.Core.List.{concat-ne-nil}
use oscdn.Base.{
  pos, ◌∙◌, subst, not, Bool, zero, suc, ◌+◌, ◌-◌, ◌*◌, ◌/◌, ◌%◌, ◌^◌, ◌<◌, ◌≡◌, ◌≢◌, refl, ap,
  true, false, List, [], ◌∷◌, ◌++◌, none, some, arith, Bytes, ltb, take, drop, length, All,
  All-append, Bool-cases, inl, inr,
}
use oscdn.Base.Strings.{
  parse_int, is_space, trim_space, trim_right, trim_left, split, index, last_index, split_two,
  is_digit, digits_value, parse_uint, digits, format_uint,
}

abbrev pub Lacks : ℕ → Bytes → Type 0
Lacks b = All (λ c. c ≢ b)

abbrev pub IsDigit : ℕ → Type 0
IsDigit c = is_digit c ≡ true

module _ {ℓ} {A : Type ℓ} where
  pub take-append : (xs ys : List A) → take (length xs) (xs ++ ys) ≡ xs
  take-append [] ys = refl
  take-append (x ∷ xs) ys = ap (λ zs. x ∷ zs) (take-append xs ys)

  pub drop-append : (xs ys : List A) (y : A) → drop (suc (length xs)) (xs ++ y ∷ ys) ≡ ys
  drop-append [] ys y = refl
  drop-append (x ∷ xs) ys y = drop-append xs ys y

digits_value-concat :
    (s : Bytes) (acc c n : ℕ)
    → IsDigit c
    → digits_value acc s ≡ some n
    → digits_value acc (s ++ c ∷ []) ≡ some (n * 10 + (c - b'0'))
unfolding digits_value
digits_value-concat [] acc c n h e = ground arith
digits_value-concat (d ∷ s) acc c n h e =
    ground (arith, digits_value-concat s (acc * 10 + (d - b'0')) c n h)

digits_value-digits : (f n : ℕ) → n < f → digits_value 0 (digits f n) ≡ some n
unfolding digits digits_value
digits_value-digits zero n h = absurd (omega arith)
digits_value-digits (suc f) n h = ground (
  arith,
  digits_value-concat (digits f (n / 10)) 0 (b'0' + n % 10) (n / 10),
  digits_value-digits f (n / 10),
)

digits-ne-nil : (f n : ℕ) → digits (suc f) n ≢ []
unfolding digits
digits-ne-nil f n = ground (arith, concat-ne-nil (b'0' + n % 10) (digits f (n / 10)))

parse_uint-digits_value :
    (s : Bytes) (bits n : ℕ)
    → s ≢ []
    → digits_value 0 s ≡ some n
    → n < 2 ^ bits
    → parse_uint s bits ≡ some n
unfolding parse_uint
parse_uint-digits_value [] bits n ne e h = absurd (ne refl)
parse_uint-digits_value (c ∷ s) bits n ne e h = ground arith

-- The decimal print of a number that fits is read back.
pub parse_uint-format_uint : (n bits : ℕ) → n < 2 ^ bits → parse_uint (format_uint n) bits ≡ some n
unfolding format_uint
parse_uint-format_uint n bits h =
    parse_uint-digits_value (digits (suc n) n) bits n (digits-ne-nil n n)
      (digits_value-digits (suc n) n (omega arith)) h

digits-IsDigit : (f n : ℕ) → All IsDigit (digits f n)
unfolding digits
digits-IsDigit zero n = tt
digits-IsDigit (suc f) n = elim (Bool-cases (ltb n 10)) [
  | inl e ↦ rw e (ground arith, tt)
  | inr e ↦
      rw e (All-append IsDigit (digits f (n / 10)) _ (digits-IsDigit f (n / 10)) (ground arith, tt))
]

IsDigit-Lacks : (b : ℕ) (s : Bytes) → is_digit b ≡ false → All IsDigit s → Lacks b s
IsDigit-Lacks b [] h hs = tt
IsDigit-Lacks b (c ∷ s) h (hc, hs) = (λ e. cc, IsDigit-Lacks b s h hs)

pub format_uint-Lacks : (b n : ℕ) → is_digit b ≡ false → Lacks b (format_uint n)
unfolding format_uint
format_uint-Lacks b n h = IsDigit-Lacks b _ h (digits-IsDigit (suc n) n)

pub last_index-eq-none : (s : Bytes) (sep : ℕ) → Lacks sep s → last_index s sep ≡ none
unfolding last_index
last_index-eq-none [] sep h = refl
last_index-eq-none (c ∷ s) sep (hc, hs) = ground (arith, last_index-eq-none s sep hs)

pub last_index-append :
    (p s : Bytes) (sep : ℕ) → Lacks sep s → last_index (p ++ sep ∷ s) sep ≡ some (length p)
unfolding last_index
last_index-append [] s sep h = ground (arith, last_index-eq-none s sep h)
last_index-append (c ∷ p) s sep h = ground (arith, last_index-append p s sep h)

pub index-eq-none : (s : Bytes) (sep : ℕ) → Lacks sep s → index s sep ≡ none
unfolding index
index-eq-none [] sep h = refl
index-eq-none (c ∷ s) sep (hc, hs) = ground (arith, index-eq-none s sep hs)

pub index-append :
    (p s : Bytes) (sep : ℕ) → Lacks sep p → index (p ++ sep ∷ s) sep ≡ some (length p)
unfolding index
index-append [] s sep h = ground arith
index-append (c ∷ p) s sep (hc, hp) = ground (arith, index-append p s sep hp)

pub split_two-eq-none : (s : Bytes) (sep : ℕ) → Lacks sep s → split_two s sep ≡ (s, none)
unfolding split_two
split_two-eq-none s sep h = ground (arith, index-eq-none s sep h)

pub split_two-append :
    (p s : Bytes) (sep : ℕ) → Lacks sep p → split_two (p ++ sep ∷ s) sep ≡ (p, some s)
unfolding split_two
split_two-append p s sep h =
    ground (arith, index-append p s sep h, take-append p (sep ∷ s), drop-append p s sep)

-- The first part of a text at a separator, and the parts behind it.
pub split-append :
    (p s : Bytes) (sep : ℕ) → Lacks sep p → split (p ++ sep ∷ s) sep ≡ p ∷ split s sep
unfolding split
split-append [] s sep h = ground arith
split-append (c ∷ p) s sep (hc, hp) = ground (arith, split-append p s sep hp)

pub split-Lacks : (p : Bytes) (sep : ℕ) → Lacks sep p → split p sep ≡ p ∷ []
unfolding split
split-Lacks [] sep h = refl
split-Lacks (c ∷ p) sep (hc, hp) = ground (arith, split-Lacks p sep hp)

-- The text does not begin with white space.
unfoldable pub clean_head : Bytes → Bool
clean_head [] = true
clean_head (c ∷ s) = not (is_space c)

clean_head-trim_left : (s : Bytes) → clean_head (trim_left s) ≡ true
unfolding clean_head trim_left
clean_head-trim_left [] = refl
clean_head-trim_left (c ∷ s) = ground (arith, clean_head-trim_left s)

trim_left_id : (s : Bytes) → clean_head s ≡ true → trim_left s ≡ s
unfolding clean_head trim_left
trim_left_id [] h = refl
trim_left_id (c ∷ s) h = ground arith

clean_head-trim_right : (s : Bytes) → clean_head s ≡ true → clean_head (trim_right s) ≡ true
unfolding clean_head trim_right
clean_head-trim_right [] h = refl
clean_head-trim_right (c ∷ s) h = ground arith

trim_right_idem : (s : Bytes) → trim_right (trim_right s) ≡ trim_right s
unfolding trim_right
trim_right_idem [] = refl
trim_right_idem (c ∷ s) = ground (arith, trim_right_idem s)

-- A trimmed text has nothing left to trim.
pub trim_space_idem : (s : Bytes) → trim_space (trim_space s) ≡ trim_space s
unfolding trim_space
trim_space_idem s =
    rw
      (trim_left_id (trim_right (trim_left s))
        (clean_head-trim_right (trim_left s) (clean_head-trim_left s)))
      (trim_right_idem (trim_left s))

-- A trimmed text begins with no white space.
pub clean_head_of_trimmed : (s : Bytes) → trim_space s ≡ s → clean_head s ≡ true
unfolding trim_space
clean_head_of_trimmed s h =
    subst (λ t. clean_head t ≡ true) h
      (clean_head-trim_right (trim_left s) (clean_head-trim_left s))

trim_right_of_trimmed : (s : Bytes) → trim_space s ≡ s → trim_right s ≡ s
unfolding trim_space
trim_right_of_trimmed s h = subst (λ t. trim_right t ≡ t) h (trim_right_idem (trim_left s))

pub append-cons-ne-nil : (p : Bytes) (c : ℕ) (s : Bytes) → p ++ c ∷ s ≢ []
append-cons-ne-nil [] c s e = cc
append-cons-ne-nil (x ∷ p) c s e = cc

trim_right-append :
    (p s : Bytes) (c : ℕ) → is_space c ≡ false → trim_right (p ++ c ∷ s) ≡ p ++ c ∷ trim_right s
unfolding trim_right
trim_right-append [] s c h = ground arith
trim_right-append (d ∷ p) s c h =
    ground (arith, trim_right-append p s c h, append-cons-ne-nil p c (trim_right s))

-- White space inside a text stays: a text that begins with a trimmed part and ends, behind a mark,
-- in a trimmed part is trimmed.
pub trim_space-append :
    (p s : Bytes) (c : ℕ)
    → clean_head (p ++ c ∷ s) ≡ true
    → is_space c ≡ false
    → trim_space s ≡ s
    → trim_space (p ++ c ∷ s) ≡ p ++ c ∷ s
unfolding trim_space
trim_space-append p s c head mark h =
    rw (trim_left_id (p ++ c ∷ s) head)
      (trim_right-append p s c mark ∙ ap (λ t. p ++ c ∷ t) (trim_right_of_trimmed s h))

pub clean_head-append : (p s : Bytes) → p ≢ [] → clean_head p ≡ true → clean_head (p ++ s) ≡ true
unfolding clean_head
clean_head-append [] s ne h = absurd (ne refl)
clean_head-append (c ∷ p) s ne h = h

-- The parts joined with a separator between them.
unfoldable pub join : List Bytes → ℕ → Bytes
join [] sep = []
join (p ∷ []) sep = p
join (p ∷ q ∷ ps) sep = p ++ sep ∷ join (q ∷ ps) sep

pub split-join :
    (p : Bytes) (ps : List Bytes) (sep : ℕ)
    → All (Lacks sep) (p ∷ ps)
    → split (join (p ∷ ps) sep) sep ≡ p ∷ ps
unfolding join
split-join p [] sep (hp, _) = split-Lacks p sep hp
split-join p (q ∷ ps) sep (hp, hs) =
    split-append p (join (q ∷ ps) sep) sep hp ∙ ap (λ l. p ∷ l) (split-join q ps sep hs)

pub join-Lacks : (ps : List Bytes) (sep b : ℕ) → sep ≢ b → All (Lacks b) ps → Lacks b (join ps sep)
unfolding join
join-Lacks [] sep b ne h = tt
join-Lacks (p ∷ []) sep b ne (hp, _) = hp
join-Lacks (p ∷ q ∷ ps) sep b ne (hp, hs) =
    All-append (λ c. c ≢ b) p (sep ∷ join (q ∷ ps) sep) hp (ne, join-Lacks (q ∷ ps) sep b ne hs)

parse_int-IsDigit :
    (s : Bytes) (n : ℕ)
    → All IsDigit s
    → parse_uint s 64 ≡ some n
    → n < 2 ^ 63
    → parse_int s ≡ some (pos n)
unfolding parse_int parse_uint
parse_int-IsDigit [] n h e lt = cc
parse_int-IsDigit (c ∷ s) n (hc, hs) e lt = ground arith

-- The decimal print of a number that fits `int64` is read back with its sign.
pub parse_int-format_uint : (n : ℕ) → n < 2 ^ 63 → parse_int (format_uint n) ≡ some (pos n)
parse_int-format_uint n h =
    parse_int-IsDigit (format_uint n) n (unfold format_uint in digits-IsDigit (suc n) n)
      (parse_uint-format_uint n 64 (omega arith)) h

pub format_uint-ne-nil : (n : ℕ) → format_uint n ≢ []
unfolding format_uint
format_uint-ne-nil n = digits-ne-nil n n

IsDigit-trimmed : (s : Bytes) → All IsDigit s → (trim_left s ≡ s) × (trim_right s ≡ s)
unfolding trim_left trim_right
IsDigit-trimmed [] _ = (refl, refl)
IsDigit-trimmed (c ∷ s) (hc, hs) = (ground arith, ground (arith, (IsDigit-trimmed s hs).1))

-- Numbers have no white space at an end.
pub trim_space-format_uint : (n : ℕ) → trim_space (format_uint n) ≡ format_uint n
unfolding trim_space format_uint
trim_space-format_uint n =
    let (left, right) = IsDigit-trimmed (digits (suc n) n) (digits-IsDigit (suc n) n) in
    rw left right

pub clean_head-format_uint : (n : ℕ) → clean_head (format_uint n) ≡ true
clean_head-format_uint n = clean_head_of_trimmed (format_uint n) (trim_space-format_uint n)
