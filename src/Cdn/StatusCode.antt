-- ===== src/Cdn/StatusCode.antt =====
-- cdn/utils.go: `maskStatusCode`, the label of a status code in the metrics.
use oscdn.Base.{
  ◌≡◌, refl, ap, ◌⊎◌, inl, inr, Bool, true, false, ◌&&◌, ◌||◌, arith, if◌then◌else◌, Bool-cases,
  Bytes, codes, List, [], ◌∷◌, ℤ, pos, leb_ℤ, ℕ,
}
use oscdn.Base.Strings.{format_int}

abbrev within : ℤ → ℕ → ℕ → Bool
within code low high = leb_ℤ (pos low) code && leb_ℤ code (pos high)

-- A case of the inner `switch`, whose code keeps its number.
abbrev is_one_of : ℤ → List ℕ → Bool
is_one_of c [] = false
is_one_of c (n ∷ ns) = (leb_ℤ c (pos n) && leb_ℤ (pos n) c) || is_one_of c ns

abbrev keep : ℤ → List ℕ → Bytes → Bytes
keep c ns other = if is_one_of c ns then format_int c else other

-- `maskStatusCode`
unfoldable pub mask_status_code : ℤ → Bytes
mask_status_code c =
    if within c 100 199
    then codes "1xx"
    else if within c 200 299
    then keep c (200 ∷ 206 ∷ []) (codes "2xx")
    else if within c 300 399
    then keep c (301 ∷ 302 ∷ []) (codes "3xx")
    else if within c 400 499
    then keep c (403 ∷ 404 ∷ []) (codes "4xx")
    else if within c 500 599
    then keep c (500 ∷ 501 ∷ 502 ∷ 503 ∷ 504 ∷ []) (codes "5xx")
    else codes "xxx"

abbrev pub IsIn : {A : Type 0} → A → List A → Type 0
IsIn x [] = ⊥
IsIn x (y ∷ ys) = (x ≡ y) ⊎ IsIn x ys

-- The labels that stand for many codes, and the codes that have their own.
abbrev pub classes : List Bytes
classes = codes "1xx" ∷ codes "2xx" ∷ codes "3xx" ∷ codes "4xx" ∷ codes "5xx" ∷ codes "xxx" ∷ []

abbrev pub kept : List ℕ
kept = 200 ∷ 206 ∷ 301 ∷ 302 ∷ 403 ∷ 404 ∷ 500 ∷ 501 ∷ 502 ∷ 503 ∷ 504 ∷ []

-- A label of a code is that of its class, or the number of a code that is kept.
abbrev pub IsLabel : ℤ → Bytes → Type 0
IsLabel c label =
    IsIn label classes ⊎ ((n : ℕ) × (c ≡ pos n) × IsIn n kept × (label ≡ format_int (pos n)))

is_one_of-IsIn : (c : ℤ) (ns : List ℕ) → is_one_of c ns ≡ true → (n : ℕ) × (c ≡ pos n) × IsIn n ns
is_one_of-IsIn c [] h = cc
is_one_of-IsIn c (n ∷ ns) h = elim (Bool-cases (leb_ℤ c (pos n) && leb_ℤ (pos n) c)) [
  | inl e ↦ (n, ground arith, inl refl)
  | inr e ↦ let (m, is_m, found) = is_one_of-IsIn c ns (ground arith) in (m, is_m, inr found)
]

keep-IsLabel :
    (c : ℤ) (ns : List ℕ) (other : Bytes)
    → IsIn other classes
    → ((n : ℕ) → IsIn n ns → IsIn n kept)
    → IsLabel c (keep c ns other)
keep-IsLabel c ns other o k = elim (Bool-cases (is_one_of c ns)) [
  | inl e ↦
      let (n, is_n, found) = is_one_of-IsIn c ns e in
      rw e (inr (n, is_n, k n found, ap format_int is_n))
  | inr e ↦ rw e (inl o)
]

if-IsLabel :
    (c : ℤ) (b : Bool) {x y : Bytes} → IsLabel c x → IsLabel c y → IsLabel c (if b then x else y)
if-IsLabel c true hx hy = hx
if-IsLabel c false hx hy = hy

-- Whatever number an answer has for its code, its label is one of six classes or one of the eleven
-- codes that keep their number, so that the metrics have at most seventeen labels.
pub mask_status_code-IsLabel : (c : ℤ) → IsLabel c (mask_status_code c)
unfolding mask_status_code
mask_status_code-IsLabel c = if-IsLabel c (within c 100 199) (inl (ground arith)) (
    if-IsLabel c (within c 200 299)
      (keep-IsLabel c (200 ∷ 206 ∷ []) (codes "2xx") (ground arith) (λ n h. ground arith))
      (if-IsLabel c (within c 300 399)
        (keep-IsLabel c (301 ∷ 302 ∷ []) (codes "3xx") (ground arith) (λ n h. ground arith))
        (if-IsLabel c (within c 400 499)
          (keep-IsLabel c (403 ∷ 404 ∷ []) (codes "4xx") (ground arith) (λ n h. ground arith))
          (if-IsLabel c (within c 500 599)
            (keep-IsLabel c (500 ∷ 501 ∷ 502 ∷ 503 ∷ 504 ∷ []) (codes "5xx") (ground arith)
              (λ n h. ground arith))
            (inl (ground arith))))))
