-- ===== src/NamedLock/Threads.antt =====
-- Sums over a list of threads, under the change of one.
use oscdn.Base.{
  dec_lt, ◌<◌, ℕ, zero, suc, ◌+◌, ◌≤◌, ◌≡◌, refl, ap, ◌≢◌, ◌⊎◌, inl, inr, Option, none, some, List,
  [], ◌∷◌, arith, All,
}

abbrev pub get_elem? {ℓ} : {A : Type ℓ} → List A → ℕ → Option A
get_elem? [] i = none
get_elem? (x ∷ xs) zero = some x
get_elem? (x ∷ xs) (suc i) = get_elem? xs i

abbrev pub set {ℓ} : {A : Type ℓ} → List A → ℕ → A → List A
set [] i v = []
set (x ∷ xs) zero v = v ∷ xs
set (x ∷ xs) (suc i) v = x ∷ set xs i v

pub get_elem?-set {ℓ} :
    {A : Type ℓ} (xs : List A) (i j : ℕ) (v : A) {q : A}
    → get_elem? (set xs i v) j ≡ some q
    → ((i ≡ j) × (q ≡ v)) ⊎ ((i ≢ j) × (get_elem? xs j ≡ some q))
get_elem?-set [] i j v e = cc
get_elem?-set (x ∷ xs) zero zero v e = inl (refl, ground arith)
get_elem?-set (x ∷ xs) zero (suc j) v e = inr (omega arith, e)
get_elem?-set (x ∷ xs) (suc i) zero v e = inr (omega arith, e)
get_elem?-set (x ∷ xs) (suc i) (suc j) v e = ground (arith, get_elem?-set xs i j v e)

module _ {ℓ} {A : Type ℓ} (w : A → ℕ) where
  unfoldable pub total : List A → ℕ
  total [] = 0
  total (x ∷ xs) = w x + total xs

  pub total-set :
      (xs : List A) (i : ℕ) {p : A} (q : A)
      → get_elem? xs i ≡ some p
      → total (set xs i q) + w p ≡ total xs + w q
  unfolding total
  total-set [] i q e = cc
  total-set (x ∷ xs) zero {p} q e = ground arith
  total-set (x ∷ xs) (suc i) {p} q e = omega (arith, total-set xs i q e)

  pub le-total : (xs : List A) (i : ℕ) {p : A} → get_elem? xs i ≡ some p → w p ≤ total xs
  unfolding total
  le-total [] i e = cc
  le-total (x ∷ xs) zero {p} e = ground arith
  le-total (x ∷ xs) (suc i) {p} e = omega (arith, le-total xs i e)

  -- Two threads both count.
  pub add-le-total :
      (xs : List A) (i j : ℕ) {p q : A}
      → i ≢ j
      → get_elem? xs i ≡ some p
      → get_elem? xs j ≡ some q
      → w p + w q ≤ total xs
  unfolding total
  add-le-total [] i j ne e f = cc
  add-le-total (x ∷ xs) zero zero ne e f = absurd (ne refl)
  add-le-total (x ∷ xs) zero (suc j) {p} {q} ne e f = ground (arith, le-total xs j f)
  add-le-total (x ∷ xs) (suc i) zero {p} {q} ne e f = ground (arith, le-total xs i e)
  add-le-total (x ∷ xs) (suc i) (suc j) {p} {q} ne e f =
      omega (arith, add-le-total xs i j (λ h. ne (ap suc h)) e f)

  pub total-eq-zero : (xs : List A) → All (λ x. w x ≡ 0) xs → total xs ≡ 0
  unfolding total
  total-eq-zero [] h = refl
  total-eq-zero (x ∷ xs) (hx, hs) = omega (arith, total-eq-zero xs hs)

module _ {ℓ} {A : Type ℓ} (w : A → ℕ) where
  -- A positive sum has a thread that counts.
  pub total-pos :
      (xs : List A) → 0 < total w xs → (i : ℕ) × (p : A) × (get_elem? xs i ≡ some p) × (0 < w p)
  unfolding total
  total-pos [] h = absurd (omega arith)
  total-pos (x ∷ xs) h = elim (dec_lt 0 (w x)) [
    | yes here ↦ (0, x, refl, here)
    | no past ↦ let (i, p, at, counts) = total-pos xs (omega arith) in (suc i, p, at, counts)
  ]
