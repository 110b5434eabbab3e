-- ===== src/Base/Strings/Parts.antt =====
-- Texts without a byte, from their parts, and suffixes that are trimmed.
use oscdn.Base.{
  ℕ, zero, suc, ◌-◌, ◌≤◌, ◌≡◌, refl, sym, ap, subst, ◌≢◌, ◌⊎◌, inl, inr, true, some, List, [], ◌∷◌,
  ◌++◌, arith, ◌==◌, Bool-cases, Option-cases, Bytes, str_eq, str_eq→eq, str_eq_refl, All,
  All-append, length, take, drop, length-append,
}
use oscdn.Base.Strings.{split, split_two, index, trim_suffix, has_suffix}
use oscdn.Base.Strings.Laws.{Lacks, take-append}

List-cases {ℓ} : {A : Type ℓ} (xs : List A) → (xs ≡ []) ⊎ ((x : A) × (ys : List A) × (xs ≡ x ∷ ys))
List-cases [] = inl refl
List-cases (x ∷ xs) = inr (x, xs, refl)

-- Parts without a byte come from a text without it, if the separator is another.
pub split-Lacks_of : (b sep : ℕ) (s : Bytes) → sep ≢ b → All (Lacks b) (split s sep) → Lacks b s
unfolding split
split-Lacks_of b sep [] ne h = tt
split-Lacks_of b sep (c ∷ s) ne h = elim (Bool-cases (c == sep)) [
  | inl e ↦ (ground arith, split-Lacks_of b sep s ne (rw e at h).1)
  | inr e ↦ elim (List-cases (split s sep)) [
    | inl f ↦ let g = (rw (e, f) at h) in (g.0.0, split-Lacks_of b sep s ne (rw f tt))
    | inr (p, ps, f) ↦
        let g = (rw (e, f) at h) in (g.0.0, split-Lacks_of b sep s ne (rw f (g.0.1, g.1)))
  ]
]

index-eq-some :
    (s : Bytes) (sep i : ℕ) → index s sep ≡ some i → s ≡ take i s ++ sep ∷ drop (suc i) s
unfolding index
index-eq-some [] sep i h = cc
index-eq-some (c ∷ s) sep zero h = ground arith
index-eq-some (c ∷ s) sep (suc i) h = ground (arith, index-eq-some s sep i)

pub split_two-Lacks_of :
    (b sep : ℕ) (s : Bytes)
    → sep ≢ b
    → Lacks b (split_two s sep).0
    → ((t : Bytes) → (split_two s sep).1 ≡ some t → Lacks b t)
    → Lacks b s
unfolding split_two
split_two-Lacks_of b sep s ne h k = elim (Option-cases (index s sep)) [
  | inl e ↦ rw (e, split_two) at h
  | inr (i, e) ↦ subst (Lacks b) (sym (index-eq-some s sep i e)) (
      All-append (λ c. c ≢ b) (take i s) (sep ∷ drop (suc i) s) (rw (e, split_two) at h)
        (ne, k (drop (suc i) s) (rw (e, split_two) refl)))
]

has_suffix-append : (s p : Bytes) → has_suffix s p ≡ true → s ≡ take (length s - length p) s ++ p
unfolding has_suffix
has_suffix-append [] [] h = refl
has_suffix-append [] (b ∷ p) h = cc
has_suffix-append (a ∷ s) p h = elim (Bool-cases (str_eq (a ∷ s) p)) [
  | inl e ↦ ground (arith, str_eq→eq (a ∷ s) p e)
  | inr e ↦
      let ih = has_suffix-append s p (ground arith) in
      let le : length p ≤ length s =
        omega (arith, ap length ih, length-append (take (length s - length p) s) p) in
      let count : suc (length s) - length p ≡ suc (length s - length p) = omega arith in
      rw count (ap (λ t. a ∷ t) ih)
]

-- A text without the suffix, or with it taken off.
pub trim_suffix-cases : (s p t : Bytes) → trim_suffix s p ≡ t → (s ≡ t) ⊎ (s ≡ t ++ p)
unfolding trim_suffix
trim_suffix-cases s p t h = elim (Bool-cases (has_suffix s p)) [
  | inl e ↦ inr (ground (arith, has_suffix-append s p e))
  | inr e ↦ inl (ground arith)
]

pub append-Lacks : (b : ℕ) (s t : Bytes) → Lacks b (s ++ t) → Lacks b s
append-Lacks b [] t h = tt
append-Lacks b (c ∷ s) t (hc, hs) = (hc, append-Lacks b s t hs)

has_suffix-append_true : (s p : Bytes) → has_suffix (s ++ p) p ≡ true
unfolding has_suffix
has_suffix-append_true [] [] = refl
has_suffix-append_true [] (b ∷ p) = rw (str_eq_refl p) (ground arith)
has_suffix-append_true (a ∷ s) p = ground (arith, has_suffix-append_true s p)

pub trim_suffix-append : (s p : Bytes) → trim_suffix (s ++ p) p ≡ s
unfolding trim_suffix
trim_suffix-append s p =
    let count : length (s ++ p) - length p ≡ length s = omega (arith, length-append s p) in
    rw (has_suffix-append_true s p, count) (take-append s p)

pub trim_suffix-Lacks : (s p : Bytes) (b : ℕ) → Lacks b s → trim_suffix s (b ∷ p) ≡ s
trim_suffix-Lacks s p b h = elim (trim_suffix-cases s (b ∷ p) (trim_suffix s (b ∷ p)) refl) [
  | inl e ↦ sym e
  | inr e ↦ absurd (marked (trim_suffix s (b ∷ p)) (subst (Lacks b) e h))
]
  where
    marked : (t : Bytes) → Lacks b (t ++ b ∷ p) → ⊥
    marked [] (hb, _) = hb refl
    marked (c ∷ t) (_, ht) = marked t ht
