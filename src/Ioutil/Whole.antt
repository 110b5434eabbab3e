-- ===== src/Ioutil/Whole.antt =====
-- A copy at a limited rate does what a plain copy does.
use mathlib.Core.Path.{subst, fun_ext}
use oscdn.Base.{
  take_of_ge, ◌*◌, negsuc, length-append, dec_lt, ◌^◌, ℕ, zero, suc, ◌+◌, ◌-◌, ◌≤◌, ◌<◌, ◌≡◌, refl,
  ◌∙◌, sym, ap, ◌⊎◌, inl, inr, Option, none, some, List, [], ◌∷◌, ◌++◌, append_assoc, arith, length,
  take, drop, length-take, length-drop, Bytes, ℤ, pos, ◌*ℤ◌, ◌≤ℤ◌, wrap64,
}
use oscdn.Ioutil.{
  Source, Sink, Copied, CopyError, write_error, accepted, room_after, copy, limit_reader, copy_n,
  copy_burst, copy_rate, rest,
}

take-drop {ℓ} : {A : Type ℓ} (k : ℕ) (xs : List A) → take k xs ++ drop k xs ≡ xs
take-drop zero xs = refl
take-drop (suc k) [] = refl
take-drop (suc k) (x ∷ xs) = ap (λ t. x ∷ t) (take-drop k xs)

take-take {ℓ} : {A : Type ℓ} (m k : ℕ) (xs : List A) → m ≤ k → take m (take k xs) ≡ take m xs
take-take zero k xs h = refl
take-take (suc m) zero xs h = absurd (omega arith)
take-take (suc m) (suc k) [] h = refl
take-take (suc m) (suc k) (x ∷ xs) h = ap (λ t. x ∷ t) (take-take m k xs (omega arith))

take-nil {ℓ} : {A : Type ℓ} (n : ℕ) → take {A = A} n [] ≡ []
take-nil zero = refl
take-nil (suc n) = refl

take-append-drop {ℓ} :
    {A : Type ℓ} (m k : ℕ) (xs : List A) → k ≤ m → take k xs ++ take (m - k) (drop k xs) ≡ take m xs
take-append-drop m zero xs h = let e : m - 0 ≡ m = omega arith in rw e
take-append-drop zero (suc k) xs h = absurd (omega arith)
take-append-drop (suc m) (suc k) [] h = take-nil (suc m - suc k)
take-append-drop (suc m) (suc k) (x ∷ xs) h =
    let e : suc m - suc k ≡ m - k = omega arith in
    rw e (ap (λ t. x ∷ t) (take-append-drop m k xs (omega arith)))

-- The sink takes the first `k` bytes whole.
abbrev Takes : Option ℕ → ℕ → Type 0
Takes none k = Unit
Takes (some m) k = k ≤ m

accepted-take :
    (room : Option ℕ) (k : ℕ) (s : Bytes) → Takes room k → accepted room (take k s) ≡ take k s
accepted-take none k s t = refl
accepted-take (some m) k s t = take_of_ge m (take k s) (omega (arith, length-take k s))

accepted-append :
    (room : Option ℕ) (k : ℕ) (s : Bytes)
    → Takes room k
    → take k s ++ accepted (room_after room k) (drop k s) ≡ accepted room s
accepted-append none k s t = take-drop k s
accepted-append (some m) k s t = take-append-drop m k s t

length-taken : (k : ℕ) (s : Bytes) → k ≤ length s → length (take k s) ≡ k
length-taken k s h = omega (arith, length-take k s)

-- A `CopyN` of no more than there is, into a sink that has the room.
pub copy_n-Takes :
    (w : Sink) (r : Source) (k : ℕ)
    → k ≤ length r.bytes
    → Takes w.room k
    → copy_n w r (pos k) ≡ record {
      sink = record { written = w.written ++ take k r.bytes; room = room_after w.room k };
      count = k;
      error = none;
    }
unfolding copy_n limit_reader copy
copy_n-Takes w r k h t =
    rw (accepted-take w.room k r.bytes t, length-taken k r.bytes h) (ground arith)

room_after-add :
    (room : Option ℕ) (k n : ℕ) → room_after (room_after room k) n ≡ room_after room (k + n)
room_after-add none k n = refl
room_after-add (some m) k n = ap some (omega arith)

copy-Takes :
    (w : Sink) (r : Source) (k : ℕ)
    → k ≤ length r.bytes
    → Takes w.room k
    → let c =
        copy
          (record { written = w.written ++ take k r.bytes; room = room_after w.room k })
          (rest r k) in
      record c { count = k + c.count } ≡ copy w r
unfolding copy
copy-Takes w r k h t =
    let more = accepted (room_after w.room k) (drop k r.bytes) in
    let all : take k r.bytes ++ more ≡ accepted w.room r.bytes =
      accepted-append w.room k r.bytes t in
    let count : k + length more ≡ length (accepted w.room r.bytes) =
      omega (arith, ap length all, length-append (take k r.bytes) more, length-taken k r.bytes h) in
    let text : (w.written ++ take k r.bytes) ++ more ≡ w.written ++ accepted w.room r.bytes =
      append_assoc w.written (take k r.bytes) more ∙ ap (λ s. w.written ++ s) all in
    ground (arith, text, count, room_after-add w.room k (length more), length-drop k r.bytes)

-- A sink that has less room than `k` refuses a byte of the first `k`, and of the whole.
copy_n-short_room :
    (w : Sink) (r : Source) (k m : ℕ)
    → k ≤ length r.bytes
    → w.room ≡ some m
    → m < k
    → ((copy_n w r (pos k)).error ≡ some write_error) × (copy_n w r (pos k) ≡ copy w r)
unfolding copy_n limit_reader copy
copy_n-short_room w r k m h room lt =
    let same : take m (take k r.bytes) ≡ take m r.bytes = take-take m k r.bytes (omega arith) in
    let count : length (take m r.bytes) ≡ m = length-taken m r.bytes (omega arith) in
    let bound = length-taken k r.bytes h in (ground arith, ground arith)

Takes-cases : (room : Option ℕ) (k : ℕ) → Takes room k ⊎ ((m : ℕ) × (room ≡ some m) × (m < k))
Takes-cases none k = inl tt
Takes-cases (some m) k = elim (dec_lt m k) [
  | yes lt ↦ inr (m, refl, lt)
  | no ge ↦ inl (omega arith)
]

-- A copy behind the burst, with no bucket.
abbrev continued : Copied → Source → Copied
continued first r = elim (first.error) [
  | some e ↦ first
  | none ↦
      let c = copy first.sink (rest r first.count) in record c { count = first.count + c.count }
]

continued_error :
    (first : Copied) (r : Source) (e : CopyError) → first.error ≡ some e → continued first r ≡ first
continued_error first r e h = ground arith

continued-copy_n :
    (w : Sink) (r : Source) (k : ℕ)
    → k ≤ length r.bytes
    → continued (copy_n w r (pos k)) r ≡ copy w r
continued-copy_n w r k h = elim (Takes-cases w.room k) [
  | inl t ↦ rw (copy_n-Takes w r k h t) (copy-Takes w r k h t)
  | inr (m, room, lt) ↦
      let (fails, same) = copy_n-short_room w r k m h room lt in
      continued_error (copy_n w r (pos k)) r write_error fails ∙ same
]

continued-none :
    (w : Sink) (r : Source) → continued (record { sink = w; count = 0; error = none }) r ≡ copy w r
continued-none w r = ground arith

pub copy_burst-none :
    (w : Sink) (r : Source) (burst : ℤ)
    → burst ≤ℤ pos 0
    → copy_burst w r burst ≡ record { sink = w; count = 0; error = none }
unfolding copy_burst
copy_burst-none w r burst h = ground arith

pub burst-size : (n : ℕ) → n * 1024 < 2 ^ 63 → wrap64 (pos n *ℤ pos 1024) ≡ pos (n * 1024)
unfolding wrap64 ◌*ℤ◌
burst-size n h = ground arith

pub copy_burst_some :
    (w : Sink) (r : Source) (n : ℕ)
    → 0 < n
    → n * 1024 < 2 ^ 63
    → copy_burst w r (pos n) ≡ copy_n w r (pos (n * 1024))
unfolding copy_burst
copy_burst_some w r n some_burst h = rw (burst-size n h) (ground arith)

burst_fits : (n l : ℕ) → pos n *ℤ pos 1024 ≤ℤ pos l → n * 1024 ≤ l
unfolding ◌*ℤ◌
burst_fits n l h = ground arith

continued-copy_burst :
    (w : Sink) (r : Source) (burst : ℤ)
    → burst *ℤ pos 1024 ≤ℤ pos (length r.bytes)
    → length r.bytes < 2 ^ 63
    → continued (copy_burst w r burst) r ≡ copy w r
continued-copy_burst w r (negsuc n) enough small =
    ap (λ c. continued c r) (copy_burst-none w r (negsuc n) (omega arith)) ∙ continued-none w r
continued-copy_burst w r (pos zero) enough small =
    ap (λ c. continued c r) (copy_burst-none w r (pos 0) (omega arith)) ∙ continued-none w r
continued-copy_burst w r (pos (suc n)) enough small =
    let fits = burst_fits (suc n) (length r.bytes) enough in
    ap (λ c. continued c r) (copy_burst_some w r (suc n) (omega arith) (omega arith))
    ∙ continued-copy_n w r (suc n * 1024) fits

copy_rate_no_bucket :
    (w : Sink) (r : Source) (burst rate : ℤ)
    → copy_rate (λ size s. s) w r burst rate ≡ continued (copy_burst w r burst) r
unfolding copy_rate
copy_rate_no_bucket w r burst rate = ground arith

-- Where the bucket gives what it is given, and the source holds at least the burst, a copy at a
-- limited rate ends as `io.Copy` does, with any sink and any failure: the same bytes are written, the
-- same number is returned, and the same error.
pub copy_rate-copy :
    (leaky_bucket : ℤ → Source → Source)
    → ((size : ℤ) (r : Source) → leaky_bucket size r ≡ r)
    → (w : Sink) (r : Source) (burst rate : ℤ) → burst *ℤ pos 1024 ≤ℤ pos (length r.bytes)
    → length r.bytes < 2 ^ 63
    → copy_rate leaky_bucket w r burst rate ≡ copy w r
copy_rate-copy leaky_bucket same w r burst rate enough small =
    subst (λ l. copy_rate l w r burst rate ≡ copy w r) (sym (fun_ext (λ size. fun_ext (same size))))
      (copy_rate_no_bucket w r burst rate ∙ continued-copy_burst w r burst enough small)
