-- ===== src/Cdn/Writer/Ranges.antt =====
-- The Range header `bytes=a-b` is read to its two numbers, and how many bytes the store then serves.
use oscdn.Base.{
  ◌-ℤ◌, ℕ, ◌-◌, ◌^◌, ◌≤◌, ◌<◌, ◌≡◌, refl, ◌∙◌, ◌≢◌, false, some, List, [], ◌∷◌, ◌++◌, map, arith,
  length, take, drop, All, All-append, Bytes, codes, str_eq, ℤ, pos, negsuc,
}
use oscdn.Base.Strings.{trim_space, is_digit, format_uint}
use oscdn.Base.Strings.Laws.{Lacks, format_uint-Lacks, split_two-append}
use oscdn.Base.Strings.Laws.{
  parse_int-format_uint, format_uint-ne-nil, trim_space-format_uint, clean_head-format_uint,
  trim_space-append, clean_head-append,
}
use oscdn.Base.Http.{get}
use oscdn.HttpUtil.Options.{OptionKeyVal, HeaderOption, parse_options}
use oscdn.HttpUtil.Options.WellFormed.{IsWellFormed, first_val, parse_options-IsWellFormed}
use oscdn.HttpUtil.Options.RoundTrip.{
  IsClean, key_vals_of, print_options, parse_options-print_options,
}
use oscdn.Store.Common.{ContentRange}
use oscdn.Store.Range.{clamp_range, read_range}
use oscdn.Store.Range.Slice.{read_range-IsWithin, length-read_range, IsWithin, clamp_range_id}
use oscdn.Cdn.Common.{Request}
use oscdn.Cdn.Writer.{range, set_content_range, parse_range, parse_bound}

-- `a-b`
unfoldable pub bounds_text : ℕ → ℕ → Bytes
bounds_text a b = format_uint a ++ b'-' ∷ format_uint b

abbrev pub bytes_pair : ℕ → ℕ → OptionKeyVal
bytes_pair a b = record { key = codes "bytes"; val = bounds_text a b }

-- `bytes=a-b`
abbrev pub range_text : ℕ → ℕ → Bytes
range_text a b = print_options ((bytes_pair a b ∷ []) ∷ [])

bounds_text-Lacks : (a b c : ℕ) → is_digit c ≡ false → b'-' ≢ c → Lacks c (bounds_text a b)
unfolding bounds_text
bounds_text-Lacks a b c h ne =
    All-append (λ d. d ≢ c) (format_uint a) (b'-' ∷ format_uint b) (format_uint-Lacks c a h)
      (ne, format_uint-Lacks c b h)

bytes_pair-IsClean : (a b : ℕ) → IsClean (bytes_pair a b)
unfolding bounds_text trim_space
bytes_pair-IsClean a b = record {
  key_some = λ e. cc;
  key_trimmed = refl;
  val_trimmed =
      trim_space-append (format_uint a) (format_uint b) b'-'
        (clean_head-append (format_uint a) (b'-' ∷ format_uint b) (format_uint-ne-nil a)
          (clean_head-format_uint a))
        refl (trim_space-format_uint b);
  key_marks = (omega arith, omega arith, omega arith);
  val_marks = (
    bounds_text-Lacks a b b';' refl (omega arith),
    bounds_text-Lacks a b b',' refl (omega arith),
  );
}

parse_bound-format_uint :
    (n : ℕ) (def : ℤ) → n < 2 ^ 63 → parse_bound (format_uint n) def ≡ some (pos n)
unfolding parse_bound
parse_bound-format_uint n def h =
    rw (not_empty (format_uint n) (format_uint-ne-nil n)) (parse_int-format_uint n h)
  where
    not_empty : (s : Bytes) → s ≢ [] → str_eq s [] ≡ false
    not_empty [] ne = absurd (ne refl)
    not_empty (c ∷ s) ne = refl

parse_range-bounds_text :
    (a b : ℕ)
    → a < 2 ^ 63
    → b < 2 ^ 63
    → parse_range (bounds_text a b) ≡ range (record { start = pos a; end = pos b })
unfolding parse_range bounds_text
parse_range-bounds_text a b ha hb = ground (
  arith,
  split_two-append (format_uint a) (format_uint b) b'-' (format_uint-Lacks b'-' a refl),
  parse_bound-format_uint a (pos 0) ha,
  parse_bound-format_uint b (negsuc 0) hb,
)

bounds_text-not_empty : (a b : ℕ) → str_eq (bounds_text a b) [] ≡ false
unfolding bounds_text
bounds_text-not_empty a b = not_empty (format_uint a)
  where
    not_empty : (s : Bytes) → str_eq (s ++ b'-' ∷ format_uint b) [] ≡ false
    not_empty [] = refl
    not_empty (c ∷ s) = refl

-- Options whose only pair is the one of the range.
set_range_of_options :
    (req : Request) (os : List HeaderOption) (a b : ℕ)
    → parse_options (get req.header (codes "Range")) ≡ os
    → All IsWellFormed os
    → map key_vals_of os ≡ (bytes_pair a b ∷ []) ∷ []
    → set_content_range req ≡ parse_range (bounds_text a b)
unfolding set_content_range
set_range_of_options req [] a b e w k = cc
set_range_of_options req (o ∷ os) a b e (w, _) k =
    ground (arith, e, w.consistent.first (codes "bytes"), vals, bounds_text-not_empty a b)
  where
    pairs : o.key_vals ≡ bytes_pair a b ∷ []
    pairs = cc

    vals : first_val (codes "bytes") o.key_vals ≡ some (bounds_text a b)
    vals = rw pairs

-- The header `bytes=a-b`, for numbers that fit `int64`, asks the store for the range from `a` to `b`.
pub set_content_range-range_text :
    (req : Request) (a b : ℕ)
    → get req.header (codes "Range") ≡ range_text a b
    → a < 2 ^ 63
    → b < 2 ^ 63
    → set_content_range req ≡ range (record { start = pos a; end = pos b })
set_content_range-range_text req a b h ha hb =
    set_range_of_options req (parse_options (get req.header (codes "Range"))) a b refl
      (parse_options-IsWellFormed (get req.header (codes "Range")))
      (rw h (
        parse_options-print_options ((bytes_pair a b ∷ []) ∷ [])
          (((λ e. cc), (bytes_pair-IsClean a b, tt)), tt)))
    ∙ parse_range-bounds_text a b ha hb

-ℤ_pos : (a b : ℕ) → a ≤ b → pos b -ℤ pos a ≡ pos (b - a)
unfolding ◌-ℤ◌
-ℤ_pos a b h = ground arith

abbrev bounds : ℕ → ℕ → ContentRange
bounds a b = record { start = pos a; end = pos b }

-- A client that asks for `bytes=a-b` within a stored content gets the `b - a` bytes from `a` on: the
-- byte at `b` is not among them.
pub bytes_served :
    (req : Request) (a b : ℕ) (body : Bytes)
    → get req.header (codes "Range") ≡ range_text a b
    → a ≤ b
    → b ≤ length body
    → length body < 2 ^ 63
    → (r : ContentRange) × (set_content_range req ≡ range r)
      × (read_range (some (clamp_range r (pos (length body)))) body ≡ take (b - a) (drop a body))
      × (length (read_range (some (clamp_range r (pos (length body)))) body) ≡ b - a)
bytes_served req a b body h le fits small = (
  bounds a b,
  set_content_range-range_text req a b h (omega arith) (omega arith),
  rw kept (rw (-ℤ_pos a b le) at (read_range-IsWithin (bounds a b) body within)),
  rw kept (ground (arith, length-read_range (bounds a b) body within, -ℤ_pos a b le)),
)
  where
    within : IsWithin (bounds a b) (pos (length body))
    within = omega arith

    kept : clamp_range (bounds a b) (pos (length body)) ≡ bounds a b
    kept = clamp_range_id (bounds a b) (pos (length body)) within
