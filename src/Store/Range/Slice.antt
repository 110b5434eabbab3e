-- ===== src/Store/Range/Slice.antt =====
-- A clamped range lies within the content, and the pipe carries exactly its bytes.
use oscdn.Base.{
  ℕ, zero, suc, ◌≡◌, refl, some, arith, length, take, drop, length-take, length-drop, Bytes, ℤ, pos,
  pos_part, ◌-ℤ◌, ◌≤ℤ◌, -ℤ_parts,
}
use oscdn.Store.Common.{ContentRange}
use oscdn.Store.Range.{clamp_start, clamp_end, clamp_range, read_range}

pub record IsWithin (r : ContentRange) (size : ℤ) : Type 0 where
  pub start_nonneg : pos 0 ≤ℤ r.start
  pub ordered : r.start ≤ℤ r.end
  pub end_le : r.end ≤ℤ size

-- Whatever range is asked for, over a content of known size it is clamped to 0 ≤ start ≤ end ≤ size.
pub clamp_range-IsWithin :
    (r : ContentRange) (size : ℤ) → pos 0 ≤ℤ size → IsWithin (clamp_range r size) size
unfolding clamp_range clamp_start clamp_end
clamp_range-IsWithin r size h = record {
  start_nonneg = ground arith;
  ordered = ground arith;
  end_le = ground arith;
}

-- A range that lies within the content is left as it is.
pub clamp_range_id : (r : ContentRange) (size : ℤ) → IsWithin r size → clamp_range r size ≡ r
unfolding clamp_range clamp_start clamp_end
clamp_range_id r size w = ground arith

drop_of_zero : (n : ℕ) (body : Bytes) → n ≡ 0 → drop n body ≡ body
drop_of_zero zero body h = refl
drop_of_zero (suc n) body h = absurd (omega arith)

pub read_range-IsWithin :
    (c : ContentRange) (body : Bytes)
    → IsWithin c (pos (length body))
    → read_range (some c) body ≡ take (pos_part (c.end -ℤ c.start)) (drop (pos_part c.start) body)
unfolding read_range
read_range-IsWithin c body w = ground (arith, drop_of_zero (pos_part c.start) body)

pub length-read_range :
    (c : ContentRange) (body : Bytes)
    → IsWithin c (pos (length body))
    → pos (length (read_range (some c) body)) ≡ c.end -ℤ c.start
length-read_range c body w = rw (read_range-IsWithin c body w) (
    ground (
      arith,
      length-take (pos_part (c.end -ℤ c.start)) (drop (pos_part c.start) body),
      length-drop (pos_part c.start) body,
      -ℤ_parts c.end c.start,
    ))

-- Over a body of the recorded size the pipe carries exactly `end - start` bytes of the clamped
-- range: those from `start` on.
pub read_range-clamp_range :
    (r : ContentRange) (body : Bytes)
    → let c = clamp_range r (pos (length body)) in
      (pos (length (read_range (some c) body)) ≡ c.end -ℤ c.start)
      × (read_range (some c) body
          ≡ take (pos_part (c.end -ℤ c.start)) (drop (pos_part c.start) body))
read_range-clamp_range r body =
    let c = clamp_range r (pos (length body)) in
    let w : IsWithin c (pos (length body)) =
      clamp_range-IsWithin r (pos (length body)) (omega arith) in
    (length-read_range c body w, read_range-IsWithin c body w)
