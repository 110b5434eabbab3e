-- ===== src/Ioutil/Short.antt =====
-- A source that is shorter than the burst: all of it is copied, and the copy reports its end as an
-- error.
use oscdn.Base.{
  take_of_ge, ℕ, ◌*◌, ◌^◌, ◌<◌, ◌≡◌, ◌∙◌, ap, false, none, some, ◌++◌, arith, length, Bytes, ℤ, pos,
}
use oscdn.Ioutil.{n_copied, copy_shaped, Source, Sink, eof, copy, limit_reader, copy_n, copy_rate}
use oscdn.Ioutil.Whole.{copy_burst_some}

abbrev pub unlimited : Bytes → Sink
unlimited written = record { written = written; room = none }

copy-limit_reader :
    (written bytes : Bytes) (n : ℕ)
    → length bytes < n
    → copy (unlimited written) (limit_reader (record { bytes = bytes; breaks = false }) (pos n))
      ≡ record { sink = unlimited (written ++ bytes); count = length bytes; error = none }
unfolding limit_reader copy
copy-limit_reader written bytes n h = ground (arith, take_of_ge n bytes)

copy_n-eof :
    (written bytes : Bytes) (n : ℕ)
    → length bytes < n
    → copy_n (unlimited written) (record { bytes = bytes; breaks = false }) (pos n)
      ≡ record { sink = unlimited (written ++ bytes); count = length bytes; error = some eof }
unfolding copy_n
copy_n-eof written bytes n h =
    ap (λ c. n_copied c (pos n)) (copy-limit_reader written bytes n h)
    ∙ (unfold n_copied in ground arith)

-- Where a source ends without failure before the burst is over, `CopyRate` has written all of it, and
-- returns the end of the source as an error, whatever the rate and the bucket.
pub copy_rate-eof :
    (leaky_bucket : ℤ → Source → Source) (written bytes : Bytes) (n : ℕ) (rate : ℤ)
    → length bytes < n * 1024
    → n * 1024 < 2 ^ 63
    → copy_rate leaky_bucket
        (unlimited written)
        (record { bytes = bytes; breaks = false })
        (pos n)
        rate
      ≡ record { sink = unlimited (written ++ bytes); count = length bytes; error = some eof }
unfolding copy_rate copy_shaped
copy_rate-eof leaky_bucket written bytes n rate short small =
    let first =
      copy_burst_some (unlimited written) (record { bytes = bytes; breaks = false }) n (omega arith)
        small
      ∙ copy_n-eof written bytes (n * 1024) short in
    ap (copy_shaped leaky_bucket (record { bytes = bytes; breaks = false }) rate) first
