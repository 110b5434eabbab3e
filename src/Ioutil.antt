-- ===== src/Ioutil.antt =====
-- ioutil/ioutil.go: `CopyRate`, over a source that is a text with an end and a sink that may refuse
-- bytes. `io.Copy` and `io.CopyN` are Go's; the leaky bucket of package ioshape is a parameter.
pub mod Whole
pub mod Short
use oscdn.Base.{
  ℕ, ◌+◌, ◌-◌, ◌/◌, Bool, ◌&&◌, Option, none, some, [], ◌++◌, if◌then◌else◌, ltb, length, take,
  drop, Bytes, ℤ, pos, negsuc, pos_part, ◌*ℤ◌, ltb_ℤ, leb_ℤ, wrap64, sub_ℕ,
}

-- What a source still gives, and whether it then fails, where another one ends.
pub record Source : Type 0 where
  pub bytes : Bytes
  pub breaks : Bool

-- What has been written, and how many bytes are still taken; `none` is no limit.
pub record Sink : Type 0 where
  pub written : Bytes
  pub room : Option ℕ

pub data CopyError : Type 0 where
  eof read_error write_error : CopyError

-- The sink behind a copy, and what the copy returns.
pub record Copied : Type 0 where
  pub sink : Sink
  pub count : ℕ
  pub error : Option CopyError

abbrev pub accepted : Option ℕ → Bytes → Bytes
accepted none s = s
accepted (some k) s = take k s

abbrev pub room_after : Option ℕ → ℕ → Option ℕ
room_after none n = none
room_after (some k) n = some (k - n)

-- `io.Copy`
unfoldable pub copy : Sink → Source → Copied
copy w r =
    let taken = accepted w.room r.bytes in
    record {
      sink = record { written = w.written ++ taken; room = room_after w.room (length taken) };
      count = length taken;
      error =
          if ltb (length taken) (length r.bytes)
          then some write_error
          else if r.breaks
          then some read_error
          else none;
    }

-- `io.LimitReader`: its end is reached without a look at what follows.
unfoldable pub limit_reader : Source → ℤ → Source
limit_reader r n = record {
  bytes = take (pos_part n) r.bytes;
  breaks = r.breaks && ltb (length r.bytes) (pos_part n);
}

-- `io.CopyN`, from what the copy of the limited source gives.
unfoldable pub n_copied : Copied → ℤ → Copied
n_copied c n =
    if leb_ℤ (pos c.count) n && leb_ℤ n (pos c.count) then record c { error = none } else record c {
      error = elim (c.error) [
        | some e ↦ some e
        | none ↦ if ltb_ℤ (pos c.count) n then some eof else none
      ];
    }

unfoldable pub copy_n : Sink → Source → ℤ → Copied
unfolding n_copied
copy_n w r n = n_copied (copy w (limit_reader r n)) n

-- Go's division of an `int64` by 64 rounds to zero.
abbrev pub quotient_64 : ℤ → ℤ
quotient_64 (pos n) = pos (n / 64)
quotient_64 (negsuc n) = sub_ℕ 0 ((n + 1) / 64)

-- What is left of a source.
abbrev pub rest : Source → ℕ → Source
rest r n = record r { bytes = drop n r.bytes }

unfoldable pub copy_burst : Sink → Source → ℤ → Copied
copy_burst w r burst =
    if ltb_ℤ (pos 0) burst
    then copy_n w r (wrap64 (burst *ℤ pos 1024))
    else record { sink = w; count = 0; error = none }

-- `CopyRate` behind the burst; the bucket takes the size of its leak.
unfoldable pub copy_shaped : (ℤ → Source → Source) → Source → ℤ → Copied → Copied
copy_shaped leaky_bucket r rate first = elim (first.error) [
  | some e ↦ first
  | none ↦
      let r' = rest r first.count in
      let shaped =
        if ltb_ℤ (pos 0) rate
        then leaky_bucket (quotient_64 (wrap64 (rate *ℤ pos 1024))) r'
        else r' in
      let c = copy first.sink shaped in record c { count = first.count + c.count }
]

-- `CopyRate`
unfoldable pub copy_rate : (ℤ → Source → Source) → Sink → Source → ℤ → ℤ → Copied
unfolding copy_shaped
copy_rate leaky_bucket w r burst rate = copy_shaped leaky_bucket r rate (copy_burst w r burst)

-- `ErrorReader`, with `io.EOF` or another error.
abbrev pub error_reader : Bool → Source
error_reader breaks = record { bytes = []; breaks = breaks }
