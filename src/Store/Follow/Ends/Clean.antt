-- ===== src/Store/Follow/Ends/Clean.antt =====
-- What the end of the pipe tells its reader.
use oscdn.Base.{not, ◌≡◌, refl, Bool, true, false, arith, if◌then◌else◌}
use oscdn.Store.Follow.{done, Follows, starts, writes, closes, moves}
use oscdn.Store.Follow.Whole.{Follows-whole}
use oscdn.Store.Follow.Ends.{Ending, unended, ended_eof, ended_released, Piping, is_broken, Pipes}
use oscdn.Store.Follow.Ends

-- Nothing but the end of the download can have made the loop return.
unfoldable pub is_calm : Piping → Bool
is_calm p = if p.released then false else if p.failed then false else not p.reader_gone

record IsPiping (p : Piping) : Type 0 where
  follows : Follows p.pipe
  finished : p.returned ≡ true → is_calm p ≡ true → p.pipe.phase ≡ done
  ended : p.ending ≡ ended_eof → p.returned ≡ true
  stopped : p.ending ≡ ended_released → p.released ≡ true

-- A pipe that was broken for a loop that nothing else disturbs had been ended by its return.
broken-done :
    (p : Piping) (e : Ending)
    → p.ending ≡ e
    → IsPiping p
    → is_broken p ≡ true
    → is_calm p ≡ true
    → p.pipe.phase ≡ done
unfolding is_calm is_broken
broken-done p unended e i broken calm = ground arith
broken-done p ended_eof e i broken calm = i.finished (i.ended e) calm
broken-done p ended_released e i broken calm = ground (arith, i.stopped e)

Pipes-IsPiping : (p : Piping) → Pipes p → IsPiping p
unfolding is_calm is_broken
Pipes-IsPiping _ (Ends.starts body) = record {
  follows = starts body;
  finished = λ r c. cc;
  ended = λ e. cc;
  stopped = λ e. cc;
}
Pipes-IsPiping _ (Ends.writes chunk {p = p} still f) =
    let i = Pipes-IsPiping p f in
    record {
      follows = writes chunk still i.follows;
      finished = i.finished;
      ended = i.ended;
      stopped = i.stopped;
    }
Pipes-IsPiping _ (Ends.closes {p = p} f) =
    let i = Pipes-IsPiping p f in
    record {
      follows = closes i.follows;
      finished = i.finished;
      ended = i.ended;
      stopped = i.stopped;
    }
Pipes-IsPiping _ (Ends.releases {p = p} f) =
    let i = Pipes-IsPiping p f in
    record { follows = i.follows; finished = λ r c. cc; ended = i.ended; stopped = λ e. refl }
Pipes-IsPiping _ (Ends.goes {p = p} f) =
    let i = Pipes-IsPiping p f in
    record {
      follows = i.follows;
      finished = λ r c. ground arith;
      ended = i.ended;
      stopped = i.stopped;
    }
Pipes-IsPiping _ (Ends.moves {p = p} going_on whole m f) =
    let i = Pipes-IsPiping p f in
    record {
      follows = moves m i.follows;
      finished = λ r c. cc;
      ended = i.ended;
      stopped = i.stopped;
    }
Pipes-IsPiping _ (Ends.returns_done {p = p} at f) =
    let i = Pipes-IsPiping p f in
    record { follows = i.follows; finished = λ r c. at; ended = λ e. refl; stopped = i.stopped }
Pipes-IsPiping _ (Ends.returns_released {p = p} at over f) =
    let i = Pipes-IsPiping p f in
    record {
      follows = i.follows;
      finished = λ r c. ground arith;
      ended = λ e. refl;
      stopped = i.stopped;
    }
Pipes-IsPiping _ (Ends.returns_broken {p = p} at broken f) =
    let i = Pipes-IsPiping p f in
    record {
      follows = i.follows;
      finished = λ r c. broken-done p p.ending refl i broken c;
      ended = λ e. refl;
      stopped = i.stopped;
    }
Pipes-IsPiping _ (Ends.returns_failed {p = p} at f) =
    let i = Pipes-IsPiping p f in
    record {
      follows = i.follows;
      finished = λ r c. ground arith;
      ended = λ e. refl;
      stopped = i.stopped;
    }
Pipes-IsPiping _ (Ends.ends_released {p = p} at over f) =
    let i = Pipes-IsPiping p f in
    record { follows = i.follows; finished = i.finished; ended = λ e. cc; stopped = λ e. over }
Pipes-IsPiping _ (Ends.ends_eof {p = p} at r f) =
    let i = Pipes-IsPiping p f in
    record { follows = i.follows; finished = i.finished; ended = λ e. r; stopped = λ e. cc }

-- However the loop of `pipeData`, the goroutine that ends its pipe, the download, the reader and the
-- release of the store alternate: where a reader that has not closed its side finds the end of the
-- pipe, while the store has not been released and its file has given no error, the download is over
-- and the reader has got all of its body file, in order.
pub Pipes-whole :
    (p : Piping)
    → Pipes p
    → p.ending ≡ ended_eof
    → is_calm p ≡ true
    → (p.pipe.closed ≡ true) × (p.pipe.sent ≡ p.pipe.body)
Pipes-whole p f e c =
    let i = Pipes-IsPiping p f in Follows-whole p.pipe i.follows (i.finished (i.ended e) c)

-- A reader finds ErrStoreReleased only where the store has been released.
Pipes-released : (p : Piping) → Pipes p → p.ending ≡ ended_released → p.released ≡ true
Pipes-released p f e = (Pipes-IsPiping p f).stopped e
