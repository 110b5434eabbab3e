-- ===== src/Store/Follow/Ends.antt =====
-- store/store.go, the goroutines of `pipeData` beside a download and the release of the store: how the
-- loop returns, and how the second goroutine then ends the pipe.
pub mod Clean
use oscdn.Base.{if◌then◌else◌, ◌≡◌, ◌⊎◌, Bool, true, false, ◌++◌, [], Bytes}
use oscdn.Store.Follow.{Pipe, Move, copying, waiting, done, is_copying}

-- The pipe as its reader finds it: open, ended, or with ErrStoreReleased.
pub data Ending : Type 0 where
  unended ended_eof ended_released : Ending

-- The loop with what is around it: whether the context of the store is done, whether an error of the
-- file has occurred, whether the reader has closed its side, and whether the loop has returned, which
-- closes the channel `end`.
pub record Piping : Type 0 where
  pub pipe : Pipe
  pub released : Bool
  pub failed : Bool
  pub reader_gone : Bool
  pub returned : Bool
  pub ending : Ending

abbrev pub piping_of : Bytes → Piping
piping_of body = record {
  pipe = record { body = body; closed = false; sent = []; phase = copying };
  released = false;
  failed = false;
  reader_gone = false;
  returned = false;
  ending = unended;
}

-- A write to the pipe fails.
unfoldable pub is_broken : Piping → Bool
is_broken p = if p.reader_gone then true else elim (p.ending) [ unended ↦ false | _ ↦ true ]

-- The states that the goroutines can reach.
pub data Pipes : Piping → Type 0 where
  starts : (body : Bytes) → Pipes (piping_of body)
  -- The download, the release of the store and the reader.
  writes :
      (chunk : Bytes) {p : Piping}
      → p.pipe.closed ≡ false
      → Pipes p
      → Pipes (record p { pipe = record (p.pipe) { body = p.pipe.body ++ chunk } })
  closes : {p : Piping} → Pipes p → Pipes (record p { pipe = record (p.pipe) { closed = true } })
  releases : {p : Piping} → Pipes p → Pipes (record p { released = true })
  goes : {p : Piping} → Pipes p → Pipes (record p { reader_gone = true })
  -- The loop.
  moves :
      {p : Piping} {q : Pipe}
      → p.returned ≡ false
      → (is_broken p ≡ false) ⊎ (q.sent ≡ p.pipe.sent)
      → Move p.pipe q
      → Pipes p
      → Pipes (record p { pipe = q })
  returns_done : {p : Piping} → p.pipe.phase ≡ done → Pipes p → Pipes (record p { returned = true })
  returns_released :
      {p : Piping}
      → p.pipe.phase ≡ waiting
      → p.released ≡ true
      → Pipes p
      → Pipes (record p { returned = true })
  returns_broken :
      {p : Piping}
      → is_copying p.pipe.phase ≡ true
      → is_broken p ≡ true
      → Pipes p
      → Pipes (record p { returned = true })
  returns_failed :
      {p : Piping}
      → is_copying p.pipe.phase ≡ true
      → Pipes p
      → Pipes (record p { returned = true; failed = true })
  -- The second goroutine, whose `select` takes either case where both are ready.
  ends_released :
      {p : Piping}
      → p.ending ≡ unended
      → p.released ≡ true
      → Pipes p
      → Pipes (record p { ending = ended_released })
  ends_eof :
      {p : Piping}
      → p.ending ≡ unended
      → p.returned ≡ true
      → Pipes p
      → Pipes (record p { ending = ended_eof })
