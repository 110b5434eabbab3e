-- ===== src/Store/Follow.antt =====
-- store/store.go, the loop of `pipeData` that follows a download in progress: copies of the body
-- file, as far as it has been written, until the download is over. The goroutine of the download
-- writes between any two reads. The returns at an error and at the release of the store, and the end
-- of the pipe, are in Ends.
pub mod Whole
pub mod Ends
use oscdn.Base.{ℕ, ◌≡◌, Bool, true, false, List, [], ◌++◌, leb, length, take, drop, Bytes}

-- Where the loop stands: in the copy at its head, in the `select`, in the copy behind the end of the
-- download, or behind its return.
pub data Phase : Type 0 where
  copying waiting last_copy done : Phase

-- The body file, whether the channel of the download has been closed, and what has gone into the
-- pipe, which is as much as has been read from the file.
pub record Pipe : Type 0 where
  pub body : Bytes
  pub closed : Bool
  pub sent : Bytes
  pub phase : Phase

unfoldable pub is_copying : Phase → Bool
is_copying copying = true
is_copying waiting = false
is_copying last_copy = true
is_copying done = false

-- One read of `io.Copy`, of at most so many bytes.
unfoldable pub read_some : ℕ → Pipe → Pipe
read_some k p = record p { sent = p.sent ++ take k (drop (length p.sent) p.body) }

-- What follows when a read has found the end of the file.
unfoldable pub end_copy : Phase → Phase
end_copy copying = waiting
end_copy waiting = waiting
end_copy last_copy = done
end_copy done = done

-- The moves of the loop: a read, the end of a copy, another round, and the one behind the end of the
-- download.
pub data Move : Pipe → Pipe → Type 0 where
  reads : (k : ℕ) (p : Pipe) → is_copying p.phase ≡ true → Move p (read_some k p)
  ends :
      (p : Pipe)
      → is_copying p.phase ≡ true
      → leb (length p.body) (length p.sent) ≡ true
      → Move p (record p { phase = end_copy p.phase })
  polls : (p : Pipe) → p.phase ≡ waiting → Move p (record p { phase = copying })
  sees_closed :
      (p : Pipe) → p.phase ≡ waiting → p.closed ≡ true → Move p (record p { phase = last_copy })

pub data Moves : Pipe → Pipe → Type 0 where
  stop : (p : Pipe) → Moves p p
  go : {p q r : Pipe} → Move p q → Moves q r → Moves p r

-- The states that the loop can reach beside the download.
pub data Follows : Pipe → Type 0 where
  starts :
      (body : Bytes) → Follows (record { body = body; closed = false; sent = []; phase = copying })
  writes :
      (chunk : Bytes) {p : Pipe}
      → p.closed ≡ false
      → Follows p
      → Follows (record p { body = p.body ++ chunk })
  closes : {p : Pipe} → Follows p → Follows (record p { closed = true })
  moves : {p q : Pipe} → Move p q → Follows p → Follows q
