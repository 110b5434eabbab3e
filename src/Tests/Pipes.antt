-- ===== src/Tests/Pipes.antt =====
-- The pipe to a reader: one that gets all of a download, and one that is cut by a release.
use oscdn.Base.{◌≡◌, refl, true, false, inl, codes}
use oscdn.Store.Follow.{
  reads, ends, sees_closed, Pipe, waiting, last_copy, done, read_some, end_copy, is_copying,
}
use oscdn.Store.Follow.Ends.{
  Piping, Pipes, piping_of, starts, writes, closes, releases, moves, returns_done, returns_released,
  ends_eof, ended_eof, is_broken,
}
use oscdn.Store.Follow.Ends.Clean.{is_calm, Pipes-whole}

abbrev begun : Piping
begun = piping_of (codes "he")

abbrev at_phase : Pipe → Piping
at_phase p = record begun { pipe = p }

-- Behind the first copy.
waits :
    Pipes
      (at_phase (record { body = codes "he"; closed = false; sent = codes "he"; phase = waiting }))
unfolding read_some end_copy is_copying is_broken
waits =
    moves refl (inl refl) (ends (read_some 8 begun.pipe) refl refl)
      (moves refl (inl refl) (reads 8 begun.pipe refl) (starts (codes "he")))

abbrev whole : Piping
whole = record begun {
  pipe = record { body = codes "hello"; closed = true; sent = codes "hello"; phase = done };
  returned = true;
  ending = ended_eof;
}

whole-Pipes : Pipes whole
unfolding read_some end_copy is_copying is_broken
whole-Pipes =
    let rest : Pipe = record {
      body = codes "hello";
      closed = true;
      sent = codes "he";
      phase = waiting;
    } in
    let over = closes (writes (codes "llo") refl waits) in
    let copied =
      moves refl (inl refl) (reads 8 (record rest { phase = last_copy }) refl)
        (moves refl (inl refl) (sees_closed rest refl refl) over) in
    ends_eof refl refl (
      returns_done refl (
        moves refl (inl refl)
          (ends (record rest { phase = last_copy; sent = codes "hello" }) refl refl) copied))

Pipes-whole_example : (whole.pipe.closed ≡ true) × (whole.pipe.sent ≡ whole.pipe.body)
unfolding is_calm
Pipes-whole_example = Pipes-whole whole whole-Pipes refl refl

-- The reader of a release in the middle of a download can find the plain end of the pipe.
cut : Pipes (record begun {
  pipe = record { body = codes "hello"; closed = false; sent = codes "he"; phase = waiting };
  released = true;
  returned = true;
  ending = ended_eof;
})
cut = ends_eof refl refl (returns_released refl refl (writes (codes "llo") refl (releases waits)))
