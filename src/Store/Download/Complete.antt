-- ===== src/Store/Download/Complete.antt =====
-- A download that ends well leaves its content fresh, with the bytes that the origin sent.
use oscdn.Base.{
  ==_iff, length-take, pos_part, ℕ, ◌≡◌, refl, true, false, none, some, ◌∷◌, arith, Bytes,
  str_eq_refl, lookup, insert, erase, lookup-insert, lookup-erase, length, ℤ, pos, ◌≤ℤ◌, ◌<ℤ◌, Time,
}
use oscdn.Store.World.{move_to_trash, Node, Content, content, World}
use oscdn.Store.Urls.{Url}
use oscdn.Store.Common.{Response}
use oscdn.Store.Download.Running.{IsRunning, kept}
use oscdn.Store.Download.{
  Library, Config, Attempt, limited, is_failed, finish_download, write_body, Transfer, end_download,
}
use oscdn.Store.Urls.{Urls}
use oscdn.Store.Get.Fresh.{IsFresh}

-- A transfer in which nothing fails.
abbrev pub whole : Bytes → Transfer
whole received = record { received = received; copy_fails = false; close_fails = false }

limited-length :
    (size : ℤ) (received : Bytes)
    → pos 0 ≤ℤ size
    → size ≤ℤ pos (length received)
    → pos (length (limited size received)) ≡ size
unfolding limited
limited-length size received known enough = ground (arith, length-take (pos_part size) received)

-- A copy that received enough has the recorded size.
is_failed-limited :
    (size : ℤ) (received : Bytes)
    → pos 0 ≤ℤ size
    → size ≤ℤ pos (length received)
    → is_failed false false size (length (limited size received)) ≡ false
unfolding is_failed limited
is_failed-limited size received known enough = ground (arith, length-take (pos_part size) received)

is_failed-short :
    (size : ℤ) (received : Bytes)
    → pos (length received) <ℤ size
    → is_failed false false size (length (limited size received)) ≡ true
unfolding is_failed limited
is_failed-short size received short = ground (arith, length-take (pos_part size) received)

finish_download-failed :
    (w : World) (path key_url : Bytes) (file : ℕ) (n : Node)
    → lookup key_url w.downloads ≡ some file
    → w.denied path ≡ false
    → lookup path w.disk ≡ some n
    → finish_download w path key_url file true ≡ record w {
      disk = erase path w.disk;
      trash = n ∷ w.trash;
      downloads = erase key_url w.downloads;
    }
unfolding finish_download move_to_trash
finish_download-failed w path key_url file n registered allowed stored =
    rw (registered, (==_iff file file).1 refl) (ground arith)

module _ (w : World) (path key_url : Bytes) (file : ℕ) (c : Content)
    (run : IsRunning w path key_url file c) where
  write_body-stored :
      (written : Bytes)
      → write_body w path file written
        ≡ record w { disk = insert path (content (record c { body = written })) w.disk }
  unfolding write_body
  write_body-stored written = ground (arith, run.stored, run.own)

  -- Where nothing has come between, the end of a download whose copy and close do not fail, and that
  -- has received at least its recorded size, leaves a content that is served until it expires: its
  -- body is the first bytes that the origin sent, as many as the recorded size.
  pub end_download-IsFresh :
      (received : Bytes) (now : Time)
      → w.released ≡ false
      → w.denied path ≡ false
      → pos 0 ≤ℤ c.info.size
      → c.info.size ≤ℤ pos (length received)
      → now <ℤ c.info.expires_at
      → IsFresh
          (end_download w path key_url file c.info.size (whole received))
          path
          key_url
          (record c { body = limited c.info.size received })
          now
        × (pos (length (limited c.info.size received)) ≡ c.info.size)
  unfolding end_download finish_download
  end_download-IsFresh received now running allowed known enough lasting = (
    rw
        (
          write_body-stored (limited c.info.size received),
          is_failed-limited c.info.size received known enough,
          run.registered,
        )
        (record {
          open_store = ground arith;
          allowed = ground arith;
          stored = ground (
            arith,
            lookup-insert path path (content (record c { body = limited c.info.size received }))
                w.disk,
            str_eq_refl path,
          );
          settled = ground (arith, lookup-erase key_url key_url w.downloads, str_eq_refl key_url);
          fresh = lasting;
        }),
    limited-length c.info.size received known enough,
  )

  -- A download that has failed leaves nothing at its path and is in the map no more.
  pub end_download-failed :
      (t : Transfer)
      → w.denied path ≡ false
      → is_failed t.copy_fails t.close_fails c.info.size (length (limited c.info.size t.received))
        ≡ true
      → let w' = end_download w path key_url file c.info.size t in
        (lookup path w'.disk ≡ none) × (lookup key_url w'.downloads ≡ none)
  unfolding end_download
  end_download-failed t allowed bad =
      let new = content (record c { body = limited c.info.size t.received }) in
      let w' = record w { disk = insert path new w.disk } in
      let there : lookup path (insert path new w.disk) ≡ some new =
        ground (arith, lookup-insert path path new w.disk, str_eq_refl path) in
      rw
        (
          write_body-stored (limited c.info.size t.received),
          bad,
          finish_download-failed w' path key_url file new run.registered allowed there,
        )
        (
          ground (arith, lookup-erase path path (insert path new w.disk), str_eq_refl path),
          ground (arith, lookup-erase key_url key_url w.downloads, str_eq_refl key_url),
        )

  -- Where nothing has come between and the system lets the directory be moved, a download whose
  -- copy and close do not fail but that receives less than its recorded size leaves nothing at its
  -- path and is in the map no more.
  pub end_download-short :
      (received : Bytes)
      → w.denied path ≡ false
      → pos (length received) <ℤ c.info.size
      → let w' = end_download w path key_url file c.info.size (whole received) in
        (lookup path w'.disk ≡ none) × (lookup key_url w'.downloads ≡ none)
  end_download-short received allowed short =
      end_download-failed (whole received) allowed (is_failed-short c.info.size received short)

module _ (lib : Library) (cfg : Config) where
  abbrev kept_at : Url → Url → Attempt → Response → ℕ → Time → Bytes → Content
  kept_at base key a resp file e b = kept (lib.url_text base) (lib.url_text key) resp a.now e file b
