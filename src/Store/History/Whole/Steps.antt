-- ===== src/Store/History/Whole/Steps.antt =====
-- What the end of a download and the operations that only take away do to the contents that are whole.
use oscdn.Base.{
  if◌then◌else◌, insert, ◌≡◌, refl, ◌∙◌, sym, ap, subst, ◌⊎◌, inl, inr, ◌<◌, ℕ, ◌==◌, Bool, true,
  false, Option, none, some, [], arith, Bool-cases, Bytes, length, lookup, lookup-erase,
  lookup-insert, str_eq, str_eq_iff, str_eq_refl, pos, ◌≤ℤ◌, ℤ,
}
use oscdn.Store.World.{Node, World, Content, content, broken, not_dir, move_to_trash}
use oscdn.Store.Download.{Transfer, limited, is_failed, write_body, finish_download, end_download}
use oscdn.Store.History.Whole.{IsSettled, AllSettled}

-- The end of a download is that of the content with its number, which has no bytes yet, and whose
-- directory can be moved.
pub record IsOwnEnd (w : World) (path key : Bytes) (file : ℕ) (size : ℤ) : Type 0 where
  pub own :
      (p : Bytes) (c : Content)
      → lookup p w.disk ≡ some (content c)
      → c.file ≡ file
      → (p ≡ path) × (c.info.key_url ≡ key) × (c.info.size ≡ size) × (c.body ≡ [])
  pub movable : w.denied path ≡ false

-- What is on the disk behind `write_body`.
write_body-cases :
    (w : World) (path : Bytes) (file : ℕ) (written p : Bytes) (c : Content)
    → lookup p (write_body w path file written).disk ≡ some (content c)
    → ((lookup p w.disk ≡ some (content c)) × ((p ≡ path) → (c.file ≡ file) → ⊥))
      ⊎ ((c0 : Content) × (lookup p w.disk ≡ some (content c0))
          × (p ≡ path)
          × (c0.file ≡ file)
          × (c ≡ record c0 { body = written }))
unfolding write_body
write_body-cases w path file written p c found = at_node (lookup path w.disk) refl found
  where
    at_node :
        (n : Option Node)
        → lookup path w.disk ≡ n
        → lookup p
            (elim n as (λ x. World) [
              | some (content d) ↦
                  if d.file == file
                  then record w {
                    disk = insert path (content (record d { body = written })) w.disk;
                  }
                  else w
              | _ ↦ w
            ]).disk
          ≡ some (content c)
        → ((lookup p w.disk ≡ some (content c)) × ((p ≡ path) → (c.file ≡ file) → ⊥))
          ⊎ ((c0 : Content) × (lookup p w.disk ≡ some (content c0))
              × (p ≡ path)
              × (c0.file ≡ file)
              × (c ≡ record c0 { body = written }))
    at_node none e f = inl (f, λ same own. cc (ap (λ q. lookup q w.disk) same, e, f))
    at_node (some broken) e f = inl (f, λ same own. cc (ap (λ q. lookup q w.disk) same, e, f))
    at_node (some not_dir) e f = inl (f, λ same own. cc (ap (λ q. lookup q w.disk) same, e, f))
    at_node (some (content d)) e f = elim (Bool-cases (d.file == file)) [
      | inr other ↦ inl (ground arith, λ at own. ground (arith, ap (λ q. lookup q w.disk) at))
      | inl mine ↦ elim (Bool-cases (str_eq path p)) [
        | inl same ↦
            let at : path ≡ p = (str_eq_iff path p).0 same in
            inr (
              d,
              ap (λ q. lookup q w.disk) (sym at) ∙ e,
              sym at,
              ground arith,
              ground (arith, lookup-insert path p (content (record d { body = written })) w.disk),
            )
        | inr apart ↦ inl (
          ground (arith, lookup-insert path p (content (record d { body = written })) w.disk),
          λ at own. ground (arith, str_eq_iff path p),
        )
      ]
    ]

-- What is on the disk behind `finish_download`, and the downloads.
finish_download-cases :
    (w : World) (path key : Bytes) (file : ℕ) (failed : Bool) (p : Bytes) (c : Content)
    → lookup p (finish_download w path key file failed).disk ≡ some (content c)
    → lookup p w.disk ≡ some (content c)
unfolding finish_download move_to_trash
finish_download-cases w path key file failed p c found = ground (arith, lookup-erase path p w.disk)

finish_download-gone :
    (w : World) (path key : Bytes) (file : ℕ) (c : Content)
    → w.denied path ≡ false
    → lookup key w.downloads ≡ some file
    → lookup path (finish_download w path key file true).disk ≡ some (content c)
    → ⊥
unfolding finish_download move_to_trash
finish_download-gone w path key file c allowed current found =
    ground (arith, lookup-erase path path w.disk, str_eq_refl path)

finish_download-others :
    (w : World) (path key : Bytes) (file : ℕ) (failed : Bool) (k : Bytes) (f : ℕ)
    → lookup k w.downloads ≡ some f
    → (f ≡ file → ⊥)
    → lookup k (finish_download w path key file failed).downloads ≡ some f
unfolding finish_download move_to_trash
finish_download-others w path key file failed k f found ne =
    ground (arith, lookup-erase key k w.downloads, str_eq_iff key k)

finish_download-next_file :
    (w : World) (path key : Bytes) (file : ℕ) (failed : Bool)
    → (finish_download w path key file failed).next_file ≡ w.next_file
unfolding finish_download move_to_trash
finish_download-next_file w path key file failed = ground arith

write_body-same :
    (w : World) (path : Bytes) (file : ℕ) (written : Bytes)
    → ((write_body w path file written).downloads ≡ w.downloads)
      × ((write_body w path file written).next_file ≡ w.next_file)
      × ((write_body w path file written).denied path ≡ w.denied path)
unfolding write_body
write_body-same w path file written = (ground arith, ground arith, ground arith)

-- The bytes of a download that has not failed are those of the recorded size.
whole_written :
    (copy_fails close_fails : Bool) (size : ℤ) (received : Bytes)
    → is_failed copy_fails close_fails size (length (limited size received)) ≡ false
    → pos 0 ≤ℤ size
    → size ≡ pos (length (limited size received))
unfolding is_failed
whole_written copy_fails close_fails size received ok known = ground arith

nothing_written :
    (size : ℤ) (received : Bytes) → size ≡ pos 0 → size ≡ pos (length (limited size received))
unfolding limited
nothing_written size received e = rw e refl

module _ (place : Bytes → Bytes) (w : World) (path key : Bytes) (file : ℕ) (size : ℤ) (t : Transfer)
    (g : IsOwnEnd w path key file size) (h : AllSettled place w) where
  w'' : World
  w'' =
      finish_download (write_body w path file (limited size t.received)) path key file
        (is_failed t.copy_fails t.close_fails size (length (limited size t.received)))

  numbered_still : (n : ℕ) → n < w.next_file → n < w''.next_file
  unfolding w''
  numbered_still n l = omega (
    arith,
    finish_download-next_file (write_body w path file (limited size t.received)) path key file
        (is_failed t.copy_fails t.close_fails size (length (limited size t.received))),
    (write_body-same w path file (limited size t.received)).1,
  )

  -- A content that the download has not written.
  untouched :
      (p : Bytes) (c : Content)
      → lookup p w.disk ≡ some (content c)
      → ((p ≡ path) → (c.file ≡ file) → ⊥)
      → IsSettled place w'' p c
  unfolding w''
  untouched p c found ne =
      let i = h p c found in
      record {
        placed = i.placed;
        numbered = numbered_still c.file i.numbered;
        whole = elim (i.whole) [
          | inl whole ↦ inl whole
          | inr current ↦ inr (
              finish_download-others (write_body w path file (limited size t.received)) path key
                file (is_failed t.copy_fails t.close_fails size (length (limited size t.received)))
                c.info.key_url c.file
                (ap (lookup c.info.key_url)
                    (write_body-same w path file (limited size t.received)).0
                  ∙ current)
                (λ mine. ne (g.own p c found mine).0 mine))
        ];
      }

  -- The content that it has written.
  touched :
      (c : Content)
      → lookup path w.disk ≡ some (content c)
      → c.file ≡ file
      → lookup path w''.disk ≡ some (content (record c { body = limited size t.received }))
      → IsSettled place w'' path (record c { body = limited size t.received })
  unfolding w''
  touched c found mine there =
      let i = h path c found in
      let (_, own_key, own_size, empty) = g.own path c found mine in
      let same = write_body-same w path file (limited size t.received) in
      record {
        placed = i.placed;
        numbered = numbered_still c.file i.numbered;
        whole = inl (λ known.
            own_size
            ∙ elim (Bool-cases
                (is_failed t.copy_fails t.close_fails size (length (limited size t.received)))) [
                  | inr ok ↦
                      whole_written t.copy_fails t.close_fails size t.received ok
                        (subst (λ n. pos 0 ≤ℤ n) own_size known)
                  | inl bad ↦ elim (i.whole) [
                    | inl whole ↦
                        nothing_written size t.received
                          (sym own_size ∙ whole known ∙ ap (λ b. pos (length b)) empty)
                    | inr current ↦ absurd (
                        finish_download-gone (write_body w path file (limited size t.received)) path
                          key file (record c { body = limited size t.received })
                          (same.2 ∙ g.movable)
                          (ap (lookup key) same.0
                            ∙ subst (λ k. lookup k w.downloads ≡ some c.file) own_key current
                            ∙ ap some mine)
                          (subst
                            (λ b.
                              lookup path
                                (finish_download (write_body w path file (limited size t.received))
                                  path key file b).disk
                              ≡ some (content (record c { body = limited size t.received })))
                            bad there))
                  ]
                ]);
      }

  pub end_download-AllSettled : AllSettled place (end_download w path key file size t)
  unfolding end_download w''
  end_download-AllSettled p c found =
      elim (write_body-cases w path file (limited size t.received) p c (
        finish_download-cases (write_body w path file (limited size t.received)) path key file
          (is_failed t.copy_fails t.close_fails size (length (limited size t.received))) p c
          found)) [
            | inl (before, ne) ↦ untouched p c before ne
            | inr (c0, before, at, mine, same) ↦
                subst (λ q. IsSettled place w'' q c) (sym at)
                  (subst (IsSettled place w'' path) (sym same) (
                    touched c0 (subst (λ q. lookup q w.disk ≡ some (content c0)) at before) mine (
                      subst (λ d. lookup path w''.disk ≡ some (content d)) same
                        (subst (λ q. lookup q w''.disk ≡ some (content c)) at found))))
          ]
