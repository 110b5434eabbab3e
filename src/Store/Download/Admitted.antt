-- ===== src/Store/Download/Admitted.antt =====
-- What is known of every content that `startDownload` puts on the disk.
use oscdn.Base.{
  ℤ, ℕ, ◌≡◌, refl, sym, subst, ◌⊎◌, inl, inr, Bool, true, false, ◌&&◌, Option, none, some, [],
  arith, if◌then◌else◌, Bool-cases, Bytes, str_eq, str_eq_iff, lookup, lookup-insert, lookup-erase,
  pos, ◌≤ℤ◌, ◌<ℤ◌, ltb_ℤ, Time,
}
use oscdn.Store.Common.{HostConfig, Response}
use oscdn.Store.Expires.{content_expires, is_dynamic}
use oscdn.Store.Expires.Bounds.{is_dynamic-eq-false_iff}
use oscdn.Store.Urls.{Url, get_data_path}
use oscdn.Store.World.{
  request, Content, Node, content, World, Result, ok, err, panic, os, dynamic_content,
  move_to_trash, Moved, moved, nothing, failed,
}
use oscdn.Base.{◌==◌, insert, length}
use oscdn.Store.World.{broken, not_dir}
use oscdn.Store.Download.{
  write_body, end_download, Transfer, limited, is_failed, Library, Config, Attempt, host_config_of,
  info_of, create_data, data_path, admit, start_download, finish_download,
}

-- A content that may be kept: a 200 of known size or a 404, that did not expire when it was made, in
-- the directory that belongs to its own key.
pub record IsAdmitted (lib : Library) (cfg : Config) (path : Bytes) (c : Content) : Type 0 where
  pub kept :
      ((c.info.status_code ≡ pos 200) × (pos 0 ≤ℤ c.info.size)) ⊎ (c.info.status_code ≡ pos 404)
  pub lasting : c.info.created_at <ℤ c.info.expires_at
  pub keyed :
      (host : Bytes) × (path ≡ get_data_path lib.sha256 cfg.content_path host c.info.key_url)

abbrev pub AllAdmitted : Library → Config → World → Type 0
AllAdmitted lib cfg w =
    (path : Bytes) (c : Content) → lookup path w.disk ≡ some (content c) → IsAdmitted lib cfg path c

module _ (lib : Library) (cfg : Config) where
  pub move_to_trash-AllAdmitted :
      (w w' : World) (path : Bytes)
      → AllAdmitted lib cfg w
      → move_to_trash w path ≡ moved w'
      → AllAdmitted lib cfg w'
  unfolding move_to_trash
  move_to_trash-AllAdmitted w w' path h e path' c found =
      h path' c (ground (arith, lookup-erase path path' w.disk))

  create_data-AllAdmitted :
      (w : World) (base key : Url) (resp : Response) (now expires : Time)
      → AllAdmitted lib cfg w
      → is_dynamic resp expires now ≡ false
      → AllAdmitted lib cfg (
          create_data w
            (data_path lib cfg base key)
            (lib.url_text key)
            (info_of (lib.url_text base) (lib.url_text key) resp now expires)
            resp.header)
  unfolding create_data data_path info_of
  create_data-AllAdmitted w base key resp now expires h e path' c found =
      elim (Bool-cases (str_eq path path')) [
        | inl same ↦ subst (IsAdmitted lib cfg path') (new_content same) (record {
          kept = ((is_dynamic-eq-false_iff resp expires now).0 e).0;
          lasting = ((is_dynamic-eq-false_iff resp expires now).0 e).1;
          keyed = (base.host, sym ((str_eq_iff path path').0 same));
        })
        | inr other ↦ h path' c (ground (arith, lookup-insert path path' new w.disk))
      ]
    where
      path : Bytes
      path = get_data_path lib.sha256 cfg.content_path base.host (lib.url_text key)

      made : Content
      made = record {
        info = info_of (lib.url_text base) (lib.url_text key) resp now expires;
        header = resp.header;
        body = [];
        file = w.next_file;
      }

      new : Node
      new = content made

      new_content : str_eq path path' ≡ true → made ≡ c
      new_content same = ground (arith, lookup-insert path path' new w.disk)

  admit-AllAdmitted :
      (w : World) (base key : Url) (a : Attempt) (resp : Response)
      → AllAdmitted lib cfg w
      → AllAdmitted lib cfg (admit lib cfg w base key a resp).1
  unfolding admit
  admit-AllAdmitted w base key a resp h =
      elim (Bool-cases (ltb_ℤ (pos 0) hc.max_size && ltb_ℤ hc.max_size resp.content_length)) [
        | inl e ↦ simp e h
        | inr e ↦ simp e (timed (content_expires lib.parse_time cfg.min_content_age hc resp a.now))
      ]
    where
      hc : HostConfig
      hc = host_config_of cfg base.scheme base.host

      admitted : Time → World
      admitted expires =
          create_data w (data_path lib cfg base key) (lib.url_text key)
            (info_of (lib.url_text base) (lib.url_text key) resp a.now expires) resp.header

      choose :
          (expires : Time) (dyn bad : Bool)
          → is_dynamic resp expires a.now ≡ dyn
          → AllAdmitted lib cfg
              (if dyn
                then (err (dynamic_content resp), w)
                else if bad
                then (err os, w)
                else let r : Result ℕ × World = (ok w.next_file, admitted expires) in r).1
      choose expires true bad e = h
      choose expires false true e = h
      choose expires false false e = create_data-AllAdmitted w base key resp a.now expires h e

      timed :
          (t : Option Time)
          → AllAdmitted lib cfg
              (elim t as (λ x. Result ℕ × World) [
                | none ↦ (panic, w)
                | some expires ↦
                    if is_dynamic resp expires a.now
                    then (err (dynamic_content resp), w)
                    else if a.create_fails
                    then (err os, w)
                    else (ok w.next_file, admitted expires)
              ]).1
      timed none = h
      timed (some expires) = choose expires (is_dynamic resp expires a.now) a.create_fails refl

  pub start_download-AllAdmitted :
      (w : World) (base key : Url) (a : Attempt)
      → AllAdmitted lib cfg w
      → AllAdmitted lib cfg (start_download lib cfg w base key a).1
  unfolding start_download
  start_download-AllAdmitted w base key a h = answered a.response
    where
      cleared :
          (resp : Response) (m : Moved)
          → move_to_trash w (data_path lib cfg base key) ≡ m
          → AllAdmitted lib cfg
              (elim m as (λ x. Result ℕ × World) [
                | failed ↦ (err os, w)
                | nothing ↦ admit lib cfg w base key a resp
                | moved w' ↦ admit lib cfg w' base key a resp
              ]).1
      cleared resp failed e = h
      cleared resp nothing e = admit-AllAdmitted w base key a resp h
      cleared resp (moved w') e =
          admit-AllAdmitted w' base key a resp
            (move_to_trash-AllAdmitted w w' (data_path lib cfg base key) h e)

      answered :
          (o : Option Response)
          → AllAdmitted lib cfg
              (elim o as (λ x. Result ℕ × World) [
                | none ↦ (err request, w)
                | some resp ↦ elim (move_to_trash w (data_path lib cfg base key)) [
                  | failed ↦ (err os, w)
                  | nothing ↦ admit lib cfg w base key a resp
                  | moved w' ↦ admit lib cfg w' base key a resp
                ]
              ]).1
      answered none = h
      answered (some resp) = cleared resp (move_to_trash w (data_path lib cfg base key)) refl

  pub finish_download-AllAdmitted :
      (w : World) (path key_url : Bytes) (file : ℕ) (has_failed : Bool)
      → AllAdmitted lib cfg w
      → AllAdmitted lib cfg (finish_download w path key_url file has_failed)
  unfolding finish_download move_to_trash
  finish_download-AllAdmitted w path key_url file has_failed h path' c found =
      h path' c (ground (arith, lookup-erase path path' w.disk))

  -- The new body of a content that may be kept.
  insert-AllAdmitted :
      (w : World) (path : Bytes) (c : Content) (written : Bytes)
      → AllAdmitted lib cfg w
      → lookup path w.disk ≡ some (content c)
      → AllAdmitted lib cfg
          (record w { disk = insert path (content (record c { body = written })) w.disk })
  insert-AllAdmitted w path c written h e path' c' found = elim (Bool-cases (str_eq path path')) [
    | inr other ↦
        h path' c'
          (ground (arith, lookup-insert path path' (content (record c { body = written })) w.disk))
    | inl same ↦
        let old = h path c e in
        let is_new : record c { body = written } ≡ c' =
          ground (arith, lookup-insert path path' (content (record c { body = written })) w.disk) in
        subst (λ p. IsAdmitted lib cfg p c') ((str_eq_iff path path').0 same)
          (subst (IsAdmitted lib cfg path) is_new
            (record { kept = old.kept; lasting = old.lasting; keyed = old.keyed }))
  ]

  write_body-AllAdmitted :
      (w : World) (path : Bytes) (file : ℕ) (written : Bytes)
      → AllAdmitted lib cfg w
      → AllAdmitted lib cfg (write_body w path file written)
  unfolding write_body
  write_body-AllAdmitted w path file written h = at_node (lookup path w.disk) refl
    where
      at_node :
          (o : Option Node)
          → lookup path w.disk ≡ o
          → AllAdmitted lib cfg (elim o as (λ x. World) [
            | some (content c) ↦
                if c.file == file
                then record w { disk = insert path (content (record c { body = written })) w.disk }
                else w
            | _ ↦ w
          ])
      at_node none e = h
      at_node (some broken) e = h
      at_node (some not_dir) e = h
      at_node (some (content c)) e = elim (Bool-cases (c.file == file)) [
        | inr other ↦ simp other h
        | inl same ↦ simp same (insert-AllAdmitted w path c written h e)
      ]

  pub end_download-AllAdmitted :
      (w : World) (path key_url : Bytes) (file : ℕ) (size : ℤ) (t : Transfer)
      → AllAdmitted lib cfg w
      → AllAdmitted lib cfg (end_download w path key_url file size t)
  unfolding end_download
  end_download-AllAdmitted w path key_url file size t h =
      finish_download-AllAdmitted (write_body w path file (limited size t.received)) path key_url
        file (is_failed t.copy_fails t.close_fails size (length (limited size t.received)))
        (write_body-AllAdmitted w path file (limited size t.received) h)
