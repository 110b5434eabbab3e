-- ===== src/Store/History/Turns.antt =====
-- What a request to the origin may make of the entry at the path of its URL, and the end of a
-- download of the entry at its path.
use oscdn.Base.{
  ◌==◌, ◌≡◌, ◌⊎◌, refl, sym, subst, inl, inr, Bool, true, false, none, some, Option, [], arith,
  Option-cases, Bool-cases, Bytes, ℕ, lookup, lookup-erase, lookup-insert, str_eq_refl, ◌&&◌, ltb_ℤ,
  pos, Time, ◌<ℤ◌,
}
use oscdn.Store.Common.{Response, ContentRange}
use oscdn.Store.Expires.{content_expires, is_dynamic}
use oscdn.Store.Urls.{Url}
use oscdn.Store.World.{
  Result, err, os, request, World, Node, Content, content, broken, not_dir, Moved, moved, nothing,
  failed, move_to_trash, is_exists, is_dir, open_data,
}
use oscdn.Store.Download.{
  Library, Config, Attempt, data_path, admit, create_data, start_download, finish_download,
  write_body, host_config_of, info_of,
}
use oscdn.Store.Download.Running.{kept}
use oscdn.Store.Get.{get_locked, after_exists, after_is_dir, after_open}

-- An answer that is kept: it is not too long, and not dynamic with the expiry time that it is given.
pub record IsTaken (lib : Library) (cfg : Config) (base : Url) (a : Attempt) (resp : Response)
    (expires : Time) : Type 0 where
  pub answered : a.response ≡ some resp
  pub fits :
      let hc = host_config_of cfg base.scheme base.host in
      (ltb_ℤ (pos 0) hc.max_size && ltb_ℤ hc.max_size resp.content_length) ≡ false
  pub lasts :
      content_expires lib.parse_time cfg.min_content_age
        (host_config_of cfg base.scheme base.host)
        resp
        a.now
      ≡ some expires
  pub static : is_dynamic resp expires a.now ≡ false

-- An entry behind a request to the origin: as it was, gone, or the new content with an empty body.
pub data Made (lib : Library) (cfg : Config) (base key : Url) (a : Attempt) (old : Option Node)
    : Option Node → Type 0 where
  unchanged : Made lib cfg base key a old old
  gone : (resp : Response) → a.response ≡ some resp → Made lib cfg base key a old none
  made :
      (resp : Response) (expires : Time) (file : ℕ)
      → IsTaken lib cfg base a resp expires
      → Made lib cfg base key a old
          (some (content (kept (lib.url_text base) (lib.url_text key) resp a.now expires file [])))

module _ (lib : Library) (cfg : Config) (base key : Url) (a : Attempt) (old : Option Node) where
  abbrev IsMade : World → Type 0
  IsMade w = Made lib cfg base key a old (lookup (data_path lib cfg base key) w.disk)

  admit-IsMade :
      (w : World) (resp : Response)
      → a.response ≡ some resp
      → IsMade w
      → IsMade (admit lib cfg w base key a resp).1
  unfolding admit
  admit-IsMade w resp answered h =
      let hc = host_config_of cfg base.scheme base.host in
      elim (Bool-cases (ltb_ℤ (pos 0) hc.max_size && ltb_ℤ hc.max_size resp.content_length)) [
        | inl big ↦ simp big h
        | inr fits ↦
            elim (Option-cases (content_expires lib.parse_time cfg.min_content_age hc resp a.now)) [
              | inl none_lasts ↦ simp (fits, none_lasts) h
              | inr (expires, lasts) ↦ elim (Bool-cases (is_dynamic resp expires a.now)) [
                | inl dynamic ↦ simp (fits, lasts, dynamic) h
                | inr static ↦ elim (Bool-cases a.create_fails) [
                  | inl fails ↦ simp (fits, lasts, static, fails) h
                  | inr creates ↦
                      simp (fits, lasts, static, creates)
                        (subst (Made lib cfg base key a old) (sym (created w resp expires)) (
                          made resp expires w.next_file (record {
                            answered = answered;
                            fits = fits;
                            lasts = lasts;
                            static = static;
                          })))
                ]
              ]
            ]
      ]
    where
      created :
          (w : World) (resp : Response) (expires : Time)
          → lookup
              (data_path lib cfg base key)
              (create_data w
                (data_path lib cfg base key)
                (lib.url_text key)
                (info_of (lib.url_text base) (lib.url_text key) resp a.now expires)
                resp.header).disk
            ≡ some (
                content
                  (kept (lib.url_text base) (lib.url_text key) resp a.now expires w.next_file []))
      created w resp expires =
          unfold create_data info_of in
          (ground (
            arith,
            lookup-insert (data_path lib cfg base key) (data_path lib cfg base key)
                (content
                  (kept (lib.url_text base) (lib.url_text key) resp a.now expires w.next_file []))
                w.disk,
            str_eq_refl (data_path lib cfg base key),
          ))

  moved_away :
      (w w' : World)
      → move_to_trash w (data_path lib cfg base key) ≡ moved w'
      → lookup (data_path lib cfg base key) w'.disk ≡ none
  unfolding move_to_trash
  moved_away w w' e = ground (
    arith,
    lookup-erase (data_path lib cfg base key) (data_path lib cfg base key) w.disk,
    str_eq_refl (data_path lib cfg base key),
  )

  -- The rest of `startDownload`, behind the move to the trash.
  abbrev behind_move : World → Response → Moved → Result ℕ × World
  behind_move w resp m = elim m [
    | failed ↦ (err os, w)
    | nothing ↦ admit lib cfg w base key a resp
    | moved w' ↦ admit lib cfg w' base key a resp
  ]

  behind_move-IsMade :
      (w : World) (resp : Response) (m : Moved)
      → a.response ≡ some resp
      → move_to_trash w (data_path lib cfg base key) ≡ m
      → IsMade w
      → IsMade (behind_move w resp m).1
  behind_move-IsMade w resp failed answer e h = h
  behind_move-IsMade w resp nothing answer e h = admit-IsMade w resp answer h
  behind_move-IsMade w resp (moved w') answer e h =
      admit-IsMade w' resp answer
        (subst (Made lib cfg base key a old) (sym (moved_away w w' e)) (gone resp answer))

  pub start_download-IsMade :
      (w : World) → IsMade w → IsMade (start_download lib cfg w base key a).1
  unfolding start_download
  start_download-IsMade w h = asked (a.response) refl
    where
      asked :
          (o : Option Response)
          → a.response ≡ o
          → IsMade
              (elim o as (λ x. Result ℕ × World) [
                | none ↦ (err request, w)
                | some resp ↦ behind_move w resp (move_to_trash w (data_path lib cfg base key))
              ]).1
      asked none e = h
      asked (some resp) e =
          behind_move-IsMade w resp (move_to_trash w (data_path lib cfg base key)) e refl h

-- A fresh content is left alone by `Get`.
pub get_locked-kept_fresh :
    (lib : Library) (cfg : Config) (w : World) (base key : Url) (range : Option ContentRange)
    (now : Time) (a : Attempt) (c : Content)
    → lookup (data_path lib cfg base key) w.disk ≡ some (content c)
    → now <ℤ c.info.expires_at
    → (get_locked lib cfg w base key range now a).1 ≡ w
unfolding get_locked after_exists after_is_dir after_open is_exists is_dir open_data
get_locked-kept_fresh lib cfg w base key range now a c stored fresh =
    elim (Bool-cases (w.denied (data_path lib cfg base key))) [
      | inl denied ↦ simp denied refl
      | inr allowed ↦ elim (Option-cases (lookup (lib.url_text key) w.downloads)) [
        | inl settled ↦ ground (arith, stored, allowed, settled, fresh)
        | inr (file, running) ↦ simp (allowed, stored, running) refl
      ]
    ]

-- The end of a download leaves what it has written, or a failed one takes the entry away.
pub finish_download-ends :
    (w : World) (path key_url : Bytes) (file : ℕ) (has_failed : Bool)
    → (lookup path (finish_download w path key_url file has_failed).disk ≡ lookup path w.disk)
      ⊎ ((has_failed ≡ true)
          × (lookup path (finish_download w path key_url file has_failed).disk ≡ none))
unfolding finish_download move_to_trash
finish_download-ends w path key_url file has_failed =
    ground (arith, lookup-erase path path w.disk, str_eq_refl path)

-- It writes to its own files only.
pub write_body-writes :
    (w : World) (path : Bytes) (file : ℕ) (written : Bytes)
    → (lookup path (write_body w path file written).disk ≡ lookup path w.disk)
      ⊎ ((c : Content) × (lookup path w.disk ≡ some (content c))
          × (c.file ≡ file)
          × (lookup path (write_body w path file written).disk
              ≡ some (content (record c { body = written }))))
unfolding write_body
write_body-writes w path file written = elim (Option-cases (lookup path w.disk)) [
  | inl e ↦ inl (ground arith)
  | inr (content c, e) ↦ elim (Bool-cases (c.file == file)) [
    | inl own ↦ inr (
      c,
      e,
      ground (arith, own),
      ground (
        arith,
        own,
        e,
        lookup-insert path path (content (record c { body = written })) w.disk,
        str_eq_refl path,
      ),
    )
    | inr other ↦ inl (ground (arith, other, e))
  ]
  | inr (broken, e) ↦ inl (ground arith)
  | inr (not_dir, e) ↦ inl (ground arith)
]
