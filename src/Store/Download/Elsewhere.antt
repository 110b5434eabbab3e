-- ===== src/Store/Download/Elsewhere.antt =====
-- What a download leaves alone: all that is at other paths.
use oscdn.Base.{
  inl, inr, Bool, sym, subst, refl, some, [], ℕ, Option-cases, lookup-erase, lookup-insert, str_eq,
  ◌≡◌, false, arith, Bytes, lookup,
}
use oscdn.Store.Download.{
  Library, Config, Attempt, data_path, start_download, host_config_of, info_of, admit,
  finish_download, write_body, create_data,
}
use oscdn.Store.World.{
  Info, Moved, failed, nothing, moved, move_to_trash, broken, not_dir, content, World,
}
use oscdn.Base.Http.{Header}
use oscdn.Store.Expires.{content_expires}
use oscdn.Store.Urls.{Url}
use oscdn.Store.Common.{Response}

pub write_body-elsewhere :
    (w : World) (path : Bytes) (file : ℕ) (written p : Bytes)
    → str_eq path p ≡ false
    → lookup p (write_body w path file written).disk ≡ lookup p w.disk
unfolding write_body
write_body-elsewhere w path file written p other = elim (Option-cases (lookup path w.disk)) [
  | inl e ↦ ground arith
  | inr (content c, e) ↦
      ground (arith, lookup-insert path p (content (record c { body = written })) w.disk)
  | inr (broken, e) ↦ ground arith
  | inr (not_dir, e) ↦ ground arith
]

move_to_trash-elsewhere :
    (w w' : World) (path p : Bytes)
    → str_eq path p ≡ false
    → move_to_trash w path ≡ moved w'
    → lookup p w'.disk ≡ lookup p w.disk
unfolding move_to_trash
move_to_trash-elsewhere w w' path p other h = ground (arith, lookup-erase path p w.disk)

pub finish_download-elsewhere :
    (w : World) (path key_url : Bytes) (file : ℕ) (has_failed : Bool) (p : Bytes)
    → str_eq path p ≡ false
    → lookup p (finish_download w path key_url file has_failed).disk ≡ lookup p w.disk
unfolding finish_download move_to_trash
finish_download-elsewhere w path key_url file has_failed p other =
    ground (arith, lookup-erase path p w.disk)

create_data-elsewhere :
    (w : World) (path key_url : Bytes) (info : Info) (header : Header) (p : Bytes)
    → str_eq path p ≡ false
    → lookup p (create_data w path key_url info header).disk ≡ lookup p w.disk
unfolding create_data
create_data-elsewhere w path key_url info header p other = ground (
  arith,
  lookup-insert path p
      (content (record { info = info; header = header; body = []; file = w.next_file })) w.disk,
)

module _ (lib : Library) (cfg : Config) where
  admit-elsewhere :
      (w : World) (base key : Url) (a : Attempt) (resp : Response) (p : Bytes)
      → str_eq (data_path lib cfg base key) p ≡ false
      → lookup p (admit lib cfg w base key a resp).1.disk ≡ lookup p w.disk
  unfolding admit
  admit-elsewhere w base key a resp p other =
      let hc = host_config_of cfg base.scheme base.host in
      elim (Option-cases (content_expires lib.parse_time cfg.min_content_age hc resp a.now)) [
        | inl e ↦ ground arith
        | inr (expires, e) ↦ ground (
          arith,
          create_data-elsewhere w (data_path lib cfg base key) (lib.url_text key)
              (info_of (lib.url_text base) (lib.url_text key) resp a.now expires) resp.header p
              other,
        )
      ]

  after_move-elsewhere :
      (w : World) (m : Moved) (base key : Url) (a : Attempt) (resp : Response) (p : Bytes)
      → str_eq (data_path lib cfg base key) p ≡ false
      → move_to_trash w (data_path lib cfg base key) ≡ m
      → lookup p (start_download lib cfg w base key (record a { response = some resp })).1.disk
        ≡ lookup p w.disk
  unfolding start_download
  after_move-elsewhere w failed base key a resp p other e = ground arith
  after_move-elsewhere w nothing base key a resp p other e =
      ground (arith, admit-elsewhere w base key (record a { response = some resp }) resp p other)
  after_move-elsewhere w (moved w') base key a resp p other e = ground (
    arith,
    admit-elsewhere w' base key (record a { response = some resp }) resp p other,
    move_to_trash-elsewhere w w' (data_path lib cfg base key) p other e,
  )

  pub start_download-elsewhere :
      (w : World) (base key : Url) (a : Attempt) (p : Bytes)
      → str_eq (data_path lib cfg base key) p ≡ false
      → lookup p (start_download lib cfg w base key a).1.disk ≡ lookup p w.disk
  unfolding start_download
  start_download-elsewhere w base key a p other = elim (Option-cases a.response) [
    | inl e ↦ ground arith
    | inr (resp, e) ↦
        subst
          (λ x.
            lookup p (start_download lib cfg w base key (record a { response = x })).1.disk
            ≡ lookup p w.disk)
          (sym e)
          (after_move-elsewhere w (move_to_trash w (data_path lib cfg base key)) base key a resp p
            other refl)
  ]
