-- ===== src/Store/Download/Running.antt =====
-- What `startDownload` leaves behind when it succeeds.
use oscdn.Base.Http.{Header}
use oscdn.Store.Expires.{content_expires}
use oscdn.Base.{
  inl, inr, sym, subst, Option-cases, [], ℕ, ◌≡◌, refl, some, arith, Bytes, str_eq_refl, lookup,
  lookup-insert, Time,
}
use oscdn.Store.World.{
  moved, failed, nothing, Moved, Result, err, os, move_to_trash, Info, ok, Content, content, World,
}
use oscdn.Store.Urls.{Url}
use oscdn.Store.Common.{Response}
use oscdn.Store.Download.{
  start_download, Library, Config, Attempt, data_path, create_data, info_of, admit, host_config_of,
}

-- A download that nothing has come between is in the map, with its own files at its path.
pub record IsRunning (w : World) (path key_url : Bytes) (file : ℕ) (c : Content) : Type 0 where
  pub registered : lookup key_url w.downloads ≡ some file
  pub stored : lookup path w.disk ≡ some (content c)
  pub own : c.file ≡ file

-- The content that stands for an answer of the origin, with what of its body has been written.
abbrev pub kept : Bytes → Bytes → Response → Time → Time → ℕ → Bytes → Content
kept base_url key_url resp now expires file body = record {
  info = record {
    base_url = base_url;
    key_url = key_url;
    status_code = resp.status_code;
    size = resp.content_length;
    created_at = now;
    expires_at = expires;
  };
  header = resp.header;
  body = body;
  file = file;
}

create_data-IsRunning :
    (w : World) (path key_url : Bytes) (info : Info) (header : Header)
    → IsRunning
        (create_data w path key_url info header)
        path
        key_url
        w.next_file
        (record { info = info; header = header; body = []; file = w.next_file })
unfolding create_data
create_data-IsRunning w path key_url info header =
    let c : Content = record { info = info; header = header; body = []; file = w.next_file } in
    record {
      registered =
          ground
            (arith, lookup-insert key_url key_url w.next_file w.downloads, str_eq_refl key_url);
      stored = ground (arith, lookup-insert path path (content c) w.disk, str_eq_refl path);
      own = refl;
    }

module _ (lib : Library) (cfg : Config) (base key : Url) (a : Attempt) where
  admit-ok :
      (w w' : World) (resp : Response) (file : ℕ) (expires : Time)
      → content_expires lib.parse_time cfg.min_content_age
          (host_config_of cfg base.scheme base.host)
          resp
          a.now
        ≡ some expires
      → admit lib cfg w base key a resp ≡ (ok file, w')
      → (file ≡ w.next_file)
        × (create_data w
              (data_path lib cfg base key)
              (lib.url_text key)
              (info_of (lib.url_text base) (lib.url_text key) resp a.now expires)
              resp.header
            ≡ w')
  unfolding admit
  admit-ok w w' resp file expires e h = (ground arith, ground arith)

  -- Its data is that of the answer, with the expiry time that `content_expires` gives.
  abbrev IsBegun : World → Response → ℕ → Type 0
  IsBegun w' resp file =
      (expires : Time) × (content_expires lib.parse_time cfg.min_content_age
          (host_config_of cfg base.scheme base.host) resp a.now
        ≡ some expires)
      × IsRunning w' (data_path lib cfg base key) (lib.url_text key) file
          (kept (lib.url_text base) (lib.url_text key) resp a.now expires file [])

  -- A download that has been admitted runs.
  admit-IsRunning :
      (w w' : World) (resp : Response) (file : ℕ)
      → admit lib cfg w base key a resp ≡ (ok file, w')
      → IsBegun w' resp file
  admit-IsRunning w w' resp file h =
      elim (Option-cases (
        content_expires lib.parse_time cfg.min_content_age
          (host_config_of cfg base.scheme base.host) resp a.now)) [
            | inl e ↦ unfold admit in ground arith
            | inr (expires, e) ↦
                let info = info_of (lib.url_text base) (lib.url_text key) resp a.now expires in
                let (is_file, is_world) = admit-ok w w' resp file expires e h in
                (
                  expires,
                  e,
                  subst
                      (λ v.
                        IsRunning v (data_path lib cfg base key) (lib.url_text key) file
                          (kept (lib.url_text base) (lib.url_text key) resp a.now expires file []))
                      is_world
                      (subst
                        (λ n.
                          IsRunning
                            (create_data w (data_path lib cfg base key) (lib.url_text key) info
                              resp.header)
                            (data_path lib cfg base key) (lib.url_text key) n
                            (kept (lib.url_text base) (lib.url_text key) resp a.now expires n []))
                        (sym is_file)
                        (unfold info_of in
                          create_data-IsRunning w (data_path lib cfg base key) (lib.url_text key)
                            info resp.header)),
                )
          ]

  -- So does one that `startDownload` has started.
  pub start_download-IsRunning :
      (w w' : World) (resp : Response) (file : ℕ)
      → a.response ≡ some resp
      → start_download lib cfg w base key a ≡ (ok file, w')
      → IsBegun w' resp file
  unfolding start_download admit
  start_download-IsRunning w w' resp file e h =
      cleared (move_to_trash w (data_path lib cfg base key)) (rw e at h)
    where
      cleared :
          (m : Moved)
          → elim m as (λ x. Result ℕ × World) [
            | failed ↦ (err os, w)
            | nothing ↦ admit lib cfg w base key a resp
            | moved v ↦ admit lib cfg v base key a resp
          ]
            ≡ (ok file, w')
          → IsBegun w' resp file
      cleared failed g = cc
      cleared nothing g = admit-IsRunning w w' resp file g
      cleared (moved v) g = admit-IsRunning v w' resp file g
