-- ===== src/Store/Download/Keeps.antt =====
-- What holds behind `startDownload`: what holds before it, where it keeps what is at the path or takes
-- it away, and what holds of the new data there.
use oscdn.Base.{
  ℕ, ◌≡◌, refl, Bool, true, false, ◌&&◌, Option, none, some, arith, if◌then◌else◌, Bool-cases, inl,
  inr, Bytes, lookup, lookup-erase, str_eq_refl, pos, ltb_ℤ, Time,
}
use oscdn.Base.Http.{Header}
use oscdn.Store.Common.{HostConfig, Response}
use oscdn.Store.Expires.{content_expires, is_dynamic}
use oscdn.Store.Urls.{Url}
use oscdn.Store.World.{
  Info, request, World, Result, ok, err, panic, os, dynamic_content, move_to_trash, Moved, moved,
  nothing, failed,
}
use oscdn.Store.Download.{
  Library, Config, Attempt, host_config_of, info_of, create_data, data_path, admit, start_download,
}

nothing_there :
    (w : World) (path : Bytes) → move_to_trash w path ≡ nothing → lookup path w.disk ≡ none
unfolding move_to_trash
nothing_there w path e = ground arith

moved_away :
    (w w' : World) (path : Bytes) → move_to_trash w path ≡ moved w' → lookup path w'.disk ≡ none
unfolding move_to_trash
moved_away w w' path e = ground (arith, lookup-erase path path w.disk, str_eq_refl path)

module _ (lib : Library) (cfg : Config) (base key : Url) (a : Attempt) (P : World → Type 0)
    (taken : (w w' : World) → move_to_trash w (data_path lib cfg base key) ≡ moved w' → P w → P w')
    (made : (w : World) (info : Info) (header : Header)
      → lookup (data_path lib cfg base key) w.disk ≡ none
      → info.key_url ≡ lib.url_text key
      → P w
      → P (create_data w (data_path lib cfg base key) (lib.url_text key) info header)) where
  admit-kept :
      (w : World) (resp : Response)
      → lookup (data_path lib cfg base key) w.disk ≡ none
      → P w
      → P (admit lib cfg w base key a resp).1
  unfolding admit info_of
  admit-kept w resp gone h =
      elim (Bool-cases (ltb_ℤ (pos 0) hc.max_size && ltb_ℤ hc.max_size resp.content_length)) [
        | inl e ↦ simp e h
        | inr e ↦ simp e (timed (content_expires lib.parse_time cfg.min_content_age hc resp a.now))
      ]
    where
      hc : HostConfig
      hc = host_config_of cfg base.scheme base.host

      admitted : Time → World
      admitted expires =
          create_data w (data_path lib cfg base key) (lib.url_text key)
            (info_of (lib.url_text base) (lib.url_text key) resp a.now expires) resp.header

      choose :
          (expires : Time) (dyn bad : Bool)
          → P
              (if dyn
                then (err (dynamic_content resp), w)
                else if bad
                then (err os, w)
                else let r : Result ℕ × World = (ok w.next_file, admitted expires) in r).1
      choose expires true bad = h
      choose expires false true = h
      choose expires false false =
          made w (info_of (lib.url_text base) (lib.url_text key) resp a.now expires) resp.header
            gone refl h

      timed :
          (t : Option Time)
          → P
              (elim t as (λ x. Result ℕ × World) [
                | none ↦ (panic, w)
                | some expires ↦
                    if is_dynamic resp expires a.now
                    then (err (dynamic_content resp), w)
                    else if a.create_fails
                    then (err os, w)
                    else (ok w.next_file, admitted expires)
              ]).1
      timed none = h
      timed (some expires) = choose expires (is_dynamic resp expires a.now) a.create_fails

  pub start_download-kept : (w : World) → P w → P (start_download lib cfg w base key a).1
  unfolding start_download
  start_download-kept w h = answered a.response
    where
      cleared :
          (resp : Response) (m : Moved)
          → move_to_trash w (data_path lib cfg base key) ≡ m
          → P
              (elim m as (λ x. Result ℕ × World) [
                | failed ↦ (err os, w)
                | nothing ↦ admit lib cfg w base key a resp
                | moved w' ↦ admit lib cfg w' base key a resp
              ]).1
      cleared resp failed e = h
      cleared resp nothing e = admit-kept w resp (nothing_there w (data_path lib cfg base key) e) h
      cleared resp (moved w') e =
          admit-kept w' resp (moved_away w w' (data_path lib cfg base key) e) (taken w w' e h)

      answered :
          (o : Option Response)
          → P
              (elim o as (λ x. Result ℕ × World) [
                | none ↦ (err request, w)
                | some resp ↦ elim (move_to_trash w (data_path lib cfg base key)) [
                  | failed ↦ (err os, w)
                  | nothing ↦ admit lib cfg w base key a resp
                  | moved w' ↦ admit lib cfg w' base key a resp
                ]
              ]).1
      answered none = h
      answered (some resp) = cleared resp (move_to_trash w (data_path lib cfg base key)) refl
