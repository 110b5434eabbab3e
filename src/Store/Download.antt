-- ===== src/Store/Download.antt =====
-- store/store.go, `startDownload` and its goroutine. What the environment answers during
-- one call is an `Attempt`; the functions of the standard library that are not modelled are the
-- fields of a `Library`.
pub mod Admitted
pub mod Elsewhere
pub mod Keeps
pub mod Running
pub mod Complete
pub mod Rate
use oscdn.Base.{
  length, ℕ, ◌+◌, Bool, false, not, ◌&&◌, ◌||◌, Option, none, some, [], ◌==◌, if◌then◌else◌, take,
  Bytes, lookup, insert, erase, ℤ, pos, pos_part, ltb_ℤ, leb_ℤ, Duration, Time,
}
use oscdn.Base.Http.{Header}
use oscdn.Store.Common.{HostConfig, zero_host_config, Response}
use oscdn.Store.Expires.{content_expires, is_dynamic}
use oscdn.Store.Urls.{Url, get_data_path}
use oscdn.Store.World.{
  Info, content, World, Result, ok, err, panic, os, request, dynamic_content, size_exceeded,
  move_to_trash, moved, nothing, failed,
}

pub record Library : Type 0 where
  pub parse_url : Bytes → Option Url
  pub url_text : Url → Bytes
  pub sha256 : Bytes → Bytes
  pub parse_time : Bytes → Option Time

-- The fields of the store's `Config` that these operations read, with `contentPath`.
pub record Config : Type 0 where
  pub content_path : Bytes
  pub min_content_age : Duration
  pub default_host_config : Option HostConfig
  pub get_host_config : Option (Bytes → Bytes → Option HostConfig)

-- The answer of the origin, if there is one, the time then, and whether `Data.Create` fails; one that
-- fails is taken to remove what it has made, which the code tries without a look at the error.
pub record Attempt : Type 0 where
  pub response : Option Response
  pub now : Time
  pub create_fails : Bool

-- The configuration for an origin: its own, or the default, or the zero value.
unfoldable pub host_config_of : Config → Bytes → Bytes → HostConfig
host_config_of cfg scheme host =
    let default : HostConfig = elim (cfg.default_host_config) [
      | none ↦ zero_host_config
      | some c ↦ c
    ] in
    elim (cfg.get_host_config) [
      | none ↦ default
      | some f ↦ elim (f scheme host) [ none ↦ default | some c ↦ c ]
    ]

unfoldable pub info_of : Bytes → Bytes → Response → Time → Time → Info
info_of base_url key_url resp now expires = record {
  base_url = base_url;
  key_url = key_url;
  status_code = resp.status_code;
  size = resp.content_length;
  created_at = now;
  expires_at = expires;
}

-- `Data.Create` and the registration of the download; the channel is the number of the new files.
unfoldable pub create_data : World → Bytes → Bytes → Info → Header → World
create_data w path key_url info header = record w {
  disk =
      insert path (content (record { info = info; header = header; body = []; file = w.next_file }))
        w.disk;
  downloads = insert key_url w.next_file w.downloads;
  next_file = w.next_file + 1;
}

module _ (lib : Library) (cfg : Config) where
  unfoldable pub data_path : Url → Url → Bytes
  data_path base key = get_data_path lib.sha256 cfg.content_path base.host (lib.url_text key)

  -- From the tests of the response on, once the old data has been moved away.
  unfoldable pub admit : World → Url → Url → Attempt → Response → Result ℕ × World
  admit w base key a resp =
      let hc = host_config_of cfg base.scheme base.host in
      if ltb_ℤ (pos 0) hc.max_size && ltb_ℤ hc.max_size resp.content_length
      then (err (size_exceeded resp.content_length), w)
      else (elim (content_expires lib.parse_time cfg.min_content_age hc resp a.now) [
        | none ↦ (panic, w)
        | some expires ↦
            if is_dynamic resp expires a.now
            then (err (dynamic_content resp), w)
            else if a.create_fails
            then (err os, w)
            else (
              ok w.next_file,
              create_data w (data_path base key) (lib.url_text key)
                  (info_of (lib.url_text base) (lib.url_text key) resp a.now expires) resp.header,
            )
      ])

  -- `startDownload`: the number of the download, and the state behind it.
  unfoldable pub start_download : World → Url → Url → Attempt → Result ℕ × World
  start_download w base key a = elim (a.response) [
    | none ↦ (err request, w)
    | some resp ↦ elim (move_to_trash w (data_path base key)) [
      | failed ↦ (err os, w)
      | nothing ↦ admit w base key a resp
      | moved w' ↦ admit w' base key a resp
    ]
  ]

-- The bytes that the goroutine takes from the response: `io.LimitReader` stops at the size, and
-- takes nothing if the size is negative.
unfoldable pub limited : ℤ → Bytes → Bytes
limited size body = take (pos_part size) body

-- Whether the goroutine has an error to clean up after, from the bytes that it has written.
unfoldable pub is_failed : (copy_fails close_fails : Bool) → ℤ → ℕ → Bool
is_failed copy_fails close_fails size written =
    copy_fails
    || close_fails
    || (leb_ℤ (pos 0) size && not (leb_ℤ (pos written) size && leb_ℤ size (pos written)))

-- The end of the goroutine, under the locks: the download leaves the map if it is still the current
-- one, and a failed one that is current takes its data to the trash.
unfoldable pub finish_download : World → Bytes → Bytes → ℕ → Bool → World
finish_download w path key_url file has_failed =
    let is_current : Bool = elim (lookup key_url w.downloads) [
      | none ↦ false
      | some f ↦ f == file
    ] in
    let w' : World = if is_current then record w { downloads = erase key_url w.downloads } else w in
    if has_failed && is_current
    then (elim (move_to_trash w' path) [ failed ↦ w' | nothing ↦ w' | moved w'' ↦ w'' ])
    else w'

-- What the goroutine writes to the body file: that of its own creation of the directory, which may
-- stand at the path no more.
unfoldable pub write_body : World → Bytes → ℕ → Bytes → World
write_body w path file written = elim (lookup path w.disk) [
  | some (content c) ↦
      if c.file == file
      then record w { disk = insert path (content (record c { body = written })) w.disk }
      else w
  | _ ↦ w
]

-- What a transfer comes to: the bytes that the origin sent, and whether the copy or the close fails.
pub record Transfer : Type 0 where
  pub received : Bytes
  pub copy_fails : Bool
  pub close_fails : Bool

-- The goroutine of a download of this size, from the copy on.
unfoldable pub end_download : World → Bytes → Bytes → ℕ → ℤ → Transfer → World
end_download w path key_url file size t =
    let written = limited size t.received in
    finish_download (write_body w path file written) path key_url file
      (is_failed t.copy_fails t.close_fails size (length written))
