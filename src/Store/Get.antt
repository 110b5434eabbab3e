-- ===== src/Store/Get.antt =====
-- store/store.go, `Get` and what `pipeData` gives its caller. A call runs under the lock of its data
-- path, so it is one function of the shared state.
pub mod Fresh
pub mod Hits
pub mod Keeps
pub mod Served
pub mod Stale
use oscdn.Base.{
  ℕ, Bool, true, false, not, Option, none, some, [], if◌then◌else◌, Bytes, lookup, erase, ℤ, pos,
  negsuc, ltb_ℤ, Time,
}
use oscdn.Base.Http.{Header}
use oscdn.Store.Common.{
  ContentRange, CacheStatus, unspecified, hit, miss, expired, updating, stale, dynamic,
}
use oscdn.Store.Range.{clamp_range, read_range}
use oscdn.Store.Urls.{Url, Urls, get_urls}
use oscdn.Store.World.{
  World, Data, new_data, Error, Result, ok, err, panic, open_data, close_data, is_exists, is_dir,
  released, invalid_url, os, not_directory, request, dynamic_content, size_exceeded,
}
use oscdn.Store.Download.{Library, Config, Attempt, data_path, start_download}

-- What a reader gets: nothing, the bytes of a stored content, or those of a download as it goes on.
pub data Reader : Type 0 where
  eof : Reader
  complete : Bytes → Reader
  following : (file : ℕ) → Reader

-- `GetResult`, less `BaseURL` and `KeyURL`, which repeat the request's URLs.
pub record GetResult : Type 0 where
  pub reader : Reader
  pub cache_status : CacheStatus
  pub status_code : ℤ
  pub header : Header
  pub created_at : Time
  pub expires_at : Time
  pub size : ℤ
  pub content_range : Option ContentRange

abbrev pub zero_result : GetResult
zero_result = record {
  reader = eof;
  cache_status = unspecified;
  status_code = pos 0;
  header = [];
  created_at = pos 0;
  expires_at = pos 0;
  size = pos 0;
  content_range = none;
}

-- `return result, err`
pub record Returned : Type 0 where
  pub result : GetResult
  pub error : Option Error

-- The request, with the time at which `Get` looks at the data.
pub record Request : Type 0 where
  pub raw_url : Bytes
  pub host : Bytes
  pub range : Option ContentRange
  pub now : Time

-- `pipeData`: the range is clamped in place, so that the caller's range is the clamped one.
unfoldable pub clamped : Option ContentRange → ℤ → Option ContentRange
clamped none size = none
clamped (some r) size = some (clamp_range r size)

-- The fields that every branch with data sets.
unfoldable pub with_data : Data → CacheStatus → Reader → GetResult
with_data d status reader = record {
  reader = reader;
  cache_status = status;
  status_code = d.info.status_code;
  header = d.header;
  created_at = d.info.created_at;
  expires_at = d.info.expires_at;
  size = d.info.size;
  content_range = none;
}

unfoldable pub with_range : Data → CacheStatus → Option ContentRange → GetResult
with_range d status range =
    let r = clamped range d.info.size in
    record (with_data d status (complete (read_range r d.body))) { content_range = r }

abbrev pub fail : GetResult → Error → Option Returned
fail result e = some (record { result = result; error = some e })

abbrev pub succeed : GetResult → Option Returned
succeed result = some (record { result = result; error = none })

-- The branches on the error of `startDownload`; `d` is the handle that looked at the old data.
unfoldable pub on_error : World → Data → Bool → Option ContentRange → Error → Option Returned
on_error w d exists range request =
    if not exists then fail zero_result request else (elim (open_data w d) [
      | panic ↦ none
      | err e ↦ fail zero_result e
      | ok d' ↦ succeed (with_range d' stale range)
    ])
on_error w d exists range (dynamic_content resp) =
    fail
      (record zero_result {
        cache_status = dynamic;
        status_code = resp.status_code;
        header = resp.header;
        created_at = d.info.created_at;
        expires_at = d.info.expires_at;
        size = negsuc 0;
      })
      (dynamic_content resp)
on_error w d exists range (size_exceeded size) =
    fail (with_data d unspecified eof) (size_exceeded size)
on_error w d exists range e = fail zero_result e

-- The end of `Get`, with the new data opened.
unfoldable pub serve_new : Result Data → Bool → ℕ → Option Returned
serve_new panic exists file = none
serve_new (err e) exists file = fail zero_result e
serve_new (ok d) exists file =
    succeed (with_data d (if exists then expired else miss) (following file))

-- What `startDownload` gave.
unfoldable pub after_start :
    Result ℕ → World → Data → Bool → Option ContentRange → Option Returned × World
after_start panic w d exists range = (none, w)
after_start (err e) w d exists range = (on_error w d exists range e, w)
after_start (ok file) w d exists range = (serve_new (open_data w (new_data d.path)) exists file, w)

-- The branch on a download in progress, with the data opened.
unfoldable pub serve_updating : Result Data → ℕ → Option Returned
serve_updating panic file = none
serve_updating (err e) file = fail zero_result e
serve_updating (ok d) file = succeed (with_data d updating (following file))

module _ (lib : Library) (cfg : Config) where
  -- The request to the origin, and the new data.
  unfoldable pub get_new :
      World → Url → Url → Data → Bool → Option ContentRange → Attempt → Option Returned × World
  get_new w base key d exists range a =
      let (started, w') = start_download lib cfg w base key a in
      after_start started w' d exists range

  -- `data.Close` of what has expired, and on to the request.
  unfoldable pub after_close :
      Result Data → World → Url → Url → Option ContentRange → Attempt → Option Returned × World
  after_close panic w base key range a = (none, w)
  after_close (err e) w base key range a = (fail zero_result e, w)
  after_close (ok d) w base key range a = get_new w base key d true range a

  -- What `data.Open` gave of data that exists: fresh data is served.
  unfoldable pub after_open :
      Result Data
      → World
      → Url
      → Url
      → Option ContentRange
      → Time
      → Attempt
      → Option Returned × World
  after_open panic w base key range now a = (none, w)
  after_open (err e) w base key range now a = (fail zero_result e, w)
  after_open (ok d) w base key range now a =
      if ltb_ℤ now d.info.expires_at
      then (succeed (with_range d hit range), w)
      else after_close (close_data d) w base key range a

  unfoldable pub after_is_dir :
      Option Bool
      → World
      → Url
      → Url
      → Data
      → Option ContentRange
      → Time
      → Attempt
      → Option Returned × World
  after_is_dir none w base key d range now a = (fail zero_result os, w)
  after_is_dir (some false) w base key d range now a = (fail zero_result not_directory, w)
  after_is_dir (some true) w base key d range now a =
      after_open (open_data w d) w base key range now a

  -- What the path and the map of downloads say.
  unfoldable pub after_exists :
      Option Bool
      → Option ℕ
      → World
      → Url
      → Url
      → Data
      → Option ContentRange
      → Time
      → Attempt
      → Option Returned × World
  after_exists none download w base key d range now a = (fail zero_result os, w)
  after_exists (some true) (some file) w base key d range now a =
      (serve_updating (open_data w d) file, w)
  after_exists (some true) none w base key d range now a =
      after_is_dir (is_dir w d.path) w base key d range now a
  after_exists (some false) (some file) w base key d range now a =
      get_new (record w { downloads = erase (lib.url_text key) w.downloads }) base key d false range
        a
  after_exists (some false) none w base key d range now a = get_new w base key d false range a

  -- `Get` under its locks.
  unfoldable pub get_locked :
      World → Url → Url → Option ContentRange → Time → Attempt → Option Returned × World
  get_locked w base key range now a =
      let path = data_path lib cfg base key in
      after_exists (is_exists w path) (lookup (lib.url_text key) w.downloads) w base key
        (new_data path) range now a

  -- `Get`; the outcome `none` is a panic.
  unfoldable pub get : World → Request → Attempt → Option Returned × World
  get w req a =
      if w.released
      then (fail zero_result released, w)
      else (elim (get_urls lib.parse_url req.raw_url req.host) [
        | Urls.err e ↦ (fail zero_result invalid_url, w)
        | Urls.ok base key ↦ get_locked w base key req.range req.now a
      ])
