-- ===== src/Store/Get/Fresh.antt =====
-- What `Get` serves from the disk.
use oscdn.Base.{◌≡◌, true, false, none, some, arith, Bytes, lookup, ◌<ℤ◌, Time}
use oscdn.Store.Common.{hit}
use oscdn.Store.Urls.{Url, Urls, get_urls}
use oscdn.Store.World.{ok, World, is_dir, is_exists, Content, content, Data, new_data, open_data}
use oscdn.Store.Download.{Library, Config, Attempt, data_path}
use oscdn.Store.Get.{
  after_open, after_is_dir, after_exists, get_locked, get, Request, with_range, succeed,
}

-- A fresh content at a path, which the operating system lets the store read, and no download of it.
pub record IsFresh (w : World) (path key_url : Bytes) (c : Content) (now : Time) : Type 0 where
  pub open_store : w.released ≡ false
  pub allowed : w.denied path ≡ false
  pub stored : lookup path w.disk ≡ some (content c)
  pub settled : lookup key_url w.downloads ≡ none
  pub fresh : now <ℤ c.info.expires_at

-- The handle on a content after `Open`.
abbrev pub opened : Bytes → Content → Data
opened path c = record {
  path = path;
  info = c.info;
  header = c.header;
  body = c.body;
  initialized = true;
}

open_data-content :
    (w : World) (path : Bytes) (c : Content)
    → w.denied path ≡ false
    → lookup path w.disk ≡ some (content c)
    → open_data w (new_data path) ≡ ok (opened path c)
unfolding open_data
open_data-content w path c allowed stored = rw (allowed, stored)

module _ (lib : Library) (cfg : Config) where
  -- While the store is not released, a content of a valid URL that has not expired, that the system
  -- lets the store read and that no download is registered for, is served as a hit, with the
  -- clamped range, whatever the origin would answer and without a change of the store.
  pub get-fresh :
      (w : World) (req : Request) (a : Attempt) (base key : Url) (c : Content)
      → get_urls lib.parse_url req.raw_url req.host ≡ Urls.ok base key
      → IsFresh w (data_path lib cfg base key) (lib.url_text key) c req.now
      → get lib cfg w req a
        ≡ (succeed (with_range (opened (data_path lib cfg base key) c) hit req.range), w)
  unfolding get get_locked after_exists after_is_dir after_open is_exists is_dir
  get-fresh w req a base key c urls f = ground (
    arith,
    f.open_store,
    f.allowed,
    f.stored,
    f.settled,
    f.fresh,
    open_data-content w (data_path lib cfg base key) c f.allowed f.stored,
  )
