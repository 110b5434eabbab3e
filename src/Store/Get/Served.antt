-- ===== src/Store/Get/Served.antt =====
-- Where what `Get` returns as a hit comes from.
use oscdn.Base.{
  sym, ◌≡◌, refl, ◌≢◌, inl, inr, ap, true, false, none, some, arith, Bool, Option, Bytes, lookup,
  erase, ltb_ℤ, ◌<ℤ◌, Time, Bool-cases, ℕ, if◌then◌else◌,
}
use oscdn.Store.Common.{ContentRange, hit, miss, expired, stale}
use oscdn.Store.Urls.{Url, Urls, get_urls}
use oscdn.Store.World.{
  Node, broken, not_dir, ok, err, panic, Result, World, is_dir, is_exists, Content, content, Data,
  new_data, open_data, Error, request, dynamic_content, size_exceeded, close_data,
}
use oscdn.Store.Download.{Library, Config, Attempt, data_path, start_download}
use oscdn.Store.Get.{
  Returned, Request, fail, succeed, zero_result, with_data, with_range, Reader, following, on_error,
  serve_new, after_start, serve_updating, get_new, after_close, after_open, after_is_dir,
  after_exists, get_locked, get,
}
use oscdn.Store.Get.Fresh.{opened}

-- A return that is not a hit, or a panic.
abbrev IsOther : Option Returned → Type 0
IsOther none = Unit
IsOther (some ret) = ret.result.cache_status ≢ hit

-- A content that is on the disk, has no download registered and has not expired, as `Get` serves it.
pub record IsFound (w : World) (path key_url : Bytes) (range : Option ContentRange) (now : Time)
    (ret : Returned) (c : Content) : Type 0 where
  pub stored : lookup path w.disk ≡ some (content c)
  pub settled : lookup key_url w.downloads ≡ none
  pub fresh : now <ℤ c.info.expires_at
  pub served : ret.result ≡ with_range (opened path c) hit range

-- What a return says of the disk: a hit is a content that is found there.
abbrev pub IsBacked : World → Bytes → Bytes → Option ContentRange → Time → Option Returned → Type 0
IsBacked w path key_url range now none = Unit
IsBacked w path key_url range now (some ret) =
    ret.result.cache_status ≡ hit → (c : Content) × IsFound w path key_url range now ret c

IsOther-IsBacked :
    (w : World) (path key_url : Bytes) (range : Option ContentRange) (now : Time)
    (o : Option Returned)
    → IsOther o
    → IsBacked w path key_url range now o
IsOther-IsBacked w path key_url range now none h = tt
IsOther-IsBacked w path key_url range now (some ret) h = λ e. absurd (h e)

with_data-IsOther :
    (d : Data) (exists : Bool) (r : Reader)
    → IsOther (succeed (with_data d (if exists then expired else miss) r))
unfolding with_data
with_data-IsOther d true r = λ f. cc
with_data-IsOther d false r = λ f. cc

serve_new-IsOther : (o : Result Data) (exists : Bool) (file : ℕ) → IsOther (serve_new o exists file)
unfolding serve_new
serve_new-IsOther panic exists file = tt
serve_new-IsOther (err e) exists file = λ f. cc
serve_new-IsOther (ok d) exists file = with_data-IsOther d exists (following file)

serve_updating-IsOther : (o : Result Data) (file : ℕ) → IsOther (serve_updating o file)
unfolding serve_updating with_data
serve_updating-IsOther panic file = tt
serve_updating-IsOther (err e) file = λ f. cc
serve_updating-IsOther (ok d) file = λ f. cc

on_error-IsOther :
    (w : World) (d : Data) (exists : Bool) (range : Option ContentRange) (e : Error)
    → IsOther (on_error w d exists range e)
unfolding on_error with_data with_range
on_error-IsOther w d true range request = opens (open_data w d)
  where
    opens :
        (o : Result Data)
        → IsOther (elim o as (λ x. Option Returned) [
          | panic ↦ none
          | err e ↦ fail zero_result e
          | ok d' ↦ succeed (with_range d' stale range)
        ])
    opens panic = tt
    opens (err e) = λ f. cc
    opens (ok d') = λ f. cc
on_error-IsOther w d false range request = λ f. cc
on_error-IsOther w d exists range (dynamic_content resp) = λ f. cc
on_error-IsOther w d exists range (size_exceeded size) = λ f. cc
on_error-IsOther w d exists range _ = λ f. cc

after_start-IsOther :
    (s : Result ℕ) (w : World) (d : Data) (exists : Bool) (range : Option ContentRange)
    → IsOther (after_start s w d exists range).0
unfolding after_start
after_start-IsOther panic w d exists range = tt
after_start-IsOther (err e) w d exists range = on_error-IsOther w d exists range e
after_start-IsOther (ok file) w d exists range =
    serve_new-IsOther (open_data w (new_data d.path)) exists file

module _ (lib : Library) (cfg : Config) (base key : Url) (a : Attempt) where
  get_new-IsOther :
      (w : World) (d : Data) (exists : Bool) (range : Option ContentRange)
      → IsOther (get_new lib cfg w base key d exists range a).0
  unfolding get_new
  get_new-IsOther w d exists range =
      let (s, w') = start_download lib cfg w base key a in after_start-IsOther s w' d exists range

  after_close-IsOther :
      (o : Result Data) (w : World) (range : Option ContentRange)
      → IsOther (after_close lib cfg o w base key range a).0
  unfolding after_close
  after_close-IsOther panic w range = tt
  after_close-IsOther (err e) w range = λ f. cc
  after_close-IsOther (ok d) w range = get_new-IsOther w d true range

module _ (lib : Library) (cfg : Config) (base key : Url) (a : Attempt) (path key_url : Bytes)
    (range : Option ContentRange) (now : Time) where
  after_open-IsBacked :
      (o : Result Data) (w : World)
      → ((d : Data)
          → o ≡ ok d
          → (c : Content) × (lookup path w.disk ≡ some (content c)) × (d ≡ opened path c))
      → lookup key_url w.downloads ≡ none
      → IsBacked w path key_url range now (after_open lib cfg o w base key range now a).0
  unfolding after_open
  after_open-IsBacked panic w h settled = tt
  after_open-IsBacked (err e) w h settled = λ f. cc
  after_open-IsBacked (ok d) w h settled = elim (Bool-cases (ltb_ℤ now d.info.expires_at)) [
    | inl e ↦
        let (c, stored, same) = h d refl in
        rw e (λ f. (
          c,
          record {
            stored = stored;
            settled = settled;
            fresh = ground (arith, same);
            served = ap (λ x. with_range x hit range) same;
          },
        ))
    | inr e ↦ rw e (
        IsOther-IsBacked w path key_url range now
          (after_close lib cfg (close_data d) w base key range a).0
          (after_close-IsOther lib cfg base key a (close_data d) w range))
  ]

open_data-opened :
    (w : World) (path : Bytes) (d : Data)
    → open_data w (new_data path) ≡ ok d
    → (c : Content) × (lookup path w.disk ≡ some (content c)) × (d ≡ opened path c)
unfolding open_data
open_data-opened w path d h = reads (lookup path w.disk) refl
  where
    reads :
        (o : Option Node)
        → lookup path w.disk ≡ o
        → (c : Content) × (lookup path w.disk ≡ some (content c)) × (d ≡ opened path c)
    reads none e = ground (arith, h, e)
    reads (some (content c)) e = (c, e, ground (arith, h, e))
    reads (some broken) e = ground (arith, h, e)
    reads (some not_dir) e = ground (arith, h, e)

module _ (lib : Library) (cfg : Config) (base key : Url) (a : Attempt) where
  after_exists-IsBacked :
      (there : Option Bool) (download : Option ℕ) (w : World) (path key_url : Bytes)
      (range : Option ContentRange) (now : Time)
      → download ≡ lookup key_url w.downloads
      → IsBacked w path key_url range now
          (after_exists lib cfg there download w base key (new_data path) range now a).0
  unfolding after_exists
  after_exists-IsBacked none download w path key_url range now h = λ f. cc
  after_exists-IsBacked (some true) (some file) w path key_url range now h =
      IsOther-IsBacked w path key_url range now (serve_updating (open_data w (new_data path)) file)
        (serve_updating-IsOther (open_data w (new_data path)) file)
  after_exists-IsBacked (some true) none w path key_url range now h = directory (is_dir w path)
    where
      directory :
          (o : Option Bool)
          → IsBacked w path key_url range now
              (after_is_dir lib cfg o w base key (new_data path) range now a).0
      directory none = unfold after_is_dir in (λ f. cc)
      directory (some false) = unfold after_is_dir in (λ f. cc)
      directory (some true) =
          unfold after_is_dir in
          after_open-IsBacked lib cfg base key a path key_url range now
            (open_data w (new_data path)) w (open_data-opened w path) (sym h)
  after_exists-IsBacked (some false) (some file) w path key_url range now h =
      let w' = record w { downloads = erase (lib.url_text key) w.downloads } in
      IsOther-IsBacked w path key_url range now
        (get_new lib cfg w' base key (new_data path) false range a).0
        (get_new-IsOther lib cfg base key a w' (new_data path) false range)
  after_exists-IsBacked (some false) none w path key_url range now h =
      IsOther-IsBacked w path key_url range now
        (get_new lib cfg w base key (new_data path) false range a).0
        (get_new-IsOther lib cfg base key a w (new_data path) false range)

-- Whatever the store holds and the origin answers, a hit is a content that stands at the path of the
-- request, that has no download registered under the key and that has not expired.
pub get-IsBacked :
    (lib : Library) (cfg : Config) (w : World) (req : Request) (a : Attempt) (base key : Url)
    → get_urls lib.parse_url req.raw_url req.host ≡ Urls.ok base key
    → IsBacked w
        (data_path lib cfg base key)
        (lib.url_text key)
        req.range
        req.now
        (get lib cfg w req a).0
unfolding get get_locked
get-IsBacked lib cfg w req a base key urls = elim (Bool-cases w.released) [
  | inl e ↦ simp e (λ f. cc)
  | inr e ↦
      simp (e, urls)
        (after_exists-IsBacked lib cfg base key a (is_exists w (data_path lib cfg base key))
          (lookup (lib.url_text key) w.downloads) w (data_path lib cfg base key) (lib.url_text key)
          req.range req.now refl)
]
