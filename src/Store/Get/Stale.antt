-- ===== src/Store/Get/Stale.antt =====
-- What `Get` returns of content that has expired.
use oscdn.Base.{
  ◌≤ℤ◌, if◌then◌else◌, refl, lookup, erase, false, ltb_ℤ, ℕ, arith, ◌∙◌, inl, inr, ◌≡◌, sym, ◌≢◌,
  Bool, true, Option, none, some, Bool-cases, ◌<ℤ◌, Time,
}
use oscdn.Store.Common.{miss, expired, hit, ContentRange, stale}
use oscdn.Store.World.{
  ok, err, panic, Result, World, close_data, is_dir, is_exists, Content, content, invalid_url, Data,
  Error, open_data, request, dynamic_content, size_exceeded,
}
use oscdn.Store.Download.{start_download}
use oscdn.Store.Get.{
  get_urls, data_path, zero_result, fail, Urls, Request, new_data, following, serve_new,
  after_start, serve_updating, after_close, after_open, after_is_dir, after_exists, get_locked,
  get_new, get, with_range, Attempt, Url, Config, succeed, Library, Reader, Returned, with_data,
  on_error,
}

-- What a return says of its time: a hit has not expired, and nothing is returned as stale.
abbrev pub IsTimely : Time → Option Returned → Type 0
IsTimely now none = Unit
IsTimely now (some ret) =
    (ret.result.cache_status ≡ hit → now <ℤ ret.result.expires_at)
    × (ret.result.cache_status ≢ stale)

-- A handle that was opened keeps the mark, and is refused a second time.
open_data-initialized : (w : World) (d : Data) → d.initialized ≡ true → open_data w d ≡ panic
unfolding open_data
open_data-initialized w d h = rw h

on_error-IsTimely :
    (w : World) (d : Data) (exists : Bool) (range : Option ContentRange) (e : Error) (now : Time)
    → exists ≡ d.initialized
    → IsTimely now (on_error w d exists range e)
unfolding on_error with_data
on_error-IsTimely w d exists range request now h = elim (Bool-cases exists) [
  | inl e ↦ rw (e, open_data-initialized w d (sym h ∙ e)) tt
  | inr e ↦ rw e ((λ f. cc), (λ f. cc))
]
on_error-IsTimely w d exists range (dynamic_content resp) now h = ((λ f. cc), (λ f. cc))
on_error-IsTimely w d exists range (size_exceeded size) now h = ((λ f. cc), (λ f. cc))
on_error-IsTimely w d exists range _ now h = ((λ f. cc), (λ f. cc))

with_data-IsTimely :
    (d : Data) (exists : Bool) (r : Reader) (now : Time)
    → IsTimely now (succeed (with_data d (if exists then expired else miss) r))
unfolding with_data
with_data-IsTimely d true r now = ((λ f. cc), (λ f. cc))
with_data-IsTimely d false r now = ((λ f. cc), (λ f. cc))

serve_new-IsTimely :
    (o : Result Data) (exists : Bool) (file : ℕ) (now : Time)
    → IsTimely now (serve_new o exists file)
unfolding serve_new
serve_new-IsTimely panic exists file now = tt
serve_new-IsTimely (err e) exists file now = ((λ f. cc), (λ f. cc))
serve_new-IsTimely (ok d) exists file now = with_data-IsTimely d exists (following file) now

serve_updating-IsTimely :
    (o : Result Data) (file : ℕ) (now : Time) → IsTimely now (serve_updating o file)
unfolding serve_updating with_data
serve_updating-IsTimely panic file now = tt
serve_updating-IsTimely (err e) file now = ((λ f. cc), (λ f. cc))
serve_updating-IsTimely (ok d) file now = ((λ f. cc), (λ f. cc))

open_data-opened : (w : World) (d d' : Data) → open_data w d ≡ ok d' → d'.initialized ≡ true
unfolding open_data
open_data-opened w d d' h = ground arith

after_start-IsTimely :
    (s : Result ℕ) (w : World) (d : Data) (exists : Bool) (range : Option ContentRange) (now : Time)
    → exists ≡ d.initialized
    → IsTimely now (after_start s w d exists range).0
unfolding after_start
after_start-IsTimely panic w d exists range now h = tt
after_start-IsTimely (err e) w d exists range now h = on_error-IsTimely w d exists range e now h
after_start-IsTimely (ok file) w d exists range now h =
    serve_new-IsTimely (open_data w (new_data d.path)) exists file now

module _ (lib : Library) (cfg : Config) (base key : Url) (a : Attempt) (now : Time) where
  get_new-IsTimely :
      (w : World) (d : Data) (exists : Bool) (range : Option ContentRange)
      → exists ≡ d.initialized
      → IsTimely now (get_new lib cfg w base key d exists range a).0
  unfolding get_new
  get_new-IsTimely w d exists range h =
      let (s, w') = start_download lib cfg w base key a in
      after_start-IsTimely s w' d exists range now h

  after_open-IsTimely :
      (o : Result Data) (w : World) (range : Option ContentRange)
      → ((d : Data) → o ≡ ok d → d.initialized ≡ true)
      → IsTimely now (after_open lib cfg o w base key range now a).0
  unfolding after_open after_close close_data with_range with_data
  after_open-IsTimely panic w range h = tt
  after_open-IsTimely (err e) w range h = ((λ f. cc), (λ f. cc))
  after_open-IsTimely (ok d) w range h = elim (Bool-cases (ltb_ℤ now d.info.expires_at)) [
    | inl e ↦ rw e ((λ f. ground arith), (λ f. cc))
    | inr e ↦ simp (e, h d refl) (get_new-IsTimely w d true range (sym (h d refl)))
  ]

  after_exists-IsTimely :
      (there : Option Bool) (download : Option ℕ) (w : World) (d : Data)
      (range : Option ContentRange)
      → d.initialized ≡ false
      → IsTimely now (after_exists lib cfg there download w base key d range now a).0
  unfolding after_exists
  after_exists-IsTimely none download w d range h = ((λ f. cc), (λ f. cc))
  after_exists-IsTimely (some true) (some file) w d range h =
      serve_updating-IsTimely (open_data w d) file now
  after_exists-IsTimely (some true) none w d range h = directory (is_dir w d.path)
    where
      directory :
          (o : Option Bool) → IsTimely now (after_is_dir lib cfg o w base key d range now a).0
      directory none = unfold after_is_dir in ((λ f. cc), (λ f. cc))
      directory (some false) = unfold after_is_dir in ((λ f. cc), (λ f. cc))
      directory (some true) =
          unfold after_is_dir in after_open-IsTimely (open_data w d) w range (open_data-opened w d)
  after_exists-IsTimely (some false) (some file) w d range h =
      get_new-IsTimely (record w { downloads = erase (lib.url_text key) w.downloads }) d false range
        (sym h)
  after_exists-IsTimely (some false) none w d range h = get_new-IsTimely w d false range (sym h)

module _ (lib : Library) (cfg : Config) where
  -- Whatever the store holds and the origin answers, a return whose status is HIT has an expiry time
  -- after the time of the call, and no return has the status STALE.
  pub get-IsTimely :
      (w : World) (req : Request) (a : Attempt) → IsTimely req.now (get lib cfg w req a).0
  unfolding get get_locked
  get-IsTimely w req a = elim (Bool-cases w.released) [
    | inl e ↦ rw e ((λ f. cc), (λ f. cc))
    | inr e ↦ rw e (urls (get_urls lib.parse_url req.raw_url req.host))
  ]
    where
      urls :
          (u : Urls)
          → IsTimely req.now
              (elim u as (λ x. Option Returned × World) [
                | Urls.err e ↦ (fail zero_result invalid_url, w)
                | Urls.ok base key ↦ get_locked lib cfg w base key req.range req.now a
              ]).0
      urls (Urls.err e) = ((λ f. cc), (λ f. cc))
      urls (Urls.ok base key) =
          after_exists-IsTimely lib cfg base key a req.now
            (is_exists w (data_path lib cfg base key)) (lookup (lib.url_text key) w.downloads) w
            (new_data (data_path lib cfg base key)) req.range refl

  -- While the store is not released, a readable content of a valid URL that has expired and has no
  -- download registered is not served when its origin does not answer: the call panics, since the
  -- handle that has looked at the content is opened a second time.
  pub get_expired-panic :
      (w : World) (req : Request) (a : Attempt) (base key : Url) (c : Content)
      → get_urls lib.parse_url req.raw_url req.host ≡ Urls.ok base key
      → w.released ≡ false
      → w.denied (data_path lib cfg base key) ≡ false
      → lookup (data_path lib cfg base key) w.disk ≡ some (content c)
      → lookup (lib.url_text key) w.downloads ≡ none
      → c.info.expires_at ≤ℤ req.now
      → a.response ≡ none
      → get lib cfg w req a ≡ (none, w)
  unfolding get get_locked after_exists after_is_dir after_open after_close get_new after_start
      on_error is_exists is_dir open_data close_data start_download
  get_expired-panic w req a base key c urls running allowed stored settled old silent = ground arith
