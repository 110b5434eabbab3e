-- ===== src/Store/History.antt =====
-- Any sequence of the store's operations. Those on one data path exclude one another by its lock, so
-- a history is a list of events.
pub mod Isolated
pub mod Released
pub mod Whole
pub mod Turns
pub mod Cache
pub mod Refines
use oscdn.Base.{
  true, ℤ, ℕ, ◌≡◌, refl, inl, inr, Option, some, List, [], ◌∷◌, arith, Bool-cases, Bytes, lookup,
  lookup-erase,
}
use oscdn.Store.Get.Keeps.{get_locked-kept}
use oscdn.Store.Urls.{Urls, get_urls}
use oscdn.Store.World.{World, invalid_url, content, move_to_trash}
use oscdn.Store.Download.{Library, Config, Attempt, data_path, end_download, Transfer}
use oscdn.Store.Download.Admitted.{
  AllAdmitted, start_download-AllAdmitted, end_download-AllAdmitted,
}
use oscdn.Store.Get.{Request, Returned, get_locked, get, fail, zero_result}
use oscdn.Store.Purge.{purge}
use oscdn.Store.Purge.Shrinks.{Shrinks-AllAdmitted}
use oscdn.Store.Purge.Host.{HostReply, purge_host}
use oscdn.Store.Purge.Host.Forget.{purge_host-Shrinks}
use oscdn.Store.Purge.All.{Entry, purge_all}
use oscdn.Store.Purge.All.Forget.{purge_all-Shrinks}
use oscdn.Fileutil.{Call}
use oscdn.Store.Cleaner.{Moment, clean}
use oscdn.Store.Cleaner.Keeps.{clean-Shrinks}

-- A call of `Get` with what the environment answers, a call of `Purge`, `PurgeHost` or `PurgeAll`,
-- the end of a download, a walk of the content cleaner, or the cancelling in `Release`, behind which
-- the store's context is done.
pub data Event : Type 0 where
  got : Request → Attempt → Event
  purged : (raw_url host : Bytes) → Event
  purged_host : (host : Bytes) → HostReply → Event
  purged_all : Option (List Entry) → Event
  cleaned : List (Call Moment) → Event
  stopped : Event
  finished : (path key_url : Bytes) → (file : ℕ) → (size : ℤ) → Transfer → Event

module _ (lib : Library) (cfg : Config) where
  unfoldable pub step : World → Event → World
  step w (got req a) = (get lib cfg w req a).1
  step w (purged raw_url host) = (purge lib cfg w raw_url host).1
  step w (purged_host host reply) = (purge_host cfg w host reply).1
  step w (purged_all listing) = (purge_all cfg w listing).1
  step w (cleaned calls) = (clean cfg.content_path w calls).1
  step w stopped = record w { released = true }
  step w (finished path key_url file size t) = end_download w path key_url file size t

  unfoldable pub run : World → List Event → World
  run w [] = w
  run w (e ∷ es) = run (step w e) es

  pub get-AllAdmitted :
      (w : World) (req : Request) (a : Attempt)
      → AllAdmitted lib cfg w
      → AllAdmitted lib cfg (get lib cfg w req a).1
  unfolding get
  get-AllAdmitted w req a h = elim (Bool-cases w.released) [
    | inl e ↦ simp e h
    | inr e ↦ simp e (urls (get_urls lib.parse_url req.raw_url req.host))
  ]
    where
      urls :
          (u : Urls)
          → AllAdmitted lib cfg
              (elim u as (λ x. Option Returned × World) [
                | Urls.err e ↦ (fail zero_result invalid_url, w)
                | Urls.ok base key ↦ get_locked lib cfg w base key req.range req.now a
              ]).1
      urls (Urls.err e) = h
      urls (Urls.ok base key) =
          get_locked-kept lib cfg base key a req.range (AllAdmitted lib cfg) (λ w ds h. h)
            (λ w h. start_download-AllAdmitted lib cfg w base key a h) w req.now h

  purge-AllAdmitted :
      (w : World) (raw_url host : Bytes)
      → AllAdmitted lib cfg w
      → AllAdmitted lib cfg (purge lib cfg w raw_url host).1
  unfolding purge move_to_trash
  purge-AllAdmitted w raw_url host h path' c found =
      h path' c (kept (get_urls lib.parse_url raw_url host) refl)
    where
      kept :
          (u : Urls)
          → get_urls lib.parse_url raw_url host ≡ u
          → lookup path' w.disk ≡ some (content c)
      kept (Urls.err e) eq = ground arith
      kept (Urls.ok base key) eq =
          ground (arith, lookup-erase (data_path lib cfg base key) path' w.disk)

  pub step-AllAdmitted :
      (w : World) (e : Event) → AllAdmitted lib cfg w → AllAdmitted lib cfg (step w e)
  unfolding step
  step-AllAdmitted w (got req a) h = get-AllAdmitted w req a h
  step-AllAdmitted w (purged raw_url host) h = purge-AllAdmitted w raw_url host h
  step-AllAdmitted w (purged_host host reply) h =
      Shrinks-AllAdmitted lib cfg w (purge_host cfg w host reply).1
        (purge_host-Shrinks cfg w host reply) h
  step-AllAdmitted w (purged_all listing) h =
      Shrinks-AllAdmitted lib cfg w (purge_all cfg w listing).1 (purge_all-Shrinks cfg w listing) h
  step-AllAdmitted w (cleaned calls) h =
      Shrinks-AllAdmitted lib cfg w (clean cfg.content_path w calls).1
        (clean-Shrinks cfg.content_path w calls) h
  step-AllAdmitted w stopped h = h
  step-AllAdmitted w (finished path key_url file size t) h =
      end_download-AllAdmitted lib cfg w path key_url file size t h

  -- Through any sequence of calls of Get, Purge, PurgeHost, PurgeAll and Release, ends of downloads
  -- and walks of the content cleaner, whatever the origins and the file system answer, from a disk whose
  -- contents may all be kept, every content on the disk is one that may be kept: a 200 of known size
  -- or a 404, with an expiry after its creation, in the directory of its own key.
  pub run-AllAdmitted :
      (w : World) (es : List Event) → AllAdmitted lib cfg w → AllAdmitted lib cfg (run w es)
  unfolding run
  run-AllAdmitted w [] h = h
  run-AllAdmitted w (e ∷ es) h = run-AllAdmitted (step w e) es (step-AllAdmitted w e h)
