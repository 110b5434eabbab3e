-- ===== src/Store/History/Whole/Lives.antt =====
-- The contents of a store over its life.
use oscdn.Base.{
  lookup-erase, Bool, ◌≡◌, refl, ◌∙◌, ap, inl, inr, Bool-cases, Option, none, some, List, [], ◌∷◌,
  arith, All-of, Bytes, length, lookup, pos, ◌≤ℤ◌, ◌≢◌,
}
use oscdn.Fileutil.{Call}
use oscdn.Fileutil.Laws.{walk_dir-keeps}
use oscdn.Store.Urls.{Url, Urls, get_urls}
use oscdn.Store.World.{
  Error, World, Content, content, is_exists, is_dir, open_data, move_to_trash, invalid_url,
}
use oscdn.Store.Download.{Library, Config, Attempt, data_path}
use oscdn.Store.Download.Keeps.{start_download-kept}
use oscdn.Store.Get.{Request, Returned, get, get_locked, fail, zero_result}
use oscdn.Store.Get.Keeps.{get_locked-kept}
use oscdn.Store.Purge.{purge}
use oscdn.Store.Purge.Shrinks.{Shrinks}
use oscdn.Store.Purge.Host.{HostReply, purge_host, move_dir}
use oscdn.Store.Purge.Host.Forget.{purge_host-Shrinks}
use oscdn.Store.Purge.All.{Entry, purge_each, purge_all}
use oscdn.Store.Purge.All.Forget.{purge_all-Shrinks}
use oscdn.Store.Cleaner.{Moment, clean, clean_visit, clean_data, clean_opened}
use oscdn.Store.Cleaner.Keeps.{clean-Shrinks}
use oscdn.Store.History.{
  Event, got, purged, purged_host, purged_all, cleaned, stopped, finished, step,
}
use oscdn.Store.History.Whole.{
  AllSettled, move_to_trash-AllSettled, forgotten-AllSettled, create_data-AllSettled,
}
use oscdn.Store.History.Whole.Steps.{IsOwnEnd, end_download-AllSettled}

-- The downloads and their numbers stay.
abbrev Steady : World → World → Type 0
Steady w w' = (w'.downloads ≡ w.downloads) × (w'.next_file ≡ w.next_file)

Shrinks-AllSettled :
    (place : Bytes → Bytes) (w w' : World)
    → Shrinks w w'
    → Steady w w'
    → AllSettled place w
    → AllSettled place w'
Shrinks-AllSettled place w w' s (same, again) h p c found =
    let i = h p c (s p (content c) found) in
    record {
      placed = i.placed;
      numbered = omega (arith, i.numbered, again);
      whole = ground (arith, i.whole, ap (lookup c.info.key_url) same);
    }

purge_host-Steady :
    (cfg : Config) (w : World) (host : Bytes) (reply : HostReply)
    → Steady w (purge_host cfg w host reply).1
unfolding purge_host move_dir
purge_host-Steady cfg w host reply = (ground arith, ground arith)

purge_each-Steady :
    (cfg : Config) (err : Option Error) (w : World) (entries : List Entry)
    → Steady w (purge_each cfg err w entries).1
unfolding purge_each
purge_each-Steady cfg err w [] = (refl, refl)
purge_each-Steady cfg err w (e ∷ entries) =
    let skipped = purge_each-Steady cfg none w entries in
    let one = purge_host-Steady cfg w e.name e.reply in
    let rest =
      purge_each-Steady cfg (purge_host cfg w e.name e.reply).0 (purge_host cfg w e.name e.reply).1
        entries in
    (ground (arith, skipped, one, rest), ground (arith, skipped, one, rest))

purge_all-Steady :
    (cfg : Config) (w : World) (listing : Option (List Entry))
    → Steady w (purge_all cfg w listing).1
unfolding purge_all
purge_all-Steady cfg w none = (ground arith, ground arith)
purge_all-Steady cfg w (some entries) =
    let each = purge_each-Steady cfg none w entries in (ground (arith, each), ground (arith, each))

clean_visit-Steady :
    (w : World) (path : Bytes) (a_dir : Bool) (m : Moment) → Steady w (clean_visit w path a_dir m).1
unfolding clean_visit clean_data clean_opened is_exists is_dir open_data move_to_trash
clean_visit-Steady w path a_dir m = (ground arith, ground arith)

clean-Steady :
    (content_path : Bytes) (w : World) (calls : List (Call Moment))
    → Steady w (clean content_path w calls).1
unfolding clean
clean-Steady content_path w calls =
    walk_dir-keeps content_path clean_visit (Steady w) (λ m. Unit)
      (λ s path a_dir m _ (same, again).
        let one = clean_visit-Steady s path a_dir m in (one.0 ∙ same, one.1 ∙ again))
      w calls (All-of (λ (c : Call Moment). Unit) (λ c. tt) calls) (refl, refl)

purge-Steady :
    (lib : Library) (cfg : Config) (w : World) (raw_url host : Bytes) (u : Urls)
    → get_urls lib.parse_url raw_url host ≡ u
    → Steady w (purge lib cfg w raw_url host).1
unfolding purge move_to_trash
purge-Steady lib cfg w raw_url host u e = (ground arith, ground arith)

purge-Shrinks :
    (lib : Library) (cfg : Config) (w : World) (raw_url host : Bytes) (u : Urls)
    → get_urls lib.parse_url raw_url host ≡ u
    → Shrinks w (purge lib cfg w raw_url host).1
unfolding purge move_to_trash
purge-Shrinks lib cfg w raw_url host (Urls.err x) e p n h = ground arith
purge-Shrinks lib cfg w raw_url host (Urls.ok base key) e p n h =
    ground (arith, lookup-erase (data_path lib cfg base key) p w.disk)

module _ (place : Bytes → Bytes) (lib : Library) (cfg : Config) where
  get-AllSettled :
      (w : World) (req : Request) (a : Attempt)
      → ((base key : Url)
          → get_urls lib.parse_url req.raw_url req.host ≡ Urls.ok base key
          → data_path lib cfg base key ≡ place (lib.url_text key))
      → AllSettled place w
      → AllSettled place (get lib cfg w req a).1
  unfolding get
  get-AllSettled w req a one h = elim (Bool-cases w.released) [
    | inl e ↦ simp e h
    | inr e ↦ simp e (urls (get_urls lib.parse_url req.raw_url req.host) refl)
  ]
    where
      urls :
          (u : Urls)
          → get_urls lib.parse_url req.raw_url req.host ≡ u
          → AllSettled place
              (elim u as (λ x. Option Returned × World) [
                | Urls.err e ↦ (fail zero_result invalid_url, w)
                | Urls.ok base key ↦ get_locked lib cfg w base key req.range req.now a
              ]).1
      urls (Urls.err x) e = h
      urls (Urls.ok base key) e =
          get_locked-kept lib cfg base key a req.range (AllSettled place)
            (λ s gone k.
              forgotten-AllSettled place s (data_path lib cfg base key) (lib.url_text key)
                (one base key e) gone k)
            (start_download-kept lib cfg base key a (AllSettled place)
              (λ s s' m k. move_to_trash-AllSettled place s s' (data_path lib cfg base key) m k)
              (λ s info header free own k.
                create_data-AllSettled place s (data_path lib cfg base key) (lib.url_text key) info
                  header (one base key e) free own k))
            w req.now h

  purge-AllSettled :
      (w : World) (raw_url host : Bytes)
      → AllSettled place w
      → AllSettled place (purge lib cfg w raw_url host).1
  purge-AllSettled w raw_url host h =
      Shrinks-AllSettled place w (purge lib cfg w raw_url host).1
        (purge-Shrinks lib cfg w raw_url host (get_urls lib.parse_url raw_url host) refl)
        (purge-Steady lib cfg w raw_url host (get_urls lib.parse_url raw_url host) refl) h

  -- What is known of an event: a key belongs to one path, and the end of a download is that of its own
  -- content.
  abbrev pub IsOwnEvent : World → Event → Type 0
  IsOwnEvent w (got req a) =
      (base key : Url)
      → get_urls lib.parse_url req.raw_url req.host ≡ Urls.ok base key
      → data_path lib cfg base key ≡ place (lib.url_text key)
  IsOwnEvent w (finished path key file size t) = IsOwnEnd w path key file size
  IsOwnEvent w e = Unit

  step-AllSettled :
      (w : World) (e : Event)
      → IsOwnEvent w e
      → AllSettled place w
      → AllSettled place (step lib cfg w e)
  unfolding step
  step-AllSettled w (got req a) g h = get-AllSettled w req a g h
  step-AllSettled w (purged raw_url host) g h = purge-AllSettled w raw_url host h
  step-AllSettled w (purged_host host reply) g h =
      Shrinks-AllSettled place w (purge_host cfg w host reply).1
        (purge_host-Shrinks cfg w host reply) (purge_host-Steady cfg w host reply) h
  step-AllSettled w (purged_all listing) g h =
      Shrinks-AllSettled place w (purge_all cfg w listing).1 (purge_all-Shrinks cfg w listing)
        (purge_all-Steady cfg w listing) h
  step-AllSettled w (cleaned calls) g h =
      Shrinks-AllSettled place w (clean cfg.content_path w calls).1
        (clean-Shrinks cfg.content_path w calls) (clean-Steady cfg.content_path w calls) h
  step-AllSettled w stopped g h = λ p c found.
      let i = h p c found in record { placed = i.placed; numbered = i.numbered; whole = i.whole }
  step-AllSettled w (finished path key file size t) g h =
      end_download-AllSettled place w path key file size t g h

-- The states of a store that starts on a disk of whole contents.
pub data Lives (place : Bytes → Bytes) (lib : Library) (cfg : Config) : World → Type 0 where
  begins : (w : World) → AllSettled place w → Lives place lib cfg w
  happens :
      {w : World} (e : Event)
      → IsOwnEvent place lib cfg w e
      → Lives place lib cfg w
      → Lives place lib cfg (step lib cfg w e)

pub Lives-AllSettled :
    (place : Bytes → Bytes) (lib : Library) (cfg : Config) (w : World)
    → Lives place lib cfg w
    → AllSettled place w
Lives-AllSettled place lib cfg _ (begins w h) = h
Lives-AllSettled place lib cfg _ (happens {w} e g l) =
    step-AllSettled place lib cfg w e g (Lives-AllSettled place lib cfg w l)

-- In every state of a store that starts with whole contents, or with contents whose downloads are
-- registered, behind any sequence of calls of Get, of the purges and of Release, walks of the content
-- cleaner and ends of downloads, whatever the origins send: a content of known size has exactly as
-- many bytes as that, unless its own download is registered under its key. This supposes that a key
-- belongs to one path, that the end of a download is that of its own content, that the directory of
-- a download that ends can be moved, and that a failed Create can remove what it has made.
pub Lives-whole :
    (place : Bytes → Bytes) (lib : Library) (cfg : Config) (w : World) (path : Bytes) (c : Content)
    → Lives place lib cfg w
    → lookup path w.disk ≡ some (content c)
    → lookup c.info.key_url w.downloads ≢ some c.file
    → pos 0 ≤ℤ c.info.size
    → c.info.size ≡ pos (length c.body)
Lives-whole place lib cfg w path c l found settled known =
    elim ((Lives-AllSettled place lib cfg w l path c found).whole) [
      | inl whole ↦ whole known
      | inr current ↦ absurd (settled current)
    ]
