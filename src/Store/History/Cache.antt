-- ===== src/Store/History/Cache.antt =====
-- The store as a cache: what each event may make of the entry at one path, and runs of that.
pub mod Gets
use oscdn.Base.{
  ℕ, ℤ, ◌≡◌, ◌∙◌, refl, sym, subst, ap, inl, inr, ◌⊎◌, true, false, none, some, Bool, Option, List,
  [], ◌∷◌, arith, Bytes, lookup, lookup-erase, All, ◌<ℤ◌, Time, str_eq, str_eq_iff, Bool-cases,
  Option-cases, length, dec_lt, if◌then◌else◌, erase, ltb_ℤ,
}
use oscdn.Store.Urls.{Url, Urls, get_urls}
use oscdn.Store.World.{World, Node, Content, content, invalid_url, move_to_trash}
use oscdn.Store.Download.{
  Library, Config, Attempt, data_path, Transfer, limited, is_failed, end_download, write_body,
}
use oscdn.Store.Get.{Request, Returned, get, get_locked, fail, zero_result}
use oscdn.Store.Get.Keeps.{get_locked-kept}
use oscdn.Store.Purge.{purge}
use oscdn.Store.Purge.Host.{HostReply, purge_host, move_dir, host_path, is_below}
use oscdn.Store.Purge.Host.Forget.{purge_host-Shrinks, lookup-outside}
use oscdn.Store.Purge.All.{Entry, purge_all}
use oscdn.Store.Purge.All.Forget.{purge_all-Shrinks}
use oscdn.Fileutil.{Call}
use oscdn.Store.Cleaner.{Moment, clean}
use oscdn.Store.Cleaner.Keeps.{clean-Shrinks, clean-fresh}
use oscdn.Store.History.{
  Event, got, purged, purged_host, purged_all, cleaned, stopped, finished, step, run,
}
use oscdn.Store.History.Isolated.{is_own, is_sweep, shrunk, step-elsewhere}
use oscdn.Store.History.Turns.{
  Made, unchanged, start_download-IsMade, get_locked-kept_fresh, finish_download-ends,
  write_body-writes,
}

-- Whether a content stands there that has not expired.
unfoldable pub is_fresh : Time → Option Node → Bool
is_fresh now (some (content c)) = ltb_ℤ now c.info.expires_at
is_fresh now _ = false

-- The specification, of one entry and one event: it stays; a call of `Get` for its URL, if no content
-- is there that has not expired, puts a new content there or takes the old entry away; a call of
-- `Purge` for its URL, of `PurgeHost` for a host whose directory it is in or of `PurgeAll` takes it
-- away; so does a walk of the cleaner, unless it is a content that has not expired at any time of the
-- walk; the end of the download that has made it writes its body, and the end of one that has failed
-- takes it away.
pub data Evolves (lib : Library) (cfg : Config) (p : Bytes)
    : Event → Option Node → Option Node → Type 0 where
  stays : (e : Event) (n : Option Node) → Evolves lib cfg p e n n
  gets :
      (req : Request) (a : Attempt) (base key : Url) (n m : Option Node)
      → get_urls lib.parse_url req.raw_url req.host ≡ Urls.ok base key
      → data_path lib cfg base key ≡ p
      → is_fresh req.now n ≡ false
      → Made lib cfg base key a n m
      → Evolves lib cfg p (got req a) n m
  purges :
      (raw_url host : Bytes) (n : Option Node)
      → is_own lib cfg (purged raw_url host) p ≡ true
      → Evolves lib cfg p (purged raw_url host) n none
  purges_host :
      (host : Bytes) (reply : HostReply) (n : Option Node)
      → is_below (host_path cfg host) p ≡ true
      → Evolves lib cfg p (purged_host host reply) n none
  purges_all :
      (listing : Option (List Entry)) (n : Option Node)
      → Evolves lib cfg p (purged_all listing) n none
  cleans :
      (calls : List (Call Moment)) (n : Option Node)
      → ((c : Content)
          → n ≡ some (content c)
          → All (λ (call : Call Moment). call.env.now <ℤ c.info.expires_at) calls
          → ⊥)
      → Evolves lib cfg p (cleaned calls) n none
  writes :
      (key_url : Bytes) (file : ℕ) (size : ℤ) (t : Transfer) (c : Content)
      → c.file ≡ file
      → Evolves lib cfg p
          (finished p key_url file size t)
          (some (content c))
          (some (content (record c { body = limited size t.received })))
  fails :
      (key_url : Bytes) (file : ℕ) (size : ℤ) (t : Transfer) (n : Option Node)
      → is_failed t.copy_fails t.close_fails size (length (limited size t.received)) ≡ true
      → Evolves lib cfg p (finished p key_url file size t) n none

-- A run of that along a sequence of events.
pub data Reaches (lib : Library) (cfg : Config) (p : Bytes)
    : List Event → Option Node → Option Node → Type 0 where
  here : (n : Option Node) → Reaches lib cfg p [] n n
  next :
      (e : Event) (es : List Event) (n m l : Option Node)
      → Evolves lib cfg p e n m
      → Reaches lib cfg p es m l
      → Reaches lib cfg p (e ∷ es) n l

module _ (lib : Library) (cfg : Config) (p : Bytes) where
  -- The entry at the path, in two states.
  abbrev pub IsEvolved : Event → World → World → Type 0
  IsEvolved e w w' = Evolves lib cfg p e (lookup p w.disk) (lookup p w'.disk)

  pub kept-IsEvolved :
      (e : Event) (w w' : World) → lookup p w'.disk ≡ lookup p w.disk → IsEvolved e w w'
  kept-IsEvolved e w w' keeps =
      subst (Evolves lib cfg p e (lookup p w.disk)) (sym keeps) (stays e (lookup p w.disk))

  -- What is gone behind an event that may take it away.
  pub shrunk-IsEvolved :
      (e : Event) (w w' : World)
      → (lookup p w'.disk ≡ lookup p w.disk) ⊎ (lookup p w'.disk ≡ none)
      → Evolves lib cfg p e (lookup p w.disk) none
      → IsEvolved e w w'
  shrunk-IsEvolved e w w' (inl keeps) h = kept-IsEvolved e w w' keeps
  shrunk-IsEvolved e w w' (inr gone) h = subst (Evolves lib cfg p e (lookup p w.disk)) (sym gone) h

  -- An event that is about another path.
  pub other-IsEvolved :
      (w : World) (e : Event)
      → is_own lib cfg e p ≡ false
      → is_sweep e ≡ false
      → IsEvolved e w (step lib cfg w e)
  other-IsEvolved w e other one = elim (step-elsewhere lib cfg w e p other) [
    | inl keeps ↦ kept-IsEvolved e w (step lib cfg w e) keeps
    | inr (sweeps, gone) ↦ absurd (ground arith)
  ]
