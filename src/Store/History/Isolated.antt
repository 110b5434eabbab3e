-- ===== src/Store/History/Isolated.antt =====
-- What an event of one content leaves alone: all that is at other paths.
use oscdn.Base.{
  none, ◌⊎◌, inl, inr, ◌∙◌, ℤ, length, Bool, true, sym, refl, ℕ, Option-cases, lookup-erase, str_eq,
  ◌≡◌, false, arith, Bytes, lookup,
}
use oscdn.Store.Purge.Shrinks.{Shrinks}
use oscdn.Store.Purge.Host.{purge_host}
use oscdn.Store.Purge.Host.Forget.{purge_host-Shrinks}
use oscdn.Store.Purge.All.{purge_all}
use oscdn.Store.Purge.All.Forget.{purge_all-Shrinks}
use oscdn.Store.Cleaner.{clean}
use oscdn.Store.Cleaner.Keeps.{clean-Shrinks}
use oscdn.Store.Purge.{purge}
use oscdn.Store.Get.{Request, get}
use oscdn.Store.Get.Keeps.{get_locked-kept}
use oscdn.Store.Download.{
  Transfer, end_download, limited, is_failed, Library, Config, Attempt, data_path, write_body,
}
use oscdn.Store.History.{
  Event, got, purged, purged_host, purged_all, cleaned, stopped, finished, step,
}
use oscdn.Store.World.{move_to_trash, World}
use oscdn.Store.Urls.{Urls, get_urls}
use oscdn.Store.Download.Elsewhere.{
  start_download-elsewhere, write_body-elsewhere, finish_download-elsewhere,
}

-- Events over many contents.
unfoldable pub is_sweep : Event → Bool
is_sweep (purged_host host reply) = true
is_sweep (purged_all listing) = true
is_sweep (cleaned calls) = true
is_sweep e = false

module _ (lib : Library) (cfg : Config) where
  -- The path that an event is about, if it is about one: that of its URL or of its download.
  unfoldable pub is_own : Event → Bytes → Bool
  is_own (got req a) p = elim (get_urls lib.parse_url req.raw_url req.host) [
    | Urls.err e ↦ false
    | Urls.ok base key ↦ str_eq (data_path lib cfg base key) p
  ]
  is_own (purged raw_url host) p = elim (get_urls lib.parse_url raw_url host) [
    | Urls.err e ↦ false
    | Urls.ok base key ↦ str_eq (data_path lib cfg base key) p
  ]
  is_own (finished path key_url file size t) p = str_eq path p
  is_own e p = false

  get-elsewhere :
      (w : World) (req : Request) (a : Attempt) (p : Bytes) (u : Urls)
      → get_urls lib.parse_url req.raw_url req.host ≡ u
      → is_own (got req a) p ≡ false
      → lookup p (get lib cfg w req a).1.disk ≡ lookup p w.disk
  unfolding get is_own
  get-elsewhere w req a p (Urls.err x) e other = ground arith
  get-elsewhere w req a p (Urls.ok base key) e other =
      let elsewhere : str_eq (data_path lib cfg base key) p ≡ false = ground arith in
      let kept =
        get_locked-kept lib cfg base key a req.range (λ s. lookup p s.disk ≡ lookup p w.disk)
          (λ s ds h. h) (λ s h. start_download-elsewhere lib cfg s base key a p elsewhere ∙ h) w
          req.now refl in
      ground (arith, kept)

  purge-elsewhere :
      (w : World) (raw_url host p : Bytes) (u : Urls)
      → get_urls lib.parse_url raw_url host ≡ u
      → is_own (purged raw_url host) p ≡ false
      → lookup p (purge lib cfg w raw_url host).1.disk ≡ lookup p w.disk
  unfolding purge is_own move_to_trash
  purge-elsewhere w raw_url host p (Urls.err x) e other = ground arith
  purge-elsewhere w raw_url host p (Urls.ok base key) e other =
      ground (arith, lookup-erase (data_path lib cfg base key) p w.disk)

  pub shrunk :
      (w w' : World) (p : Bytes)
      → Shrinks w w'
      → (lookup p w'.disk ≡ lookup p w.disk) ⊎ (lookup p w'.disk ≡ none)
  shrunk w w' p s = elim (Option-cases (lookup p w'.disk)) [
    | inl e ↦ inr e
    | inr (n, e) ↦ inl (e ∙ sym (s p n e))
  ]

  sum_right : {A B C : Type 0} → (B → C) → A ⊎ B → A ⊎ C
  sum_right f (inl a) = inl a
  sum_right f (inr b) = inr (f b)

  end_download-elsewhere :
      (w : World) (path key_url : Bytes) (file : ℕ) (size : ℤ) (t : Transfer) (p : Bytes)
      → is_own (finished path key_url file size t) p ≡ false
      → lookup p (end_download w path key_url file size t).disk ≡ lookup p w.disk
  unfolding end_download is_own
  end_download-elsewhere w path key_url file size t p other =
      let written = limited size t.received in
      finish_download-elsewhere (write_body w path file written) path key_url file
        (is_failed t.copy_fails t.close_fails size (length written)) p other
      ∙ write_body-elsewhere w path file written p other

  -- Whatever an event is, a path that it is not about stays as it was: a call of Get or Purge for
  -- another URL or the end of another download leaves it alone, and a purge of a host or of all
  -- hosts and a walk of the cleaner leave it alone or take away what is there.
  pub step-elsewhere :
      (w : World) (e : Event) (p : Bytes)
      → is_own e p ≡ false
      → (lookup p (step lib cfg w e).disk ≡ lookup p w.disk)
        ⊎ ((is_sweep e ≡ true) × (lookup p (step lib cfg w e).disk ≡ none))
  unfolding step is_sweep
  step-elsewhere w (got req a) p other =
      inl (get-elsewhere w req a p (get_urls lib.parse_url req.raw_url req.host) refl other)
  step-elsewhere w (purged raw_url host) p other =
      inl (purge-elsewhere w raw_url host p (get_urls lib.parse_url raw_url host) refl other)
  step-elsewhere w (finished path key_url file size t) p other =
      inl (end_download-elsewhere w path key_url file size t p other)
  step-elsewhere w stopped p other = inl refl
  step-elsewhere w (purged_host host reply) p other =
      sum_right (λ h. (refl, h))
        (shrunk w (purge_host cfg w host reply).1 p (purge_host-Shrinks cfg w host reply))
  step-elsewhere w (purged_all listing) p other =
      sum_right (λ h. (refl, h))
        (shrunk w (purge_all cfg w listing).1 p (purge_all-Shrinks cfg w listing))
  step-elsewhere w (cleaned calls) p other =
      sum_right (λ h. (refl, h))
        (shrunk w (clean cfg.content_path w calls).1 p (clean-Shrinks cfg.content_path w calls))
