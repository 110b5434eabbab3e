-- ===== src/Store/History/Refines.antt =====
-- The history of the store, as a run of the cache by which it is specified.
use oscdn.Base.{
  ℕ, ℤ, ◌≡◌, ◌∙◌, refl, sym, subst, inl, inr, ◌⊎◌, none, some, Bool, List, [], ◌∷◌, arith, Bytes,
  lookup, lookup-erase, str_eq, str_eq_iff, Bool-cases, length,
}
use oscdn.Store.Urls.{Urls, get_urls}
use oscdn.Store.World.{World, content, move_to_trash}
use oscdn.Store.Download.{
  Library, Config, data_path, Transfer, limited, is_failed, end_download, write_body,
}
use oscdn.Store.Purge.{purge}
use oscdn.Store.Purge.Host.{HostReply, purge_host, move_dir, host_path, is_below}
use oscdn.Store.Purge.Host.Forget.{purge_host-Shrinks, lookup-outside}
use oscdn.Store.Purge.All.{purge_all}
use oscdn.Store.Purge.All.Forget.{purge_all-Shrinks}
use oscdn.Fileutil.{Call}
use oscdn.Store.Cleaner.{Moment, clean}
use oscdn.Store.Cleaner.Keeps.{clean-Shrinks, clean-fresh}
use oscdn.Store.History.{
  Event, got, purged, purged_host, purged_all, cleaned, stopped, finished, step, run,
}
use oscdn.Store.History.Isolated.{is_own, is_sweep, shrunk}
use oscdn.Store.History.Turns.{finish_download-ends, write_body-writes}
use oscdn.Store.History.Cache.{
  Evolves, Reaches, IsEvolved, kept-IsEvolved, shrunk-IsEvolved, other-IsEvolved, purges,
  purges_host, purges_all, cleans, writes, fails, here, next,
}
use oscdn.Store.History.Cache.Gets.{get-IsEvolved}

module _ (lib : Library) (cfg : Config) (p : Bytes) where
  purge-shrunk :
      (w : World) (raw_url host : Bytes) (u : Urls)
      → get_urls lib.parse_url raw_url host ≡ u
      → (lookup p (purge lib cfg w raw_url host).1.disk ≡ lookup p w.disk)
        ⊎ (lookup p (purge lib cfg w raw_url host).1.disk ≡ none)
  unfolding purge move_to_trash
  purge-shrunk w raw_url host (Urls.err x) e = inl (ground arith)
  purge-shrunk w raw_url host (Urls.ok base key) e =
      ground (arith, lookup-erase (data_path lib cfg base key) p w.disk)

  purge-IsEvolved :
      (w : World) (raw_url host : Bytes)
      → IsEvolved lib cfg p (purged raw_url host) w (step lib cfg w (purged raw_url host))
  unfolding step is_sweep
  purge-IsEvolved w raw_url host = elim (Bool-cases (is_own lib cfg (purged raw_url host) p)) [
    | inl own ↦
        shrunk-IsEvolved lib cfg p (purged raw_url host) w (purge lib cfg w raw_url host).1
          (purge-shrunk w raw_url host (get_urls lib.parse_url raw_url host) refl)
          (purges raw_url host (lookup p w.disk) own)
    | inr other ↦ other-IsEvolved lib cfg p w (purged raw_url host) other refl
  ]

  purge_host-IsEvolved :
      (w : World) (host : Bytes) (reply : HostReply)
      → IsEvolved lib cfg p (purged_host host reply) w (purge_host cfg w host reply).1
  purge_host-IsEvolved w host reply = elim (Bool-cases (is_below (host_path cfg host) p)) [
    | inl below ↦
        shrunk-IsEvolved lib cfg p (purged_host host reply) w (purge_host cfg w host reply).1
          (shrunk lib cfg w (purge_host cfg w host reply).1 p (purge_host-Shrinks cfg w host reply))
          (purges_host host reply (lookup p w.disk) below)
    | inr other ↦
        kept-IsEvolved lib cfg p (purged_host host reply) w (purge_host cfg w host reply).1 (
          unfold purge_host move_dir in
          ground (arith, other, lookup-outside (host_path cfg host) p w.disk))
  ]

  clean-IsEvolved :
      (w : World) (calls : List (Call Moment))
      → IsEvolved lib cfg p (cleaned calls) w (clean cfg.content_path w calls).1
  clean-IsEvolved w calls =
      let w' = (clean cfg.content_path w calls).1 in
      elim (shrunk lib cfg w w' p (clean-Shrinks cfg.content_path w calls)) [
        | inl keeps ↦ kept-IsEvolved lib cfg p (cleaned calls) w w' keeps
        | inr gone ↦ shrunk-IsEvolved lib cfg p (cleaned calls) w w' (inr gone) (
            cleans calls (lookup p w.disk) (λ c stored fresh.
              let stays = clean-fresh cfg.content_path w calls p c stored fresh in cc))
      ]

  end_download-IsEvolved :
      (w : World) (key_url : Bytes) (file : ℕ) (size : ℤ) (t : Transfer)
      → IsEvolved lib cfg p
          (finished p key_url file size t)
          w
          (end_download w p key_url file size t)
  unfolding end_download
  end_download-IsEvolved w key_url file size t =
      elim (finish_download-ends written p key_url file bad) [
        | inr (is_bad, gone) ↦
            shrunk-IsEvolved lib cfg p e w w' (inr gone)
              (fails key_url file size t (lookup p w.disk) is_bad)
        | inl ends ↦ elim (write_body-writes w p file (limited size t.received)) [
          | inl keeps ↦ kept-IsEvolved lib cfg p e w w' (ends ∙ keeps)
          | inr (c, stored, own, wrote) ↦
              subst (λ m. Evolves lib cfg p e (lookup p w.disk) m) (sym (ends ∙ wrote))
                (subst
                  (λ n.
                    Evolves lib cfg p e n
                      (some (content (record c { body = limited size t.received }))))
                  (sym stored) (writes key_url file size t c own))
        ]
      ]
    where
      e : Event
      e = finished p key_url file size t

      bad : Bool
      bad = is_failed t.copy_fails t.close_fails size (length (limited size t.received))

      written : World
      written = write_body w p file (limited size t.received)

      w' : World
      w' = end_download w p key_url file size t

  finished-IsEvolved :
      (w : World) (path key_url : Bytes) (file : ℕ) (size : ℤ) (t : Transfer)
      → IsEvolved lib cfg p
          (finished path key_url file size t)
          w
          (step lib cfg w (finished path key_url file size t))
  unfolding step is_own is_sweep
  finished-IsEvolved w path key_url file size t = elim (Bool-cases (str_eq path p)) [
    | inl own ↦
        subst
          (λ q.
            IsEvolved lib cfg p (finished q key_url file size t) w
              (end_download w q key_url file size t))
          (sym ((str_eq_iff path p).0 own)) (end_download-IsEvolved w key_url file size t)
    | inr other ↦ other-IsEvolved lib cfg p w (finished path key_url file size t) other refl
  ]

  step-IsEvolved : (w : World) (e : Event) → IsEvolved lib cfg p e w (step lib cfg w e)
  unfolding step
  step-IsEvolved w (got req a) =
      get-IsEvolved lib cfg p w req a (get_urls lib.parse_url req.raw_url req.host) refl
  step-IsEvolved w (purged raw_url host) = purge-IsEvolved w raw_url host
  step-IsEvolved w (purged_host host reply) = purge_host-IsEvolved w host reply
  step-IsEvolved w (purged_all listing) =
      shrunk-IsEvolved lib cfg p (purged_all listing) w (purge_all cfg w listing).1
        (shrunk lib cfg w (purge_all cfg w listing).1 p (purge_all-Shrinks cfg w listing))
        (purges_all listing (lookup p w.disk))
  step-IsEvolved w (cleaned calls) = clean-IsEvolved w calls
  step-IsEvolved w stopped = kept-IsEvolved lib cfg p stopped w (step lib cfg w stopped) refl
  step-IsEvolved w (finished path key_url file size t) =
      finished-IsEvolved w path key_url file size t

  -- The store refines a cache of entries. Through any sequence of events, from any state, the entry
  -- at a path makes one step of the cache for each event, in their order. An event that is not one of
  -- the following leaves it as it is, and each of them may do so. A call of Get for its URL that finds
  -- no content there that has not expired may put an answer of the origin that is to be kept in its
  -- place, with an empty body, or take it away once the origin has answered. Purge for its URL,
  -- PurgeHost for a host whose directory it is in, PurgeAll, and a walk of the cleaner, unless it is a
  -- content that has not expired at any time of the walk, may take it away. The end of the very
  -- download that made it may write its body, which is what the origin sent, up to the size of the
  -- download, and the end of a failed download to its path may take it away.
  pub run-Reaches :
      (w : World) (es : List Event)
      → Reaches lib cfg p es (lookup p w.disk) (lookup p (run lib cfg w es).disk)
  unfolding run
  run-Reaches w [] = here (lookup p w.disk)
  run-Reaches w (e ∷ es) =
      next e es (lookup p w.disk) (lookup p (step lib cfg w e).disk)
        (lookup p (run lib cfg (step lib cfg w e) es).disk) (step-IsEvolved w e)
        (run-Reaches (step lib cfg w e) es)
