-- ===== src/Store/History/Released.antt =====
-- The store behind `Release`: every operation finds its context done.
use oscdn.Base.{
  if◌then◌else◌, Bool-cases, inl, inr, map, All-of, Bytes, ◌≡◌, refl, ◌∙◌, true, false, Bool,
  Option, none, some, List, [], ◌∷◌, arith, ap,
}
use oscdn.Fileutil.{Call}
use oscdn.Fileutil.Laws.{walk_dir-keeps}
use oscdn.Store.Cleaner.{Moment, clean_visit, clean_data, clean_opened, clean}
use oscdn.Store.World.{is_exists, is_dir, open_data, move_to_trash, World, Error, released}
use oscdn.Store.Download.{end_download, write_body, finish_download, Library, Config}
use oscdn.Store.Get.{Returned, get}
use oscdn.Store.Purge.{purge}
use oscdn.Store.Purge.Host.{purge_host}
use oscdn.Store.Purge.All.{purge_all}
use oscdn.Store.History.{
  Event, got, purged, purged_host, purged_all, cleaned, stopped, finished, step, run,
}

-- The error that a call gives its caller.
unfoldable pub error_of : Option Returned → Option Error
error_of none = none
error_of (some r) = r.error

-- The calls of the store's users.
unfoldable pub is_call : Event → Bool
is_call (got req a) = true
is_call (purged raw_url host) = true
is_call (purged_host host reply) = true
is_call (purged_all listing) = true
is_call e = false

-- What is no call of a user.
unfoldable pub others : List Event → List Event
others [] = []
others (e ∷ es) = let rest = others es in if is_call e then rest else e ∷ rest

unfoldable pub refusal : Event → Option Error
refusal e = if is_call e then some released else none

module _ (lib : Library) (cfg : Config) where
  -- The error of each event's call.
  unfoldable pub error_at : World → Event → Option Error
  error_at w (got req a) = error_of (get lib cfg w req a).0
  error_at w (purged raw_url host) = (purge lib cfg w raw_url host).0
  error_at w (purged_host host reply) = (purge_host cfg w host reply).0
  error_at w (purged_all listing) = (purge_all cfg w listing).0
  error_at w e = none

  -- The errors of a sequence of calls.
  unfoldable pub errors : World → List Event → List (Option Error)
  errors w [] = []
  errors w (e ∷ es) = error_at w e ∷ errors (step lib cfg w e) es

  -- A call is answered with the error and changes nothing.
  call-released :
      (w : World) (e : Event)
      → w.released ≡ true
      → is_call e ≡ true
      → (step lib cfg w e ≡ w) × (error_at w e ≡ some released)
  unfolding step error_at error_of is_call get purge purge_host purge_all
  call-released w (got req a) h c = ground arith
  call-released w (purged raw_url host) h c = ground arith
  call-released w (purged_host host reply) h c = ground arith
  call-released w (purged_all listing) h c = ground arith
  call-released w (cleaned calls) h c = cc
  call-released w stopped h c = cc
  call-released w (finished path key_url file size t) h c = cc

  clean_visit-released :
      (w : World) (path : Bytes) (a_dir : Bool) (m : Moment)
      → w.released ≡ true
      → (clean_visit w path a_dir m).1.released ≡ true
  unfolding clean_visit clean_data clean_opened is_exists is_dir open_data move_to_trash
  clean_visit-released w path a_dir m h = ground arith

  -- Nothing makes a released store open again.
  step-released : (w : World) (e : Event) → w.released ≡ true → (step lib cfg w e).released ≡ true
  unfolding step is_call clean end_download write_body finish_download move_to_trash
  step-released w (got req a) h = ap (λ s. s.released) (call-released w (got req a) h refl).0 ∙ h
  step-released w (purged raw_url host) h =
      ap (λ s. s.released) (call-released w (purged raw_url host) h refl).0 ∙ h
  step-released w (purged_host host reply) h =
      ap (λ s. s.released) (call-released w (purged_host host reply) h refl).0 ∙ h
  step-released w (purged_all listing) h =
      ap (λ s. s.released) (call-released w (purged_all listing) h refl).0 ∙ h
  step-released w stopped h = refl
  step-released w (cleaned calls) h =
      walk_dir-keeps cfg.content_path clean_visit (λ s. s.released ≡ true) (λ m. Unit)
        (λ s path a_dir m _ k. clean_visit-released s path a_dir m k) w calls
        (All-of (λ (c : Call Moment). Unit) (λ c. tt) calls) h
  step-released w (finished path key_url file size t) h = ground arith

  error_at-event : (w : World) (e : Event) → is_call e ≡ false → error_at w e ≡ none
  unfolding error_at is_call
  error_at-event w (got req a) c = cc
  error_at-event w (purged raw_url host) c = cc
  error_at-event w (purged_host host reply) c = cc
  error_at-event w (purged_all listing) c = cc
  error_at-event w (cleaned calls) c = refl
  error_at-event w stopped c = refl
  error_at-event w (finished path key_url file size t) c = refl

  refused_all :
      (w : World) (es : List Event)
      → w.released ≡ true
      → (run lib cfg w es ≡ run lib cfg w (others es)) × (errors w es ≡ map refusal es)
  unfolding run errors others refusal
  refused_all w [] h = (refl, refl)
  refused_all w (e ∷ es) h = elim (Bool-cases (is_call e)) [
    | inl c ↦
        let (same, answer) = call-released w e h c in
        let (left, answers) = refused_all w es h in ground (arith, c, same, answer, left, answers)
    | inr c ↦
        let (left, answers) = refused_all (step lib cfg w e) es (step-released w e h) in
        ground (arith, c, error_at-event w e c, left, answers)
  ]

  -- Behind a call of Release, whatever the store holds and whatever happens then, every call of Get,
  -- Purge, PurgeHost and PurgeAll returns the error that the store is released, and the state is the
  -- one without these calls.
  pub run-released :
      (w : World) (es : List Event)
      → (run lib cfg w (stopped ∷ es) ≡ run lib cfg w (stopped ∷ others es))
        × (errors (step lib cfg w stopped) es ≡ map refusal es)
  unfolding run step
  run-released w es = refused_all (record w { released = true }) es refl
