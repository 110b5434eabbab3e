-- ===== src/Store/Get/Keeps.antt =====
-- What a request for a content keeps, a call of `Get` keeps.
use oscdn.Base.{
  ℕ, ◌≡◌, refl, sym, subst, inl, inr, Bool, true, false, Option, none, some, Bool-cases, lookup,
  erase, ltb_ℤ, Time,
}
use oscdn.Store.Common.{ContentRange}
use oscdn.Store.Urls.{Url}
use oscdn.Store.World.{
  World, Data, new_data, Result, ok, err, panic, open_data, close_data, is_exists, is_dir,
}
use oscdn.Store.Download.{Library, Config, Attempt, data_path, start_download}
use oscdn.Store.Get.{
  after_start, after_close, after_open, after_is_dir, after_exists, get_new, get_locked,
}

module _ (lib : Library) (cfg : Config) where
  after_start-world :
      (s : Result ℕ) (w : World) (d : Data) (exists : Bool) (range : Option ContentRange)
      → (after_start s w d exists range).1 ≡ w
  unfolding after_start
  after_start-world panic w d exists range = refl
  after_start-world (err e) w d exists range = refl
  after_start-world (ok file) w d exists range = refl

  -- A property of the state that a request for the content keeps, and so does the removal of a
  -- download whose data is gone.
  module _ (base key : Url) (a : Attempt) (range : Option ContentRange) (P : World → Type 0)
      (forgotten : (w : World)
        → is_exists w (data_path lib cfg base key) ≡ some false
        → P w
        → P (record w { downloads = erase (lib.url_text key) w.downloads }))
      (kept : (w : World) → P w → P (start_download lib cfg w base key a).1) where
    get_new-kept :
        (w : World) (d : Data) (exists : Bool)
        → P w
        → P (get_new lib cfg w base key d exists range a).1
    unfolding get_new
    get_new-kept w d exists h =
        let (s, w') = start_download lib cfg w base key a in
        subst P (sym (after_start-world s w' d exists range)) (kept w h)

    after_close-kept :
        (o : Result Data) (w : World) → P w → P (after_close lib cfg o w base key range a).1
    unfolding after_close
    after_close-kept panic w h = h
    after_close-kept (err e) w h = h
    after_close-kept (ok d) w h = get_new-kept w d true h

    after_open-kept :
        (o : Result Data) (w : World) (now : Time)
        → P w
        → P (after_open lib cfg o w base key range now a).1
    unfolding after_open
    after_open-kept panic w now h = h
    after_open-kept (err e) w now h = h
    after_open-kept (ok d) w now h = elim (Bool-cases (ltb_ℤ now d.info.expires_at)) [
      | inl e ↦ simp e h
      | inr e ↦ simp e (after_close-kept (close_data d) w h)
    ]

    after_is_dir-kept :
        (o : Option Bool) (w : World) (d : Data) (now : Time)
        → P w
        → P (after_is_dir lib cfg o w base key d range now a).1
    unfolding after_is_dir
    after_is_dir-kept none w d now h = h
    after_is_dir-kept (some false) w d now h = h
    after_is_dir-kept (some true) w d now h = after_open-kept (open_data w d) w now h

    after_exists-kept :
        (there : Option Bool) (download : Option ℕ) (w : World) (d : Data) (now : Time)
        → is_exists w (data_path lib cfg base key) ≡ there
        → P w
        → P (after_exists lib cfg there download w base key d range now a).1
    unfolding after_exists
    after_exists-kept none download w d now e h = h
    after_exists-kept (some true) (some file) w d now e h = h
    after_exists-kept (some true) none w d now e h = after_is_dir-kept (is_dir w d.path) w d now h
    after_exists-kept (some false) (some file) w d now e h =
        get_new-kept (record w { downloads = erase (lib.url_text key) w.downloads }) d false
          (forgotten w e h)
    after_exists-kept (some false) none w d now e h = get_new-kept w d false h

    pub get_locked-kept :
        (w : World) (now : Time) → P w → P (get_locked lib cfg w base key range now a).1
    unfolding get_locked
    get_locked-kept w now h =
        after_exists-kept (is_exists w (data_path lib cfg base key))
          (lookup (lib.url_text key) w.downloads) w (new_data (data_path lib cfg base key)) now refl
          h
