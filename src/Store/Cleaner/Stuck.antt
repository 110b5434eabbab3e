-- ===== src/Store/Cleaner/Stuck.antt =====
-- A directory that cannot be opened as a content, and what stands behind it in a walk.
use oscdn.Base.{
  ◌≡◌, refl, ap, ◌∙◌, true, false, none, some, Bool, List, ◌∷◌, ◌++◌, arith, Bytes, lookup,
  lookup-erase, str_eq, str_eq_iff, All-of,
}
use oscdn.Fileutil.{Call, Ended, walked, stopped, failed, walk_dir}
use oscdn.Fileutil.Laws.{walk_dir-append, go_on, walk_dir-keeps}
use oscdn.Store.World.{World, broken, is_exists, is_dir, open_data, move_to_trash}
use oscdn.Store.Cleaner.{clean, Moment, is_data_path, clean_opened, clean_data, clean_visit}

clean_visit-broken :
    (w : World) (path : Bytes) (a_dir : Bool) (m : Moment) (p : Bytes)
    → lookup p w.disk ≡ some broken
    → lookup p (clean_visit w path a_dir m).1.disk ≡ some broken
unfolding clean_visit clean_data clean_opened is_exists is_dir open_data move_to_trash
clean_visit-broken w path a_dir m p there =
    ground (arith, lookup-erase path p w.disk, str_eq_iff path p)

clean_visit-stopped :
    (w : World) (path : Bytes) (m : Moment)
    → is_data_path path ≡ true
    → lookup path w.disk ≡ some broken
    → clean_visit w path true m ≡ (false, w)
unfolding clean_visit clean_data clean_opened is_exists is_dir open_data move_to_trash
clean_visit-stopped w path m a_data there = ground arith

clean-kept_broken :
    (content_path : Bytes) (w : World) (calls : List (Call Moment)) (path : Bytes)
    → lookup path w.disk ≡ some broken
    → lookup path (clean content_path w calls).1.disk ≡ some broken
unfolding clean
clean-kept_broken content_path w calls path there =
    walk_dir-keeps content_path clean_visit (λ s. lookup path s.disk ≡ some broken) (λ m. Unit)
      (λ s p a_dir m _ h. clean_visit-broken s p a_dir m path h) w calls
      (All-of (λ (c : Call Moment). Unit) (λ c. tt) calls) there

module _ (content_path : Bytes) (call : Call Moment) (below : str_eq call.path content_path ≡ false)
    (a_dir : call.is_dir ≡ true) (no_error : call.error ≡ none)
    (a_data : is_data_path call.path ≡ true) where
  after_broken :
      (r : Ended × World) (after : List (Call Moment))
      → lookup call.path r.1.disk ≡ some broken
      → (go_on content_path clean_visit r (call ∷ after)).1 ≡ r.1
  unfolding walk_dir
  after_broken (walked, s) after there =
      ground (arith, clean_visit-stopped s call.path call.env a_data there)
  after_broken (stopped, s) after there = refl
  after_broken (failed x, s) after there = refl

  -- If a directory at the path of a content cannot be opened as one, then a walk of the content
  -- cleaner that meets it does nothing behind it: whatever the calls behind it, the state is as after
  -- those before it.
  pub clean-broken :
      (w : World) (before after : List (Call Moment))
      → lookup call.path w.disk ≡ some broken
      → (clean content_path w (before ++ call ∷ after)).1 ≡ (clean content_path w before).1
  unfolding clean
  clean-broken w before after there =
      ap (λ r. r.1) (walk_dir-append content_path clean_visit w before (call ∷ after))
      ∙ after_broken (clean content_path w before) after
          (clean-kept_broken content_path w before call.path there)
