-- ===== src/Store/Cleaner/Removes.antt =====
-- What the content cleaner takes away: the contents that have expired.
use oscdn.Base.{
  subst, sym, ap, ◌∙◌, ◌≡◌, inl, inr, true, false, none, some, List, ◌∷◌, ◌++◌, arith, Bytes,
  lookup, lookup-erase, str_eq, str_eq_iff, ◌≤ℤ◌, Option-cases,
}
use oscdn.Fileutil.{Call, walked, walk_dir}
use oscdn.Fileutil.Laws.{walk_dir-walked}
use oscdn.Store.World.{World, Content, content, is_exists, is_dir, open_data, move_to_trash}
use oscdn.Store.Purge.Shrinks.{Shrinks-none}
use oscdn.Store.Cleaner.{clean, Moment, is_data_path, clean_opened, clean_data, clean_visit}
use oscdn.Store.Cleaner.Keeps.{clean-Shrinks}

-- The visit of the path of a content that has expired: if the walk goes on, nothing is there.
clean_visit-expired :
    (w : World) (path : Bytes) (m : Moment) (c : Content)
    → is_data_path path ≡ true
    → c.info.expires_at ≤ℤ m.now
    → lookup path w.disk ≡ some (content c)
    → (clean_visit w path true m).0 ≡ true
    → lookup path (clean_visit w path true m).1.disk ≡ none
unfolding clean_visit clean_data clean_opened is_exists is_dir open_data move_to_trash
clean_visit-expired w path m c a_data expired stored goes_on =
    ground (arith, lookup-erase path path w.disk, str_eq_iff path path)

module _ (content_path : Bytes) (call : Call Moment) (c : Content)
    (below : str_eq call.path content_path ≡ false) (a_dir : call.is_dir ≡ true)
    (no_error : call.error ≡ none) (a_data : is_data_path call.path ≡ true)
    (expired : c.info.expires_at ≤ℤ call.env.now) where
  clean-next :
      (w : World) (after : List (Call Moment))
      → lookup call.path w.disk ≡ some (content c)
      → (clean content_path w (call ∷ after)).0 ≡ walked
      → lookup call.path (clean content_path w (call ∷ after)).1.disk ≡ none
  unfolding clean walk_dir
  clean-next w after stored ended =
      let w' = (clean_visit w call.path call.is_dir call.env).1 in
      ground (
        arith,
        clean_visit-expired w call.path call.env c a_data expired stored,
        Shrinks-none w' (clean content_path w' after).1 call.path
            (clean-Shrinks content_path w' after),
      )

  -- If a walk of the content cleaner goes through to its end, then each content that was at its path
  -- before it, is met by the walk there and has expired by then is gone.
  pub clean-expired :
      (w : World) (before after : List (Call Moment))
      → lookup call.path w.disk ≡ some (content c)
      → (clean content_path w (before ++ call ∷ after)).0 ≡ walked
      → lookup call.path (clean content_path w (before ++ call ∷ after)).1.disk ≡ none
  unfolding clean
  clean-expired w before after stored ended =
      let w' = (clean content_path w before).1 in
      let e = walk_dir-walked content_path clean_visit w before (call ∷ after) ended in
      subst (λ r. lookup call.path r.1.disk ≡ none) (sym e)
        (elim (Option-cases (lookup call.path w'.disk)) [
          | inl gone ↦
              Shrinks-none w' (clean content_path w' (call ∷ after)).1 call.path
                (clean-Shrinks content_path w' (call ∷ after)) gone
          | inr (n, there) ↦
              let same = sym (clean-Shrinks content_path w before call.path n there) ∙ stored in
              clean-next w' after (there ∙ same) (sym (ap (λ r. r.0) e) ∙ ended)
        ])
