-- ===== src/Store/Cleaner/Keeps.antt =====
-- What the content cleaner leaves alone: the contents that have not expired.
use oscdn.Base.{
  All, List, ◌≡◌, some, true, Bool, arith, Bytes, lookup, lookup-erase, str_eq_iff, ltb_ℤ, ◌<ℤ◌,
  All-of,
}
use oscdn.Fileutil.Laws.{walk_dir-keeps}
use oscdn.Fileutil.{Call}
use oscdn.Store.Purge.Shrinks.{Shrinks-trans, Shrinks-refl, Shrinks}
use oscdn.Store.World.{World, Content, content, is_exists, is_dir, open_data, move_to_trash}
use oscdn.Store.Cleaner.{clean, Moment, clean_opened, clean_data, clean_visit}

pub clean_visit-fresh :
    (w : World) (path : Bytes) (a_dir : Bool) (m : Moment) (p : Bytes) (c : Content)
    → lookup p w.disk ≡ some (content c)
    → ltb_ℤ m.now c.info.expires_at ≡ true
    → lookup p (clean_visit w path a_dir m).1.disk ≡ some (content c)
unfolding clean_visit clean_data clean_opened is_exists is_dir open_data move_to_trash
clean_visit-fresh w path a_dir m p c stored fresh =
    ground (arith, lookup-erase path p w.disk, str_eq_iff path p)

pub clean_visit-Shrinks :
    (w : World) (path : Bytes) (a_dir : Bool) (m : Moment)
    → Shrinks w (clean_visit w path a_dir m).1
unfolding clean_visit clean_data clean_opened is_exists is_dir open_data move_to_trash
clean_visit-Shrinks w path a_dir m p n h =
    ground (arith, lookup-erase path p w.disk, str_eq_iff path p)

pub clean-Shrinks :
    (content_path : Bytes) (w : World) (calls : List (Call Moment))
    → Shrinks w (clean content_path w calls).1
unfolding clean
clean-Shrinks content_path w calls =
    walk_dir-keeps content_path clean_visit (Shrinks w) (λ m. Unit)
      (λ s path a_dir m _ h.
        Shrinks-trans w s (clean_visit s path a_dir m).1 h (clean_visit-Shrinks s path a_dir m))
      w calls (All-of (λ (c : Call Moment). Unit) (λ c. tt) calls) (Shrinks-refl w)

-- A walk of the content cleaner, whatever it meets and wherever it ends, leaves every content at its
-- path that has not expired at any time of the walk.
pub clean-fresh :
    (content_path : Bytes) (w : World) (calls : List (Call Moment)) (path : Bytes) (c : Content)
    → lookup path w.disk ≡ some (content c)
    → All (λ (call : Call Moment). call.env.now <ℤ c.info.expires_at) calls
    → lookup path (clean content_path w calls).1.disk ≡ some (content c)
unfolding clean
clean-fresh content_path w calls path c stored fresh =
    walk_dir-keeps content_path clean_visit (λ s. lookup path s.disk ≡ some (content c))
      (λ m. m.now <ℤ c.info.expires_at)
      (λ s p a_dir m q h. clean_visit-fresh s p a_dir m path c h (ground arith)) w calls fresh
      stored
