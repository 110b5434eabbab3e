-- ===== src/Store/Cleaner.antt =====
-- store/store.go, `contentCleaner`: one walk over the content directory. A directory that is named
-- data without being one of a content stands on the disk as one that cannot be opened.
pub mod Keeps
pub mod Removes
pub mod Stuck
use oscdn.Base.{
  Bool, true, false, not, none, some, List, Bytes, codes, if◌then◌else◌, Time, ltb_ℤ, erase,
}
use oscdn.Base.Strings.{has_suffix}
use oscdn.Fileutil.{Call, Ended, walk_dir}
use oscdn.Store.World.{
  World, Data, new_data, Result, ok, open_data, is_exists, is_dir, move_to_trash, moved,
}

-- What `os.Remove` does: it removes the file or the empty directory, says that the directory is not
-- empty, or fails in another way.
pub data Removal : Type 0 where
  removed not_empty refused : Removal

-- What a call of the function meets: whether the store has been released by then, the outcome of
-- `os.Remove`, and the time.
pub record Moment : Type 0 where
  pub cancelled : Bool
  pub removal : Removal
  pub now : Time

-- From `data.Open` on: a content that has expired goes to the trash.
unfoldable pub clean_opened : World → Bytes → Time → Result Data → Bool × World
clean_opened w path now (ok d) =
    if ltb_ℤ now d.info.expires_at
    then (true, w)
    else (elim (move_to_trash w path) [ moved w' ↦ (true, w') | _ ↦ (false, w) ])
clean_opened w path now _ = (false, w)

-- From the locks on. What is no directory is removed.
unfoldable pub clean_data : World → Bytes → Moment → Bool × World
clean_data w path m = elim (is_exists w path) [
  | none ↦ (false, w)
  | some false ↦ (true, w)
  | some true ↦ elim (is_dir w path) [
    | none ↦ (false, w)
    | some false ↦ elim (m.removal) [
      | removed ↦ (true, record w { disk = erase path w.disk })
      | _ ↦ (false, w)
    ]
    | some true ↦ clean_opened w path m.now (open_data w (new_data path))
  ]
]

abbrev pub is_data_path : Bytes → Bool
is_data_path path = has_suffix path (codes "/data")

-- The function of the walk. A directory that is not one of a content goes if it is empty.
unfoldable pub clean_visit : World → Bytes → Bool → Moment → Bool × World
clean_visit w path a_dir m =
    if m.cancelled
    then (false, w)
    else if not a_dir
    then (true, w)
    else if not (is_data_path path)
    then (elim (m.removal) [ refused ↦ (false, w) | _ ↦ (true, w) ])
    else clean_data w path m

unfoldable pub clean : Bytes → World → List (Call Moment) → Ended × World
clean content_path w calls = walk_dir content_path clean_visit w calls
