-- ===== src/Fileutil.antt =====
-- fileutil/fileutil.go, `WalkDir`. What `filepath.WalkDir` calls its function with is an input: the
-- list of the calls that it makes as long as none of them ends the walk.
pub mod Laws
use oscdn.Base.{Bool, Option, none, some, List, [], ◌∷◌, Bytes, str_eq, if◌then◌else◌}

pub data WalkError : Type 0 where
  not_exist other : WalkError

-- The path, whether there is an entry with it and it is a directory, the error, and whatever else
-- the function of the caller meets on its way.
pub record Call (A : Type 0) : Type 0 where
  pub path : Bytes
  pub is_dir : Bool
  pub error : Option WalkError
  pub env : A

-- How a walk ended. `WalkDir` returns an error for `failed` and none for the others.
pub data Ended : Type 0 where
  walked stopped : Ended
  failed : WalkError → Ended

module _ {A S : Type 0} (root : Bytes) (fn : S → Bytes → Bool → A → Bool × S) where
  -- `WalkDir`. The directory that cannot be read because it is gone is skipped.
  unfoldable pub walk_dir : S → List (Call A) → Ended × S
  walk_dir s [] = (walked, s)
  walk_dir s (c ∷ calls) =
      let skipped = walk_dir s calls in
      let (goes_on, s') = fn s c.path c.is_dir c.env in
      let called = walk_dir s' calls in
      if str_eq c.path root
      then (elim (c.error) [ none ↦ skipped | some e ↦ (failed e, s) ])
      else (elim (c.error) [
        | some not_exist ↦ if c.is_dir then skipped else (failed not_exist, s)
        | some other ↦ (failed other, s)
        | none ↦ if goes_on then called else (stopped, s')
      ])
