-- ===== src/Store/Trash.antt =====
-- store/store.go, `trashCleaner`: one walk over the trash directory, which removes the files and
-- the empty directories that it meets, while nothing is moved to the trash.
pub mod Empties
use oscdn.Base.{ℕ, zero, suc, max, Bool, true, false, not, ◌&&◌, if◌then◌else◌}
use oscdn.Store.Cleaner.{Removal, removed, not_empty, refused}

-- What lies in a directory, in the order of a walk: files, and directories with what lies in them.
-- The flag says that the system refuses to remove the file or directory.
pub data Entries : Type 0 where
  nothing : Entries
  file : Bool → (rest : Entries) → Entries
  dir : Bool → (inner rest : Entries) → Entries

-- `os.Remove` of a file, and of a directory with what lies in it.
unfoldable pub remove_file : Bool → Removal
remove_file keeps = if keeps then refused else removed

unfoldable pub is_empty : Entries → Bool
is_empty nothing = true
is_empty entries = false

unfoldable pub remove_dir : Bool → Entries → Removal
remove_dir keeps inner = if keeps then refused else if is_empty inner then removed else not_empty

-- The function of the walk: whether it goes on.
unfoldable pub sweep_visit : (cancelled is_dir : Bool) → Removal → Bool
sweep_visit true is_dir r = false
sweep_visit false is_dir removed = true
sweep_visit false is_dir not_empty = is_dir
sweep_visit false is_dir refused = false

-- Behind the visit of a directory. One that has been removed cannot be read any more, and `WalkDir`
-- skips it; what lies in the other is visited before the rest.
unfoldable pub enter : Removal → Bool → (inner rest : Bool × Entries) → Entries → Bool × Entries
enter removed keeps inner rest old_rest = rest
enter _ keeps (false, inner) rest old_rest = (false, dir keeps inner old_rest)
enter _ keeps (true, inner) (goes_on, rest) old_rest = (goes_on, dir keeps inner rest)

-- One walk: whether it went through to its end, and what is left.
unfoldable pub sweep : Entries → Bool × Entries
sweep nothing = (true, nothing)
sweep (file keeps rest) =
    let swept = sweep rest in
    if sweep_visit false false (remove_file keeps) then swept else (false, file keeps rest)
sweep (dir keeps inner rest) =
    let swept_inner = sweep inner in
    let swept = sweep rest in
    let r = remove_dir keeps inner in
    if sweep_visit false true r
    then enter r keeps swept_inner swept rest
    else (false, dir keeps inner rest)

-- The loop of the cleaner, for so many walks.
unfoldable pub sweeps : ℕ → Entries → Entries
sweeps zero entries = entries
sweeps (suc n) entries = sweeps n (sweep entries).1

-- How deep the directories are nested.
unfoldable pub depth : Entries → ℕ
depth nothing = 0
depth (file keeps rest) = max 1 (depth rest)
depth (dir keeps inner rest) = max (suc (depth inner)) (depth rest)

unfoldable pub is_removable : Entries → Bool
is_removable nothing = true
is_removable (file keeps rest) = not keeps && is_removable rest
is_removable (dir keeps inner rest) = not keeps && (is_removable inner && is_removable rest)
