-- ===== src/Store/Purge/Host.antt =====
-- store/store.go, `PurgeHost`: the directory of a host, with all that is below it, goes to the trash.
-- What the file system answers about that directory is an input.
pub mod Forget
use oscdn.Base.{
  Bool, true, false, not, ◌||◌, Option, none, some, List, [], ◌∷◌, ◌++◌, if◌then◌else◌, Bytes,
  str_eq,
}
use oscdn.Base.Strings.{has_prefix}
use oscdn.Store.Urls.{match_host}
use oscdn.Store.World.{World, Node, Error, released, invalid_host, os, not_exists}
use oscdn.Store.Download.{Config}

-- What `IsExists` says of the directory, where `none` is an error, and whether `moveToTrash` fails.
pub record HostReply : Type 0 where
  pub exists : Option Bool
  pub rename_fails : Bool

-- The path lies in the directory.
unfoldable pub is_below : Bytes → Bytes → Bool
is_below dir path = has_prefix path (dir ++ b'/' ∷ [])

unfoldable pub outside : Bytes → List (Bytes × Node) → List (Bytes × Node)
outside dir [] = []
outside dir ((path, n) ∷ disk) =
    let others = outside dir disk in if is_below dir path then others else (path, n) ∷ others

unfoldable pub inside : Bytes → List (Bytes × Node) → List Node
inside dir [] = []
inside dir ((path, n) ∷ disk) =
    let others = inside dir disk in if is_below dir path then n ∷ others else others

-- `moveToTrash` of a directory with what is below it.
unfoldable pub move_dir : World → Bytes → World
move_dir w dir = record w { disk = outside dir w.disk; trash = inside dir w.disk ++ w.trash }

-- `filepath.Join(s.contentPath, host)`
abbrev pub host_path : Config → Bytes → Bytes
host_path cfg host = cfg.content_path ++ b'/' ∷ host

abbrev pub is_host : Bytes → Bool
is_host host = not (str_eq host [] || not (match_host host))

-- `PurgeHost`
unfoldable pub purge_host : Config → World → Bytes → HostReply → Option Error × World
purge_host cfg w host reply =
    if w.released
    then (some released, w)
    else if not (is_host host)
    then (some invalid_host, w)
    else (elim (reply.exists) [
      | none ↦ (some os, w)
      | some false ↦ (some not_exists, w)
      | some true ↦
          if reply.rename_fails then (some os, w) else (none, move_dir w (host_path cfg host))
    ])
