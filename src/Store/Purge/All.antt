-- ===== src/Store/Purge/All.antt =====
-- store/store.go, `PurgeAll`: each host that the content directory lists is purged in turn.
pub mod Forget
use oscdn.Base.{
  Bool, true, false, not, ◌||◌, Option, none, some, List, [], ◌∷◌, if◌then◌else◌, Bytes,
}
use oscdn.Store.World.{World, Error, released, os, not_exists, cancelled}
use oscdn.Store.Download.{Config}
use oscdn.Store.Purge.Host.{HostReply, is_host, purge_host}

-- What `os.ReadDir` lists, with what happens when its turn comes: whether the context has been
-- cancelled by then, and what the system answers about the directory.
pub record Entry : Type 0 where
  pub name : Bytes
  pub is_dir : Bool
  pub cancelled : Bool
  pub reply : HostReply

-- Whether the loop breaks on the error of `PurgeHost`.
unfoldable pub stops : Option Error → Bool
stops none = false
stops (some not_exists) = false
stops (some e) = true

-- The loop. `err` is what it has left there, and a `continue` behind `PurgeHost` keeps it.
unfoldable pub purge_each : Config → Option Error → World → List Entry → Option Error × World
purge_each cfg err w [] = (err, w)
purge_each cfg err w (e ∷ entries) =
    let skipped = purge_each cfg none w entries in
    let (err', w') = purge_host cfg w e.name e.reply in
    let purged = purge_each cfg err' w' entries in
    if e.cancelled
    then (some Error.cancelled, w)
    else if not e.is_dir || not (is_host e.name)
    then skipped
    else if stops err'
    then (err', w')
    else purged

-- `PurgeAll`, of what `os.ReadDir` returns, where `none` is an error.
unfoldable pub purge_all : Config → World → Option (List Entry) → Option Error × World
purge_all cfg w listing =
    if w.released
    then (some released, w)
    else (elim listing [ none ↦ (some os, w) | some entries ↦ purge_each cfg none w entries ])
