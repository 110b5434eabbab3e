-- ===== src/Store/Purge.antt =====
-- store/store.go, `Purge`.
pub mod Forget
pub mod Shrinks
pub mod Host
pub mod All
use oscdn.Base.{true, false, Option, none, some, if◌then◌else◌, Bytes}
use oscdn.Store.Urls.{Urls, get_urls}
use oscdn.Store.World.{
  World, Error, released, invalid_url, os, not_exists, is_exists, move_to_trash, moved,
}
use oscdn.Store.Download.{Library, Config, data_path}

module _ (lib : Library) (cfg : Config) where
  -- `Purge`: the error, if there is one, and the state behind it.
  unfoldable pub purge : World → Bytes → Bytes → Option Error × World
  purge w raw_url host =
      if w.released then (some released, w) else (elim (get_urls lib.parse_url raw_url host) [
        | Urls.err e ↦ (some invalid_url, w)
        | Urls.ok base key ↦ elim (is_exists w (data_path lib cfg base key)) [
          | none ↦ (some os, w)
          | some false ↦ (some not_exists, w)
          | some true ↦ elim (move_to_trash w (data_path lib cfg base key)) [
            | moved w' ↦ (none, w')
            | _ ↦ (some os, w)
          ]
        ]
      ])
