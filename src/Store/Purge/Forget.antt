-- ===== src/Store/Purge/Forget.antt =====
-- What a purge takes away.
use oscdn.Base.{
  ◌≡◌, inl, inr, false, none, some, ◌∷◌, arith, if◌then◌else◌, Option-cases, Bytes, str_eq,
  str_eq_refl, str_eq_iff, lookup, erase, lookup-erase,
}
use oscdn.Store.Urls.{Url, Urls, get_urls}
use oscdn.Store.World.{World, Node, not_exists, is_exists, move_to_trash}
use oscdn.Store.Download.{Library, Config, data_path}
use oscdn.Store.Purge.{purge}

-- The state without the path, its node in the trash.
abbrev pub without : World → Bytes → Node → World
without w path n = record w { disk = erase path w.disk; trash = n ∷ w.trash }

module _ (lib : Library) (cfg : Config) (w : World) (raw_url host : Bytes) (base key : Url)
    (urls : get_urls lib.parse_url raw_url host ≡ Urls.ok base key) (running : w.released ≡ false)
    (allowed : w.denied (data_path lib cfg base key) ≡ false) where
  -- While the store is not released and the system allows it, a purge of a valid URL at whose path
  -- something is succeeds and moves exactly that to the trash.
  pub purge-stored :
      (n : Node)
      → lookup (data_path lib cfg base key) w.disk ≡ some n
      → purge lib cfg w raw_url host ≡ (none, without w (data_path lib cfg base key) n)
  unfolding purge is_exists move_to_trash
  purge-stored n stored = ground arith

  -- A purge of a missing content says so and changes nothing.
  pub purge-missing :
      lookup (data_path lib cfg base key) w.disk ≡ none
      → purge lib cfg w raw_url host ≡ (some not_exists, w)
  unfolding purge is_exists move_to_trash
  purge-missing missing = ground arith

  -- While the store is not released and the system allows it, a purge of a valid URL leaves nothing
  -- at its path and every other path as it was, and a second purge finds nothing.
  pub purge_forgets :
      (path : Bytes)
      → let w' = (purge lib cfg w raw_url host).1 in
        (lookup path w'.disk
          ≡ (if str_eq (data_path lib cfg base key) path then none else lookup path w.disk))
        × (purge lib cfg w' raw_url host ≡ (some not_exists, w'))
  unfolding purge is_exists move_to_trash
  purge_forgets path = elim (Option-cases (lookup (data_path lib cfg base key) w.disk)) [
    | inl e ↦ (ground (arith, str_eq_iff (data_path lib cfg base key) path), ground arith)
    | inr (n, e) ↦ (
      ground (arith, lookup-erase (data_path lib cfg base key) path w.disk),
      ground (
        arith,
        lookup-erase (data_path lib cfg base key) (data_path lib cfg base key) w.disk,
        str_eq_refl (data_path lib cfg base key),
      ),
    )
  ]
