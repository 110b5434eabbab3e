-- ===== src/Store/Purge/All/Forget.antt =====
-- What a purge of all hosts takes away: everything below each host that was listed.
use oscdn.Base.{
  ◌≡◌, true, false, Option, none, some, List, [], ◌∷◌, ◌++◌, arith, Bytes, lookup, ◌∙◌, sym,
  str_eq_iff,
}
use oscdn.Store.Download.{Library, data_path, Config}
use oscdn.Store.World.{World, Error}
use oscdn.Store.Purge.Shrinks.{Shrinks, Shrinks-none}
use oscdn.Store.Purge.Host.{HostReply, is_host, host_path, is_below, purge_host, move_dir}
use oscdn.Store.Purge.Host.Forget.{
  purge_host-Shrinks, lookup-outside, is_below-get_data_path, is_host-Lacks,
}
use oscdn.Store.Urls.{Url, Urls, get_urls, get_data_path}
use oscdn.Store.Urls.Hosts.{get_urls-IsDirName}
use oscdn.Store.Purge.All.{purge_all, Entry, stops, purge_each}

purge_each-Shrinks :
    (cfg : Config) (err : Option Error) (w : World) (entries : List Entry)
    → Shrinks w (purge_each cfg err w entries).1
unfolding purge_each
purge_each-Shrinks cfg err w [] path n h = h
purge_each-Shrinks cfg err w (e ∷ entries) path n h = ground (
  arith,
  purge_each-Shrinks cfg none w entries path n,
  purge_each-Shrinks cfg (purge_host cfg w e.name e.reply).0 (purge_host cfg w e.name e.reply).1
      entries path n,
  purge_host-Shrinks cfg w e.name e.reply path n,
)

-- What a purge of a host leaves behind where the loop goes on: nothing below the host.
purge_host-below :
    (cfg : Config) (w : World) (host path : Bytes) (reply : HostReply)
    → is_host host ≡ true
    → stops (purge_host cfg w host reply).0 ≡ false
    → is_below (host_path cfg host) path ≡ true
    → (reply.exists ≡ some false → lookup path w.disk ≡ none)
    → lookup path (purge_host cfg w host reply).1.disk ≡ none
unfolding purge_host move_dir stops
purge_host-below cfg w host path reply valid goes_on below gone =
    ground (arith, lookup-outside (host_path cfg host) path w.disk)

module _ (cfg : Config) (path : Bytes) (e : Entry)
    (below : is_below (host_path cfg e.name) path ≡ true) (a_dir : e.is_dir ≡ true)
    (valid : is_host e.name ≡ true) where
  purge_each-below :
      (err : Option Error) (w : World) (before after : List Entry)
      → stops (purge_each cfg err w (before ++ e ∷ after)).0 ≡ false
      → (e.reply.exists ≡ some false → lookup path w.disk ≡ none)
      → lookup path (purge_each cfg err w (before ++ e ∷ after)).1.disk ≡ none
  unfolding purge_each stops
  purge_each-below err w [] after goes_on gone = ground (
    arith,
    purge_host-below cfg w e.name path e.reply valid,
    Shrinks-none (purge_host cfg w e.name e.reply).1
        (purge_each cfg (purge_host cfg w e.name e.reply).0 (purge_host cfg w e.name e.reply).1
          after).1
        path
        (purge_each-Shrinks cfg (purge_host cfg w e.name e.reply).0
          (purge_host cfg w e.name e.reply).1 after),
  )
  purge_each-below err w (d ∷ before) after goes_on gone = ground (
    arith,
    purge_each-below none w before after,
    purge_each-below (purge_host cfg w d.name d.reply).0 (purge_host cfg w d.name d.reply).1 before
        after,
    Shrinks-none w (purge_host cfg w d.name d.reply).1 path
        (purge_host-Shrinks cfg w d.name d.reply),
  )

-- If a purge of all hosts ends without an error, or with the one that says that a host was gone,
-- then nothing is at the path of any URL whose host is the name of a directory that was listed.
-- Where the system says of that directory that it is gone, nothing was at that path to begin with.
pub purge_all-forgets :
    (lib : Library) (cfg : Config) (w : World) (before after : List Entry) (e : Entry)
    (raw_url h : Bytes) (base key : Url)
    → get_urls lib.parse_url raw_url h ≡ Urls.ok base key
    → base.host ≡ e.name
    → e.is_dir ≡ true
    → is_host e.name ≡ true
    → (e.reply.exists ≡ some false → lookup (data_path lib cfg base key) w.disk ≡ none)
    → stops (purge_all cfg w (some (before ++ e ∷ after))).0 ≡ false
    → lookup (data_path lib cfg base key) (purge_all cfg w (some (before ++ e ∷ after))).1.disk
      ≡ none
unfolding purge_all stops data_path
purge_all-forgets lib cfg w before after e raw_url h base key urls same a_dir valid gone goes_on =
    let (_, is_dir_name, _) = get_urls-IsDirName lib.parse_url raw_url h base key urls in
    let path = get_data_path lib.sha256 cfg.content_path base.host (lib.url_text key) in
    let below =
      is_below-get_data_path lib.sha256 cfg.content_path e.name base.host (lib.url_text key)
        (is_host-Lacks e.name valid) is_dir_name.no_slash in
    ground (
      arith,
      purge_each-below cfg path e (below ∙ (str_eq_iff e.name base.host).1 (sym same)) a_dir valid
          none w before after,
    )

-- A purge of all hosts puts nothing on the disk and changes nothing there.
pub purge_all-Shrinks :
    (cfg : Config) (w : World) (listing : Option (List Entry))
    → Shrinks w (purge_all cfg w listing).1
unfolding purge_all
purge_all-Shrinks cfg w none path n h = ground arith
purge_all-Shrinks cfg w (some entries) path n h =
    ground (arith, purge_each-Shrinks cfg none w entries path n)
