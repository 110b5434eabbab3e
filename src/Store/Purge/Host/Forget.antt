-- ===== src/Store/Purge/Host/Forget.antt =====
-- What a purge of a host takes away: exactly the contents of that host.
use oscdn.Store.Urls.Distinct.{segments_slash}
use oscdn.Base.{
  ◌≡◌, refl, true, false, none, some, List, [], ◌∷◌, ◌++◌, arith, if◌then◌else◌, Bytes, str_eq,
  str_eq_iff, lookup, append_assoc,
}
use oscdn.Base.Strings.{has_prefix}
use oscdn.Base.Strings.Laws.{Lacks}
use oscdn.Store.Urls.{Url, Urls, get_urls, get_data_path}
use oscdn.Store.Urls.Hosts.{match_host-Lacks, get_urls-IsDirName}
use oscdn.Store.World.{World, Node}
use oscdn.Store.Download.{Library, Config, data_path}
use oscdn.Store.Purge.Host.{HostReply, is_below, outside, move_dir, host_path, is_host, purge_host}
use oscdn.Store.Purge.Shrinks.{Shrinks}

pub lookup-outside :
    (dir path : Bytes) (disk : List (Bytes × Node))
    → lookup path (outside dir disk) ≡ (if is_below dir path then none else lookup path disk)
unfolding lookup outside
lookup-outside dir path [] = ground arith
lookup-outside dir path ((p, n) ∷ disk) =
    ground (arith, str_eq_iff p path, lookup-outside dir path disk)

has_prefix-append : (p s t : Bytes) → has_prefix (p ++ s) (p ++ t) ≡ has_prefix s t
unfolding has_prefix
has_prefix-append [] s t = refl
has_prefix-append (c ∷ p) s t = ground (arith, has_prefix-append p s t)

-- Two names with a slash behind each: one begins the other only where they are the same.
has_prefix-name :
    (h k s : Bytes)
    → Lacks b'/' h
    → Lacks b'/' k
    → has_prefix (k ++ b'/' ∷ s) (h ++ b'/' ∷ []) ≡ str_eq h k
unfolding has_prefix
has_prefix-name [] [] s lh lk = refl
has_prefix-name [] (c ∷ k) s lh (lc, lk) = ground arith
has_prefix-name (c ∷ h) [] s (lc, lh) lk = ground arith
has_prefix-name (c ∷ h) (d ∷ k) s (lc, lh) (ld, lk) = ground (arith, has_prefix-name h k s lh lk)

pub is_below-get_data_path :
    (sha256 : Bytes → Bytes) (content_path h k key_url : Bytes)
    → Lacks b'/' h
    → Lacks b'/' k
    → is_below (content_path ++ b'/' ∷ h) (get_data_path sha256 content_path k key_url) ≡ str_eq h k
unfolding is_below get_data_path has_prefix
is_below-get_data_path sha256 content_path h k key_url lh lk =
    let (s, e) = segments_slash (sha256 key_url) in
    let name = has_prefix-name h k s lh lk in
    let inner = has_prefix-append content_path (b'/' ∷ (k ++ b'/' ∷ s)) (b'/' ∷ (h ++ b'/' ∷ [])) in
    simp (append_assoc, e, inner, name)

pub is_host-Lacks : (host : Bytes) → is_host host ≡ true → Lacks b'/' host
is_host-Lacks host h = match_host-Lacks host (ground arith)

-- While the store is not released, a purge of a host whose directory is there and can be moved away
-- succeeds. It leaves nothing at the path of any URL whose base URL has that host, and what is at
-- the path of every other URL that the store accepts is as it was.
pub purge_host-forgets :
    (lib : Library) (cfg : Config) (w : World) (host : Bytes) (reply : HostReply)
    (raw_url h : Bytes) (base key : Url)
    → w.released ≡ false
    → is_host host ≡ true
    → reply.exists ≡ some true
    → reply.rename_fails ≡ false
    → get_urls lib.parse_url raw_url h ≡ Urls.ok base key
    → ((purge_host cfg w host reply).0 ≡ none)
      × (lookup (data_path lib cfg base key) (purge_host cfg w host reply).1.disk
          ≡ (if str_eq host base.host then none else lookup (data_path lib cfg base key) w.disk))
unfolding purge_host move_dir data_path
purge_host-forgets lib cfg w host reply raw_url h base key running valid there moves urls =
    let (_, is_dir_name, _) = get_urls-IsDirName lib.parse_url raw_url h base key urls in
    let path = get_data_path lib.sha256 cfg.content_path base.host (lib.url_text key) in
    let below =
      is_below-get_data_path lib.sha256 cfg.content_path host base.host (lib.url_text key)
        (is_host-Lacks host valid) is_dir_name.no_slash in
    (ground arith, ground (arith, below, lookup-outside (host_path cfg host) path w.disk))

-- Whatever the system answers, a purge of a host puts nothing on the disk and changes nothing there.
pub purge_host-Shrinks :
    (cfg : Config) (w : World) (host : Bytes) (reply : HostReply)
    → Shrinks w (purge_host cfg w host reply).1
unfolding purge_host move_dir
purge_host-Shrinks cfg w host reply path n h =
    ground (arith, lookup-outside (host_path cfg host) path w.disk)
