-- ===== src/Apps/Mgmt/Answers.antt =====
-- What the answers of the management server tell.
use oscdn.Store.Purge.All.{stops}
use oscdn.Store.Purge.Host.{HostReply, purge_host}
use oscdn.Base.{
  ◌≡◌, ◌≢◌, ◌⊎◌, false, none, arith, Option, Bytes, codes, lookup, lookup-erase, str_eq_refl,
  str_eq_iff,
}
use oscdn.Apps.Mgmt.{
  MgmtRequest, Replies, http_error, print_line, purge_answer, post_only, purge_case,
  purge_host_case, purge_all_case, mgmt_handler,
}
use oscdn.Store.Urls.{Url, Urls, get_urls}
use oscdn.Store.Download.{data_path, Library, Config}
use oscdn.Store.World.{World, Error, is_exists, move_to_trash}
use oscdn.Store.Purge.{purge}

purge-cases :
    (lib : Library) (cfg : Config) (w : World) (raw_url host : Bytes)
    → ((purge lib cfg w raw_url host).0 ≡ none) ⊎ ((purge lib cfg w raw_url host).1 ≡ w)
unfolding purge is_exists move_to_trash
purge-cases lib cfg w raw_url host = ground arith

purge_host-cases :
    (cfg : Config) (w : World) (host : Bytes) (reply : HostReply)
    → ((purge_host cfg w host reply).0 ≡ none) ⊎ ((purge_host cfg w host reply).1 ≡ w)
unfolding purge_host
purge_host-cases cfg w host reply = ground arith

-- A purge that succeeds, or that finds nothing, leaves nothing at the path.
purge-gone :
    (lib : Library) (cfg : Config) (w : World) (raw_url host : Bytes) (base key : Url)
    → get_urls lib.parse_url raw_url host ≡ Urls.ok base key
    → stops (purge lib cfg w raw_url host).0 ≡ false
    → lookup (data_path lib cfg base key) (purge lib cfg w raw_url host).1.disk ≡ none
unfolding purge is_exists move_to_trash stops
purge-gone lib cfg w raw_url host base key urls h = ground (
  arith,
  lookup-erase (data_path lib cfg base key) (data_path lib cfg base key) w.disk,
  str_eq_refl (data_path lib cfg base key),
)

purge_answer-status :
    (missing purged : Bytes) (err : Option Error)
    → ((purge_answer missing purged err).status ≡ 200 → err ≡ none)
      × (((purge_answer missing purged err).status ≡ 200)
            ⊎ ((purge_answer missing purged err).status ≡ 404)
          → stops err ≡ false)
unfolding purge_answer stops http_error print_line
purge_answer-status missing purged err = (ground arith, ground arith)

module _ (lib : Library) (cfg : Config) (w : World) (req : MgmtRequest) (env : Replies) where
  -- Unless the answer has the status 200 or the path is that of a purge of all hosts, the management
  -- server leaves the store as it was: whatever the method, and whatever fails.
  pub mgmt_handler-unchanged :
      (mgmt_handler lib cfg w req env).0.status ≢ 200
      → req.path ≢ codes "/purge_all"
      → (mgmt_handler lib cfg w req env).1 ≡ w
  unfolding mgmt_handler post_only purge_case purge_host_case purge_all_case purge_answer http_error
      print_line
  mgmt_handler-unchanged refused other = ground (
    arith,
    purge-cases lib cfg w (req.values (codes "url")) (req.values (codes "host")),
    purge_host-cases cfg w (req.values (codes "host")) env.of_host,
    str_eq_iff req.path (codes "/purge_all"),
  )

  -- If the management server answers a request with the path of a purge with the status 200 or 404,
  -- then nothing is at the path of its URL and host any more.
  pub mgmt_handler-purged :
      (base key : Url)
      → req.path ≡ codes "/purge"
      → get_urls lib.parse_url (req.values (codes "url")) (req.values (codes "host"))
        ≡ Urls.ok base key
      → ((mgmt_handler lib cfg w req env).0.status ≡ 200)
        ⊎ ((mgmt_handler lib cfg w req env).0.status ≡ 404)
      → lookup (data_path lib cfg base key) (mgmt_handler lib cfg w req env).1.disk ≡ none
  unfolding mgmt_handler post_only purge_case purge_answer http_error print_line
  mgmt_handler-purged base key at urls answered = ground (
    arith,
    str_eq_iff req.path (codes "/purge"),
    purge-gone lib cfg w (req.values (codes "url")) (req.values (codes "host")) base key urls,
    purge_answer-status (codes "content not exists") (codes "content purged")
        (purge lib cfg w (req.values (codes "url")) (req.values (codes "host"))).0,
  )
