-- ===== src/Apps/Mgmt.antt =====
-- apps/mgmtapp.go, `mgmtHandler`: the purges that the management server offers, behind the prefix
-- of its path. The routing of `http.ServeMux` before it is not here.
pub mod Answers
use oscdn.Base.{ℕ, not, Option, none, some, List, ◌++◌, if◌then◌else◌, Bytes, codes, str_eq}
use oscdn.Store.World.{World, Error, not_exists}
use oscdn.Store.Download.{Library, Config}
use oscdn.Store.Purge.{purge}
use oscdn.Store.Purge.Host.{HostReply, purge_host}
use oscdn.Store.Purge.All.{Entry, purge_all}

-- What the handler reads of the request; `values` is what `Get` of the parsed query gives, the empty
-- text for a missing name.
pub record MgmtRequest : Type 0 where
  pub path : Bytes
  pub method : Bytes
  pub values : Bytes → Bytes

-- What the file system answers to the purges of a host and of all hosts.
pub record Replies : Type 0 where
  pub of_host : HostReply
  pub listing : Option (List Entry)

pub record Answer : Type 0 where
  pub status : ℕ
  pub body : Bytes

-- `http.Error`, and `fmt.Fprintln` to the writer.
unfoldable pub http_error : Bytes → ℕ → Answer
http_error text code = record { status = code; body = text ++ codes "\n" }

unfoldable pub print_line : Bytes → Answer
print_line text = record { status = 200; body = text ++ codes "\n" }

abbrev internal_error : Answer
internal_error = http_error (codes "Internal Server Error") 500

-- The switch on the error of `Purge` and `PurgeHost`, with the texts for a missing and a purged one.
unfoldable pub purge_answer : Bytes → Bytes → Option Error → Answer
purge_answer missing purged none = print_line purged
purge_answer missing purged (some not_exists) = http_error missing 404
purge_answer missing purged (some e) = internal_error

-- The one on the error of `PurgeAll`.
unfoldable pub purge_all_answer : Option Error → Answer
purge_all_answer none = print_line (codes "all purged")
purge_all_answer (some e) = internal_error

-- The branch of a purge, which wants the method POST.
unfoldable pub post_only : Bytes → World → Answer × World → Answer × World
post_only method w posted =
    if not (str_eq method (codes "POST"))
    then (http_error (codes "Method Not Allowed") 405, w)
    else posted

module _ (lib : Library) (cfg : Config) where
  unfoldable pub purge_case : World → MgmtRequest → Answer × World
  purge_case w req =
      let (err, w') = purge lib cfg w (req.values (codes "url")) (req.values (codes "host")) in
      (purge_answer (codes "content not exists") (codes "content purged") err, w')

  unfoldable pub purge_host_case : World → MgmtRequest → HostReply → Answer × World
  purge_host_case w req reply =
      let (err, w') = purge_host cfg w (req.values (codes "host")) reply in
      (purge_answer (codes "host not exists") (codes "host purged") err, w')

  unfoldable pub purge_all_case : World → Option (List Entry) → Answer × World
  purge_all_case w listing = let (err, w') = purge_all cfg w listing in (purge_all_answer err, w')

  -- `mgmtHandler`: the answer, and the state of the store behind it.
  unfoldable pub mgmt_handler : World → MgmtRequest → Replies → Answer × World
  mgmt_handler w req env =
      if str_eq (req.path) (codes "/")
      then (http_error (codes "Forbidden") 403, w)
      else if str_eq (req.path) (codes "/purge")
      then post_only req.method w (purge_case w req)
      else if str_eq (req.path) (codes "/purge_host")
      then post_only req.method w (purge_host_case w req env.of_host)
      else if str_eq (req.path) (codes "/purge_all")
      then post_only req.method w (purge_all_case w env.listing)
      else (http_error (codes "Not Implemented") 501, w)
