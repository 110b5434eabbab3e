-- ===== src/Tests/Setup.antt =====
-- ioutil, the configuration and the servers: one host with one origin, and a few connections.
use oscdn.Base.{
  ◌*ℤ◌, str_eq, inl, length, ◌+◌, ◌%◌, ◌^◌, if◌then◌else◌, none, some, ◌∷◌, [], lookup, zero, suc,
  ◌≡◌, refl, true, false, arith, Bytes, codes, ℕ, pos,
}
use oscdn.Base.Http.{get, values}
use oscdn.Base.Strings.{split, split_two, trim_suffix, trim_space, last_index}
use oscdn.HttpUtil.Options.{
  parse_options, add_options, parse_option, append_option, add_key_vals, add_key_val, parse_key_val,
}
use oscdn.HttpUtil.Host.{split_host}
use oscdn.Cdn.Common.{Request}
use oscdn.Cdn.Writer.{
  validate, prepare, prepared, with_target, set_store_url, store_host, set_content_range,
}
use oscdn.Config.{cdn_config_of, Config, Origin, Host, cdn_host_config}
use oscdn.Store.Urls.{
  Url, Urls, urls_of, is_valid_url, match_host, trim_port, is_label, all_labels, is_port, all_bytes,
  get_urls, get_data_path, hash_segments,
}
use oscdn.Store.Download.{data_path}
use oscdn.Config.Hosts.{prepare-cdn_host_config}
use oscdn.Apps.Conns.{Served, started, opened, hijacked, closed, tcp, tls, conn_state}
use oscdn.Apps.Conns.Counted.{conn_state-count}
use oscdn.Apps.Mgmt.{
  MgmtRequest, Replies, mgmt_handler, post_only, purge_case, purge_answer, print_line,
}
use oscdn.Apps.Mgmt.Answers.{mgmt_handler-purged}
use oscdn.Store.Purge.{purge}
use oscdn.Store.World.{is_exists, move_to_trash}
use oscdn.Tests.Contents.{page, lib, cfg, world, urls, path}
use oscdn.Ioutil.{Source, Sink, copy, copy_rate}
use oscdn.Ioutil.Whole.{copy_rate-copy}

abbrev sink : Sink
sink = record { written = []; room = some 1500 }

abbrev repeated : ℕ → Bytes
repeated zero = []
repeated (suc n) = b'a' ∷ repeated n

-- More than the burst, into a sink that takes less.
abbrev long : Source
long = record { bytes = repeated 2000; breaks = true }

copy_rate-copy_example : copy_rate (λ size r. r) sink long (pos 1) (pos 8) ≡ copy sink long
unfolding ◌*ℤ◌
copy_rate-copy_example =
    copy_rate-copy (λ size r. r) (λ size r. refl) sink long (pos 1) (pos 8) (omega arith)
      (omega arith)

abbrev origin : Origin
origin = record {
  use_https = false;
  max_size = pos 1000;
  max_age = pos 60;
  max_age_404 = pos 5;
  max_age_override = false;
  download_burst = pos 0;
  download_rate = pos 0;
}

abbrev host : Host
host = record {
  tls = none;
  origin = codes "o:80";
  https_redirect = false;
  https_redirect_port = pos 443;
  host_override = false;
  ignore_query = false;
  compression_max_size = pos 0;
  upload_burst = pos 0;
  upload_rate = pos 0;
}

abbrev pub config : Config
config = record { origins = (codes "o:80", origin) ∷ []; hosts = (codes "example.com", host) ∷ [] }

abbrev request : Request
request = record {
  method = codes "GET";
  url = record page { host = codes "example.com" };
  header = [];
}

abbrev asked : Url
asked = record page { host = codes "o:80" }

prepared_request :
    prepare request (cdn_host_config config (codes "http") (codes "example.com"))
    ≡ prepared asked [] none (cdn_config_of host origin)
unfolding prepare validate with_target set_store_url store_host set_content_range get values lookup
    trim_suffix split_host parse_options add_options parse_option append_option add_key_vals
    add_key_val parse_key_val trim_space split split_two last_index cdn_host_config cdn_config_of
prepared_request = refl

prepare-cdn_host_config_example :
    (d : Host) × (o : Origin) × (lookup (split_host (codes "example.com")).0 config.hosts ≡ some d)
    × (lookup asked.host config.origins ≡ some o)
    × (asked.host ≡ d.origin)
    × (asked.scheme ≡ (if o.use_https then codes "https" else codes "http"))
prepare-cdn_host_config_example =
    prepare-cdn_host_config config request (codes "http") (codes "example.com") asked [] none
      (cdn_config_of host origin) prepared_request

asked_urls : urls_of asked [] ≡ Urls.ok page (record page { host = codes "o" })
unfolding urls_of is_valid_url match_host trim_port is_label all_labels is_port all_bytes split
    split_two trim_suffix
asked_urls = refl

-- Two connections, one of which is hijacked, and then closed ones.
served : Served 2 (7 ∷ []) 1 2
unfolding conn_state
served =
    closed (7 ∷ []) 9 [] tcp
      (hijacked [] 8 (7 ∷ 9 ∷ []) tcp (opened 8 tls (opened 7 tcp (opened 9 tcp started))))

conn_state-count_example : 2 ≡ (length {A = ℕ} (7 ∷ []) + 1) % 2 ^ 32
conn_state-count_example = conn_state-count 2 (7 ∷ []) 1 2 served

abbrev replies : Replies
replies = record { of_host = record { exists = some true; rename_fails = true }; listing = some [] }

abbrev purge_request : Bytes → Bytes → MgmtRequest
purge_request path method = record {
  path = path;
  method = method;
  values = λ name. if str_eq name (codes "url") then codes "u" else [];
}

mgmt_handler-purged_example :
    lookup
      (data_path lib cfg page page)
      (mgmt_handler lib cfg world (purge_request (codes "/purge") (codes "POST")) replies).1.disk
    ≡ none
unfolding mgmt_handler post_only purge_case purge_answer print_line purge get_urls lookup data_path
    get_data_path hash_segments is_exists move_to_trash urls_of is_valid_url match_host all_labels
    split split_two is_label all_bytes is_port trim_port trim_suffix
mgmt_handler-purged_example =
    mgmt_handler-purged lib cfg world (purge_request (codes "/purge") (codes "POST")) replies page
      page refl (urls (codes "u")) (inl refl)
