-- ===== src/Cdn/Writer.antt =====
-- cdn/writer.go: `validate`, `setStoreURL`, `setContentRange` and `Prepare`.
pub mod Ranges
pub mod Checks
use oscdn.Base.{
  false, not, ◌&&◌, ◌||◌, Option, none, some, [], ◌∷◌, ◌++◌, ltb, if◌then◌else◌, Bytes, codes,
  str_eq, lookup, ℤ, pos, negsuc, ltb_ℤ, leb_ℤ,
}
use oscdn.Base.Strings.{split_two, parse_int, format_int}
use oscdn.Base.Http.{get}
use oscdn.HttpUtil.Options.{parse_options}
use oscdn.HttpUtil.Host.{split_host}
use oscdn.HttpUtil.Host.RoundTrip.{with_port}
use oscdn.Store.Common.{ContentRange}
use oscdn.Store.Urls.{Url}
use oscdn.Cdn.Common.{HostConfig, Request, Refusal, refuse}

-- `validate`: the refusal, if there is one.
unfoldable pub validate : Request → Option HostConfig → Option Refusal
validate req config =
    let u = req.url in
    if (not (str_eq u.scheme (codes "http")) && not (str_eq u.scheme (codes "https")))
      || not (str_eq u.opaque [])
      || u.user
      || str_eq u.host []
      || not (str_eq u.fragment [])
    then some (refuse 400 "invalid url")
    else if not (str_eq req.method (codes "HEAD")) && not (str_eq req.method (codes "GET"))
    then some (refuse 405 "Method Not Allowed")
    else (elim config [ none ↦ some (refuse 403 "not allowed host") | some _ ↦ none ])

-- What `setStoreURL` leads to: a redirect, or the URL and the host to ask the store for.
pub data Target : Type 0 where
  redirect : Refusal → Target
  target : Url → Bytes → Target

-- The host of a redirect, with a port where one is configured that is not the default.
unfoldable pub redirect_host : Bytes → ℤ → Bytes
redirect_host host port =
    if ltb_ℤ (pos 0) port && not (leb_ℤ port (pos 443) && leb_ℤ (pos 443) port)
    then host ++ b':' ∷ format_int port
    else host

-- The client's host with the origin's port, if the host is to be overridden.
unfoldable pub store_host : HostConfig → Bytes → Bytes
store_host config host =
    let origin_port = (split_host config.origin_host).1 in
    if config.host_override
    then (if ltb 0 origin_port then with_port host origin_port else host)
    else []

-- `setStoreURL`
unfoldable pub set_store_url : Request → HostConfig → Target
set_store_url req config =
    let u = req.url in
    let host = (split_host u.host).0 in
    if str_eq u.scheme (codes "http") && config.https_redirect
    then redirect (record {
      code = 302;
      text = codes "Found";
      location = some (record {
        scheme = codes "https";
        opaque = [];
        user = false;
        host = redirect_host host config.https_redirect_port;
        path = u.path;
        raw_query = u.raw_query;
        fragment = [];
      });
    })
    else target
        (record {
          scheme = config.origin_scheme;
          opaque = [];
          user = false;
          host = config.origin_host;
          path = u.path;
          raw_query = if config.ignore_query then [] else u.raw_query;
          fragment = [];
        })
        (store_host config host)

-- A bound of a range, with the value of an empty text; `none` is a text that is no number.
unfoldable pub parse_bound : Bytes → ℤ → Option ℤ
parse_bound s def = if str_eq s [] then some def else parse_int s

-- What `setContentRange` leads to.
pub data RangeResult : Type 0 where
  whole : RangeResult
  range : ContentRange → RangeResult
  bad_range : Refusal → RangeResult

-- The two bounds of `bytes`, from its text.
unfoldable pub parse_range : Bytes → RangeResult
parse_range b =
    let (low, rest) = split_two b b'-' in
    let high : Bytes = elim rest [ none ↦ [] | some s ↦ s ] in
    elim (parse_bound low (pos 0)) [
      | none ↦ bad_range (refuse 400 "invalid content range")
      | some start ↦ elim (parse_bound high (negsuc 0)) [
        | none ↦ bad_range (refuse 400 "invalid content range")
        | some end ↦ range (record { start = start; end = end })
      ]
    ]

-- `setContentRange`: the first option of the Range header, if it has bytes.
unfoldable pub set_content_range : Request → RangeResult
set_content_range req = elim (parse_options (get req.header (codes "Range"))) [
  | [] ↦ whole
  | opt ∷ _ ↦ elim (lookup (codes "bytes") opt.vals) [
    | none ↦ whole
    | some b ↦ if str_eq b [] then whole else parse_range b
  ]
]

-- What `Prepare` leads to: a refusal, or the call of the store.
pub data Prepared : Type 0 where
  refused : Refusal → Prepared
  prepared : Url → Bytes → Option ContentRange → HostConfig → Prepared

unfoldable pub with_target : Request → HostConfig → Target → Prepared
with_target req config (redirect r) = refused r
with_target req config (target url host) = elim (set_content_range req) [
  | whole ↦ prepared url host none config
  | range r ↦ prepared url host (some r) config
  | bad_range r ↦ refused r
]

-- `Prepare`
unfoldable pub prepare : Request → Option HostConfig → Prepared
prepare req config = elim (validate req config) [
  | some r ↦ refused r
  | none ↦ elim config [
    | none ↦ refused (refuse 403 "not allowed host")
    | some c ↦ with_target req c (set_store_url req c)
  ]
]
