-- ===== src/Cdn/Writer/Checks.antt =====
-- What `Prepare` lets through, and how it refuses.
use oscdn.Base.{
  Bytes, refl, subst, inl, inr, Option-cases, ◌≡◌, ◌⊎◌, false, Option, none, some, [], arith,
  if◌then◌else◌, codes, str_eq_iff,
}
use oscdn.Store.Urls.{Url}
use oscdn.Cdn.Common.{HostConfig, Request}
use oscdn.Store.Common.{ContentRange}
use oscdn.Cdn.Writer.{
  Target, redirect, target, set_store_url, prepared, with_target, prepare, validate,
}

-- A request that the store is asked for.
pub record IsServed (req : Request) (config : Option HostConfig) (url : Url) (c : HostConfig)
    : Type 0 where
  pub configured : config ≡ some c
  pub method : (req.method ≡ codes "HEAD") ⊎ (req.method ≡ codes "GET")
  pub scheme : (req.url.scheme ≡ codes "http") ⊎ (req.url.scheme ≡ codes "https")
  pub not_redirected : req.url.scheme ≡ codes "http" → c.https_redirect ≡ false
  pub origin : (url.scheme ≡ c.origin_scheme) × (url.host ≡ c.origin_host)
  pub path : url.path ≡ req.url.path
  pub query : url.raw_query ≡ (if c.ignore_query then [] else req.url.raw_query)

validate-none :
    (req : Request) (config : Option HostConfig)
    → validate req config ≡ none
    → ((req.method ≡ codes "HEAD") ⊎ (req.method ≡ codes "GET"))
      × ((req.url.scheme ≡ codes "http") ⊎ (req.url.scheme ≡ codes "https"))
unfolding validate
validate-none req config h = (
  ground (arith, str_eq_iff req.method (codes "HEAD"), str_eq_iff req.method (codes "GET")),
  ground
      (arith, str_eq_iff req.url.scheme (codes "http"), str_eq_iff req.url.scheme (codes "https")),
)

set_store_url-target :
    (req : Request) (c : HostConfig) (url : Url) (host : Bytes)
    → set_store_url req c ≡ target url host
    → (req.url.scheme ≡ codes "http" → c.https_redirect ≡ false)
      × ((url.scheme ≡ c.origin_scheme) × (url.host ≡ c.origin_host))
      × (url.path ≡ req.url.path)
      × (url.raw_query ≡ (if c.ignore_query then [] else req.url.raw_query))
unfolding set_store_url
set_store_url-target req c url host h = (
  (λ e. ground (arith, str_eq_iff req.url.scheme (codes "http"))),
  (ground arith, ground arith),
  ground arith,
  ground arith,
)

with_target-prepared :
    (req : Request) (c c' : HostConfig) (t : Target) (url : Url) (host : Bytes)
    (r : Option ContentRange)
    → with_target req c t ≡ prepared url host r c'
    → (t ≡ target url host) × (c ≡ c')
unfolding with_target
with_target-prepared req c c' (redirect f) url host r h = cc
with_target-prepared req c c' (target url' host') url host r h = ground arith

-- Whenever `Prepare` lets a request through, its host is configured, its method is HEAD or GET, its
-- scheme is http or https, it is no plain request of a host that redirects to https, and the store
-- is asked for the request's path at the host's origin, with the query unless that is ignored.
pub prepare-prepared :
    (req : Request) (config : Option HostConfig) (url : Url) (host : Bytes)
    (r : Option ContentRange) (c : HostConfig)
    → prepare req config ≡ prepared url host r c
    → IsServed req config url c
unfolding prepare
prepare-prepared req none url host r c h = ground arith
prepare-prepared req (some d) url host r c h = elim (Option-cases (validate req (some d))) [
  | inr (f, e) ↦ ground arith
  | inl e ↦
      let (same_target, same_config) =
        with_target-prepared req d c (set_store_url req d) url host r (ground arith) in
      let (method, scheme) = validate-none req (some d) e in
      let (plain, origin, path, query) = set_store_url-target req d url host same_target in
      subst (IsServed req (some d) url) same_config (record {
        configured = refl;
        method = method;
        scheme = scheme;
        not_redirected = plain;
        origin = origin;
        path = path;
        query = query;
      })
]
