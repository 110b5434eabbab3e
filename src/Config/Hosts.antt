-- ===== src/Config/Hosts.antt =====
-- What a validated configuration gives the handler and the store.
use oscdn.Base.{
  ℕ, ◌≡◌, sym, ap, ◌∙◌, ◌≢◌, ◌↔◌, inl, inr, Option, none, some, List, [], ◌∷◌, arith, if◌then◌else◌,
  Option-cases, Bool-cases, Bytes, codes, str_eq, str_eq_iff, lookup,
}
use oscdn.HttpUtil.Host.{split_host}
use oscdn.Store.Common.{ContentRange}
use oscdn.Store.Urls.{Url}
use oscdn.Cdn.Common.{HostConfig, Request}
use oscdn.Cdn.Writer.{prepare, prepared}
use oscdn.Cdn.Writer.Checks.{prepare-prepared}
use oscdn.Config.{
  Origin, Host, Config, unknown_origin, validate, cdn_config_of, cdn_host_config, Flags,
  validate_flags, min_version,
}

unknown_origin-none :
    (origins : List (Bytes × Origin)) (hosts : List (Bytes × Host)) (k : Bytes) (d : Host)
    → unknown_origin origins hosts ≡ none
    → lookup k hosts ≡ some d
    → (o : Origin) × (lookup d.origin origins ≡ some o)
unfolding unknown_origin lookup
unknown_origin-none origins [] k d h found = cc
unknown_origin-none origins ((j, e) ∷ hosts) k d h found =
    elim (Option-cases (lookup e.origin origins)) [
      | inl missing ↦ ground arith
      | inr (o, there) ↦ elim (Bool-cases (str_eq j k)) [
        | inl same ↦ (o, ground arith)
        | inr other ↦ unknown_origin-none origins hosts k d (ground arith) (ground arith)
      ]
    ]

-- In a validated configuration the handler has no configuration for a host exactly where the host,
-- without its port, is not configured: no origin is missing.
pub cdn_host_config-none_iff :
    (c : Config) (scheme host : Bytes)
    → validate c ≡ none
    → (cdn_host_config c scheme host ≡ none) ↔ (lookup (split_host host).0 c.hosts ≡ none)
unfolding validate cdn_host_config
cdn_host_config-none_iff c scheme host valid = (
  λ h. elim (Option-cases (lookup (split_host host).0 c.hosts)) [
    | inl e ↦ e
    | inr (d, e) ↦
        let (o, there) = unknown_origin-none c.origins c.hosts (split_host host).0 d valid e in
        ground arith
  ],
  λ h. ground arith,
)

cdn_host_config-some :
    (c : Config) (scheme host : Bytes) (config : HostConfig)
    → cdn_host_config c scheme host ≡ some config
    → (d : Host) × (o : Origin) × (lookup (split_host host).0 c.hosts ≡ some d)
      × (lookup d.origin c.origins ≡ some o)
      × (cdn_config_of d o ≡ config)
unfolding cdn_host_config
cdn_host_config-some c scheme host config h =
    elim (Option-cases (lookup (split_host host).0 c.hosts)) [
      | inl e ↦ ground arith
      | inr (d, e) ↦ elim (Option-cases (lookup d.origin c.origins)) [
        | inl missing ↦ ground arith
        | inr (o, there) ↦ (d, o, e, there, ground arith)
      ]
    ]

-- Where `Prepare` lets a request through with a configuration of the file, the store is asked at the
-- origin of the configured host, by the scheme that the origin has there.
pub prepare-cdn_host_config :
    (c : Config) (req : Request) (scheme host : Bytes) (url : Url) (key_host : Bytes)
    (r : Option ContentRange) (config : HostConfig)
    → prepare req (cdn_host_config c scheme host) ≡ prepared url key_host r config
    → (d : Host) × (o : Origin) × (lookup (split_host host).0 c.hosts ≡ some d)
      × (lookup url.host c.origins ≡ some o)
      × (url.host ≡ d.origin)
      × (url.scheme ≡ (if o.use_https then codes "https" else codes "http"))
unfolding cdn_config_of
prepare-cdn_host_config c req scheme host url key_host r config h =
    let served = prepare-prepared req (cdn_host_config c scheme host) url key_host r config h in
    let (d, o, there, known, made) = cdn_host_config-some c scheme host config served.configured in
    let is_host : url.host ≡ d.origin = served.origin.1 ∙ ap (λ x. x.origin_host) (sym made) in
    (
      d,
      o,
      there,
      ap (λ x. lookup x c.origins) is_host ∙ known,
      is_host,
      served.origin.0 ∙ ap (λ x. x.origin_scheme) (sym made),
    )

-- Flags that pass `Validate` name a TLS version that main.go knows, so that its `switch` does not
-- panic, and a store path.
pub validate_flags-min_version :
    (f : Flags)
    → validate_flags f ≡ none
    → (f.store_path ≢ []) × ((n : ℕ) × (min_version f.min_tls_version ≡ some n))
unfolding validate_flags min_version
validate_flags-min_version f h = (
  λ e. ground (arith, str_eq_iff f.store_path []),
  elim (Option-cases (min_version f.min_tls_version)) [ inl e ↦ ground arith | inr found ↦ found ],
)
