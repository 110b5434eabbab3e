-- ===== src/Config/Ports.antt =====
-- Origins whose name has a port, and the limits that the store takes for them.
use oscdn.Base.{◌≡◌, ap, ◌∙◌, none, ◌++◌, arith, Bytes, codes, lookup, Duration}
use oscdn.Base.Strings.Parts.{trim_suffix-append}
use oscdn.Store.Urls.{Url, Urls, urls_of, trim_port}
use oscdn.Store.Urls.Hosts.{urls_of-ok}
use oscdn.Store.Download.{host_config_of}
use oscdn.Config.{Config, store_config, store_host_config, default_host_config}

trim_port-default :
    (scheme host : Bytes) → scheme ≡ codes "http" → trim_port scheme (host ++ codes ":80") ≡ host
unfolding trim_port
trim_port-default scheme host h = rw h (trim_suffix-append host (codes ":80"))

-- An origin that is configured by its default port, `host:80`, and is asked by plain http, is not
-- found again by the store, which looks it up without the port: its limits are the defaults of
-- main.go, whatever the configuration says of it.
pub host_config_of-default_port :
    (c : Config) (path : Bytes) (age : Duration) (u base key : Url) (host key_host : Bytes)
    → u.scheme ≡ codes "http"
    → u.host ≡ host ++ codes ":80"
    → lookup host c.origins ≡ none
    → urls_of u key_host ≡ Urls.ok base key
    → host_config_of (store_config c path age) base.scheme base.host ≡ default_host_config
unfolding host_config_of store_config store_host_config
host_config_of-default_port c path age u base key host key_host scheme is_host unknown accepted =
    let is_base = (urls_of-ok u key_host base key accepted).3 in
    let bare : base.host ≡ host =
      ap (λ x. x.host) is_base
      ∙ ap (λ h. trim_port u.scheme h) is_host
      ∙ trim_port-default u.scheme host scheme in
    ground arith
