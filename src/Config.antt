-- ===== src/Config.antt =====
-- internal/config/config.go and internal/flags/flags.go: the configuration with its validation, and
-- what main.go makes of it. A map of the configuration is an association list; the order in which Go
-- walks it, which is open, only decides which of several errors is reported.
pub mod Hosts
pub mod Ports
pub mod Certificates
use oscdn.Base.{
  ℕ, ◌*◌, ◌||◌, Bool, Option, none, some, List, [], ◌∷◌, if◌then◌else◌, Bytes, codes, str_eq,
  lookup, insert, ℤ, pos, Duration, second,
}
use oscdn.HttpUtil.Host.{split_host}
use oscdn.Store.Common as StoreCommon
use oscdn.Store.Download
use oscdn.Cdn.Common as CdnCommon

pub record Origin : Type 0 where
  pub use_https : Bool
  pub max_size : ℤ
  pub max_age : Duration
  pub max_age_404 : Duration
  pub max_age_override : Bool
  pub download_burst : ℤ
  pub download_rate : ℤ

pub record Tls : Type 0 where
  pub cert : Bytes
  pub key : Bytes

pub record Host : Type 0 where
  pub tls : Option Tls
  pub origin : Bytes
  pub https_redirect : Bool
  pub https_redirect_port : ℤ
  pub host_override : Bool
  pub ignore_query : Bool
  pub compression_max_size : ℤ
  pub upload_burst : ℤ
  pub upload_rate : ℤ

-- `Config`
pub record Config : Type 0 where
  pub origins : List (Bytes × Origin)
  pub hosts : List (Bytes × Host)

-- `New` of what a reader gives, where `none` is an error of it; the decoding of YAML is a parameter.
unfoldable pub new_config : (Bytes → Option Config) → Option Bytes → Option Config
new_config decode none = none
new_config decode (some text) = decode text

-- `FromFile`: outside there is no file, inside it cannot be read.
unfoldable pub from_file : (Bytes → Option Config) → Option (Option Bytes) → Option Config
from_file decode none = none
from_file decode (some text) = new_config decode text

-- `Validate`: the host with an unknown origin that is reported, if there is one.
unfoldable pub unknown_origin : List (Bytes × Origin) → List (Bytes × Host) → Option Bytes
unknown_origin origins [] = none
unknown_origin origins ((k, d) ∷ hosts) = elim (lookup d.origin origins) [
  | none ↦ some k
  | some o ↦ unknown_origin origins hosts
]

unfoldable pub validate : Config → Option Bytes
unfolding unknown_origin
validate c = unknown_origin c.origins c.hosts

-- `TLSCertificates`, with `tls.X509KeyPair` as a parameter; the first bad pair is an error.
unfoldable pub certificates {ℓ} :
    {Cert : Type ℓ}
    → (Bytes → Bytes → Option Cert)
    → List (Bytes × Host)
    → Option (List (Bytes × Cert))
certificates x509_key_pair [] = some []
certificates x509_key_pair ((k, d) ∷ hosts) = elim (d.tls) [
  | none ↦ certificates x509_key_pair hosts
  | some t ↦ elim (x509_key_pair t.cert t.key) [
    | none ↦ none
    | some cert ↦ elim (certificates x509_key_pair hosts) [
      | none ↦ none
      | some certs ↦ some (insert k cert certs)
    ]
  ]
]

unfoldable pub store_config_of : Origin → StoreCommon.HostConfig
store_config_of o = record {
  max_size = o.max_size;
  max_age = o.max_age;
  max_age_404 = o.max_age_404;
  max_age_override = o.max_age_override;
  download_burst = o.download_burst;
  download_rate = o.download_rate;
}

-- The store's `GetHostConfig` in main.go.
unfoldable pub store_host_config : Config → Bytes → Bytes → Option StoreCommon.HostConfig
unfolding store_config_of
store_host_config c scheme host = elim (lookup host c.origins) [
  | none ↦ none
  | some o ↦ some (store_config_of o)
]

-- Its `DefaultHostConfig`: 1 GiB, and 24 hours.
abbrev pub default_host_config : StoreCommon.HostConfig
default_host_config = record StoreCommon.zero_host_config {
  max_size = pos (1024 * 1024 * 1024);
  max_age = pos (24 * 3600 * second);
}

unfoldable pub cdn_config_of : Host → Origin → CdnCommon.HostConfig
cdn_config_of d o = record {
  origin_scheme = if o.use_https then codes "https" else codes "http";
  origin_host = d.origin;
  https_redirect = d.https_redirect;
  https_redirect_port = d.https_redirect_port;
  host_override = d.host_override;
  ignore_query = d.ignore_query;
  compression_max_size = d.compression_max_size;
  upload_burst = d.upload_burst;
  upload_rate = d.upload_rate;
}

-- The handler's `GetHostConfig` in main.go.
unfoldable pub cdn_host_config : Config → Bytes → Bytes → Option CdnCommon.HostConfig
cdn_host_config c scheme host = elim (lookup (split_host host).0 c.hosts) [
  | none ↦ none
  | some d ↦ elim (lookup d.origin c.origins) [ none ↦ none | some o ↦ some (cdn_config_of d o) ]
]

-- The flags that `Validate` and main.go read, less the logger's, the timeouts and the idle connections
-- of the store's client.
pub record Flags : Type 0 where
  pub config : Bytes
  pub store_path : Bytes
  pub store_user_agent : Bytes
  pub store_min_content_age : Duration
  pub http : Bytes
  pub https : Bytes
  pub mgmt : Bytes
  pub listen_backlog : ℤ
  pub min_tls_version : Bytes
  pub max_conns : ℕ
  pub handle_h2c : Bool
  pub server_header : Bytes

pub data FlagsError : Type 0 where
  empty_store_path : FlagsError
  unknown_min_tls_version : Bytes → FlagsError

unfoldable pub validate_flags : Flags → Option FlagsError
validate_flags f =
    if str_eq f.store_path []
    then some empty_store_path
    else if str_eq f.min_tls_version (codes "1.0")
        || str_eq f.min_tls_version (codes "1.1")
        || str_eq f.min_tls_version (codes "1.2")
        || str_eq f.min_tls_version (codes "1.3")
    then none
    else some (unknown_min_tls_version f.min_tls_version)

-- The `switch` of main.go that sets `MinVersion`, with the numbers of crypto/tls; `none` is its panic.
unfoldable pub min_version : Bytes → Option ℕ
min_version v =
    if str_eq v (codes "1.0")
    then some 769
    else if str_eq v (codes "1.1")
    then some 770
    else if str_eq v (codes "1.2")
    then some 771
    else if str_eq v (codes "1.3")
    then some 772
    else none

-- The configuration of the store that main.go makes, with the flags for its path and minimum age.
unfoldable pub store_config : Config → Bytes → Duration → Download.Config
store_config c content_path min_content_age = record {
  content_path = content_path;
  min_content_age = min_content_age;
  default_host_config = some default_host_config;
  get_host_config = some (store_host_config c);
}
