-- ===== src/Store/Common.antt =====
-- store/common.go and the types of the store that its parts share.
use oscdn.Base.{Bool, false, Bytes, codes, ℤ, pos, Duration}
use oscdn.Base.Http.{Header}

-- `HostConfig`
pub record HostConfig : Type 0 where
  pub max_size : ℤ
  pub max_age : Duration
  pub max_age_404 : Duration
  pub max_age_override : Bool
  pub download_burst : ℤ
  pub download_rate : ℤ

-- `new(HostConfig)`
abbrev pub zero_host_config : HostConfig
zero_host_config = record {
  max_size = pos 0;
  max_age = pos 0;
  max_age_404 = pos 0;
  max_age_override = false;
  download_burst = pos 0;
  download_rate = pos 0;
}

-- `CacheStatus`
pub data CacheStatus : Type 0 where
  unspecified hit miss expired updating stale dynamic : CacheStatus

-- `CacheStatus.String`; the numbers outside the constants, "UNKNOWN", have no constructor.
unfoldable pub status_text : CacheStatus → Bytes
status_text unspecified = codes "UNSPECIFIED"
status_text hit = codes "HIT"
status_text miss = codes "MISS"
status_text expired = codes "EXPIRED"
status_text updating = codes "UPDATING"
status_text stale = codes "STALE"
status_text dynamic = codes "DYNAMIC"

-- `ContentRange`
pub record ContentRange : Type 0 where
  pub start : ℤ
  pub end : ℤ

-- What the store reads of an `http.Response`; the body is what the origin sends.
pub record Response : Type 0 where
  pub status_code : ℤ
  pub content_length : ℤ
  pub header : Header
  pub body : Bytes
