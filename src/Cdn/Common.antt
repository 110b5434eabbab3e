-- ===== src/Cdn/Common.antt =====
-- cdn/common.go, and the parts of a request and of an early answer that the handlers share.
use oscdn.Base.{ℕ, String, Bool, Option, none, Bytes, codes, ℤ}
use oscdn.Base.Http.{Header}
use oscdn.Store.Urls.{Url}

-- `HostConfig`
pub record HostConfig : Type 0 where
  pub origin_scheme : Bytes
  pub origin_host : Bytes
  pub https_redirect : Bool
  pub https_redirect_port : ℤ
  pub host_override : Bool
  pub ignore_query : Bool
  pub compression_max_size : ℤ
  pub upload_burst : ℤ
  pub upload_rate : ℤ

-- What the handlers read of an `http.Request`.
pub record Request : Type 0 where
  pub method : Bytes
  pub url : Url
  pub header : Header

-- `http.Error`, with the Location header where there is one.
pub record Refusal : Type 0 where
  pub code : ℕ
  pub text : Bytes
  pub location : Option Url

abbrev pub refuse : ℕ → String → Refusal
refuse code text = record { code = code; text = codes text; location = none }
