-- ===== src/Store/Expires.antt =====
-- store/utils.go, `httpExpires`, and the part of `startDownload` in store/store.go that decides how
-- long a response is kept and whether it is kept at all. `time.Parse` is a parameter.
pub mod Bounds
use oscdn.Base.{
  ℕ, Bool, not, ◌&&◌, ◌||◌, Option, none, some, [], if◌then◌else◌, Bytes, codes, str_eq, ℤ, pos,
  ◌+ℤ◌, ltb_ℤ, leb_ℤ, Duration, Time,
}
use oscdn.Base.Http.{Header, get}
use oscdn.HttpUtil.CacheControl.{CacheControl, parse_cache_control, max_age, s_max_age, no_cache}
use oscdn.Store.Common.{HostConfig, Response}

-- The zero `time.Time`, at which `IsZero` holds.
abbrev pub zero_time : Time
zero_time = pos 0

abbrev pub is_zero : Time → Bool
is_zero t = leb_ℤ t zero_time && leb_ℤ zero_time t

-- `max-age`, or else `s-maxage`.
unfoldable pub effective_age : CacheControl → Duration
effective_age cc = if ltb_ℤ (max_age cc) (pos 0) then s_max_age cc else max_age cc

unfoldable pub cache_control_expires : CacheControl → Time → Time
cache_control_expires cc now =
    if no_cache cc
    then zero_time
    else if leb_ℤ (pos 0) (effective_age cc)
    then now +ℤ effective_age cc
    else zero_time

-- A text that does not parse is the zero time; what lies before now becomes now.
unfoldable pub header_expires : Option Time → Time → Time
header_expires parsed now =
    let expires : Time = elim parsed [ none ↦ zero_time | some t ↦ t ] in
    if ltb_ℤ expires now then now else expires

module _ (parse_time : Bytes → Option Time) where
  -- `httpExpires`; `none` is a panic.
  unfoldable pub http_expires : Header → Time → Option Time
  http_expires header now =
      if not (ltb_ℤ zero_time now)
      then none
      else if not (str_eq (get header (codes "Cache-Control")) [])
      then (elim (parse_cache_control (get header (codes "Cache-Control"))) [
        | none ↦ none
        | some cc ↦ some (cache_control_expires cc now)
      ])
      else if not (str_eq (get header (codes "Expires")) [])
      then some (header_expires (parse_time (get header (codes "Expires"))) now)
      else some zero_time

-- The age that the configuration gives.
unfoldable pub config_expires : HostConfig → ℤ → Time → Time
config_expires cfg status now =
    if ltb_ℤ (pos 0) cfg.max_age_404 && (leb_ℤ status (pos 404) && leb_ℤ (pos 404) status)
    then now +ℤ cfg.max_age_404
    else if ltb_ℤ (pos 0) cfg.max_age
    then now +ℤ cfg.max_age
    else now

-- A time from the headers only shortens the age.
unfoldable pub limit_expires : Time → Time → Time
limit_expires expires base =
    if not (is_zero expires) && not (ltb_ℤ base expires) then expires else base

-- `MinContentAge` lengthens it.
unfoldable pub raise_expires : Duration → Time → Time → Time
raise_expires min_age now expires =
    if ltb_ℤ (pos 0) min_age && ltb_ℤ expires (now +ℤ min_age) then now +ℤ min_age else expires

module _ (parse_time : Bytes → Option Time) (min_age : Duration) where
  -- `data.Info.ExpiresAt` before the test for dynamic content.
  unfoldable pub content_expires : HostConfig → Response → Time → Option Time
  content_expires cfg resp now =
      let base = config_expires cfg resp.status_code now in
      if cfg.max_age_override
      then some (raise_expires min_age now base)
      else (elim (http_expires parse_time resp.header now) [
        | none ↦ none
        | some expires ↦ some (raise_expires min_age now (limit_expires expires base))
      ])

-- The test for content that is not kept.
unfoldable pub is_dynamic : Response → Time → Time → Bool
is_dynamic resp expires now =
    let is_status = λ (n : ℕ). leb_ℤ resp.status_code (pos n) && leb_ℤ (pos n) resp.status_code in
    ((not (is_status 200) || ltb_ℤ resp.content_length (pos 0)) && not (is_status 404))
    || not (ltb_ℤ now expires)
