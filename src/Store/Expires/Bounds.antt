-- ===== src/Store/Expires/Bounds.antt =====
-- How long a response is kept: total, never in the past, and within the configured ages.
use oscdn.Base.{
  ◌↔◌, ◌⊎◌, inl, inr, ◌≡◌, refl, ◌≢◌, true, false, Option, some, [], arith, Bool-cases, Bytes,
  codes, str_eq, ℤ, pos, ◌+ℤ◌, ◌≤ℤ◌, ◌<ℤ◌, +ℤ_parts, Duration, Time,
}
use oscdn.Base.Http.{Header, get}
use oscdn.HttpUtil.CacheControl.{CacheControl, parse_cache_control, no_cache}
use oscdn.HttpUtil.CacheControl.Directives.{parse_cache_control-last_val}
use oscdn.Store.Common.{HostConfig, Response}
use oscdn.Store.Expires.{
  zero_time, effective_age, cache_control_expires, header_expires, http_expires, config_expires,
  limit_expires, raise_expires, content_expires, is_dynamic,
}

-- A time that the headers give is the zero time or not before now.
abbrev pub IsPresent : Time → Time → Type 0
IsPresent now t = (t ≡ zero_time) ⊎ (now ≤ℤ t)

cache_control_expires-IsPresent :
    (cc : CacheControl) (now : Time) → IsPresent now (cache_control_expires cc now)
unfolding cache_control_expires
cache_control_expires-IsPresent cc now = ground (arith, +ℤ_parts now (effective_age cc))

header_expires-le : (parsed : Option Time) (now : Time) → now ≤ℤ header_expires parsed now
unfolding header_expires
header_expires-le parsed now = ground arith

-- From any instant after the zero time the function returns, whatever the headers hold.
pub http_expires-IsPresent :
    (parse_time : Bytes → Option Time) (header : Header) (now : Time)
    → zero_time <ℤ now
    → (t : Time) × (http_expires parse_time header now ≡ some t) × IsPresent now t
unfolding http_expires
http_expires-IsPresent parse_time header now h =
    let control = get header (codes "Cache-Control") in
    let text = get header (codes "Expires") in
    let (cc, parsed, _) = parse_cache_control-last_val control in
    elim (Bool-cases (str_eq control [])) [
      | inr e ↦ (cache_control_expires cc now, ground arith, cache_control_expires-IsPresent cc now)
      | inl e ↦ elim (Bool-cases (str_eq text [])) [
        | inr e' ↦ (
          header_expires (parse_time text) now,
          ground arith,
          inr (header_expires-le (parse_time text) now),
        )
        | inl e' ↦ (zero_time, ground arith, inl refl)
      ]
    ]

config_expires-le :
    (cfg : HostConfig) (status : ℤ) (now : Time) → now ≤ℤ config_expires cfg status now
unfolding config_expires
config_expires-le cfg status now =
    ground (arith, +ℤ_parts now cfg.max_age, +ℤ_parts now cfg.max_age_404)

limit_expires_bounds :
    (now t base : Time)
    → IsPresent now t
    → now ≤ℤ base
    → (now ≤ℤ limit_expires t base) × (limit_expires t base ≤ℤ base)
unfolding limit_expires
limit_expires_bounds now t base (inl e) h = rw e (h, omega arith)
limit_expires_bounds now t base (inr p) h = ground arith

-- The bounds that an expiry time meets, with the configured time `base`.
pub record IsExpiry (min_age : Duration) (now base e : Time) : Type 0 where
  pub present : now ≤ℤ e
  pub at_least : pos 0 <ℤ min_age → now +ℤ min_age ≤ℤ e
  pub at_most : (e ≤ℤ base) ⊎ (e ≡ now +ℤ min_age)

raise_expires-IsExpiry :
    (min_age : Duration) (now base t : Time)
    → now ≤ℤ t
    → t ≤ℤ base
    → IsExpiry min_age now base (raise_expires min_age now t)
unfolding raise_expires
raise_expires-IsExpiry min_age now base t low high = record {
  present = ground (arith, +ℤ_parts now min_age);
  at_least = λ h. ground (arith, +ℤ_parts now min_age);
  at_most = ground (arith, +ℤ_parts now min_age);
}

-- A response that arrives after the zero time always gets an expiry time. It is not before now, is
-- at least the minimum age away where one is configured, and is later than the configured time only
-- where the minimum age says so.
pub content_expires-IsExpiry :
    (parse_time : Bytes → Option Time) (min_age : Duration) (cfg : HostConfig) (resp : Response)
    (now : Time)
    → zero_time <ℤ now
    → (e : Time) × (content_expires parse_time min_age cfg resp now ≡ some e)
      × IsExpiry min_age now (config_expires cfg resp.status_code now) e
unfolding content_expires
content_expires-IsExpiry parse_time min_age cfg resp now h =
    let base = config_expires cfg resp.status_code now in
    let low : now ≤ℤ base = config_expires-le cfg resp.status_code now in
    let (t, found, present) = http_expires-IsPresent parse_time resp.header now h in
    let (from_now, to_base) = limit_expires_bounds now t base present low in
    elim (Bool-cases cfg.max_age_override) [
      | inl over ↦ (
        raise_expires min_age now base,
        ground arith,
        raise_expires-IsExpiry min_age now base base low (omega arith),
      )
      | inr free ↦ (
        raise_expires min_age now (limit_expires t base),
        ground (arith, found),
        raise_expires-IsExpiry min_age now base (limit_expires t base) from_now to_base,
      )
    ]

http_expires-no_cache :
    (parse_time : Bytes → Option Time) (header : Header) (now : Time) (cc : CacheControl)
    → zero_time <ℤ now
    → get header (codes "Cache-Control") ≢ []
    → parse_cache_control (get header (codes "Cache-Control")) ≡ some cc
    → no_cache cc ≡ true
    → http_expires parse_time header now ≡ some zero_time
unfolding http_expires cache_control_expires
http_expires-no_cache parse_time header now cc h ne parsed flag = ground arith

-- A response that arrives after the zero time and whose Cache-Control says `no-cache` gets the
-- expiry time of the configuration, raised to the minimum age, whatever else its headers say: as if
-- no header limited its age.
pub content_expires-no_cache :
    (parse_time : Bytes → Option Time) (min_age : Duration) (cfg : HostConfig) (resp : Response)
    (now : Time) (cc : CacheControl)
    → zero_time <ℤ now
    → get resp.header (codes "Cache-Control") ≢ []
    → parse_cache_control (get resp.header (codes "Cache-Control")) ≡ some cc
    → no_cache cc ≡ true
    → content_expires parse_time min_age cfg resp now
      ≡ some (raise_expires min_age now (config_expires cfg resp.status_code now))
unfolding content_expires limit_expires
content_expires-no_cache parse_time min_age cfg resp now cc h ne parsed flag =
    ground (arith, http_expires-no_cache parse_time resp.header now cc h ne parsed flag)

-- Exactly the responses that are kept: a complete 200 of known length, or a 404, whose expiry lies
-- after now.
pub is_dynamic-eq-false_iff :
    (resp : Response) (expires now : Time)
    → (is_dynamic resp expires now ≡ false) ↔ (
        (((resp.status_code ≡ pos 200) × (pos 0 ≤ℤ resp.content_length))
          ⊎ (resp.status_code ≡ pos 404))
        × (now <ℤ expires))
unfolding is_dynamic
is_dynamic-eq-false_iff resp expires now = ground arith
