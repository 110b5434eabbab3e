-- ===== src/HttpUtil/CacheControl.antt =====
-- httputil/cachecontrol.go: the directives of a Cache-Control header and the durations in them.
pub mod Directives
pub mod Durations
use oscdn.Base.{
  ◌-◌, ◌^◌, Bool, true, false, Option, none, some, List, [], ◌∷◌, if◌then◌else◌, Bytes, codes,
  str_eq, lookup, insert, ℤ, pos, negsuc, ◌*ℤ◌, wrap64, Duration, second,
}
use oscdn.Base.Strings.{parse_int}
use oscdn.HttpUtil.Options.{HeaderOption, parse_options}

-- `CacheControl`, a map.
abbrev pub CacheControl : Type 0
CacheControl = List (Bytes × Bytes)

-- One round of the loop: the first pair of the option is written into the map. `none` is the panic
-- of `opt.KeyVals[0]` on an option with no pair.
unfoldable pub add_directive : CacheControl → HeaderOption → Option CacheControl
add_directive c opt = elim (opt.key_vals) [ [] ↦ none | kv ∷ _ ↦ some (insert kv.key kv.val c) ]

unfoldable pub add_directives : CacheControl → List HeaderOption → Option CacheControl
add_directives c [] = some c
add_directives c (opt ∷ opts) = elim (add_directive c opt) [
  | none ↦ none
  | some c' ↦ add_directives c' opts
]

-- `ParseCacheControl`
unfoldable pub parse_cache_control : Bytes → Option CacheControl
parse_cache_control directive = add_directives [] (parse_options directive)

-- `timedDirective`: -1 where the key is missing or its value is no number, the default where the
-- value is empty. The product is that of `int64`.
unfoldable pub timed_directive : CacheControl → Bytes → Duration → Duration
timed_directive c key def = elim (lookup key c) [
  | none ↦ negsuc 0
  | some s ↦
      if str_eq s []
      then def
      else elim (parse_int s) [ none ↦ negsuc 0 | some x ↦ wrap64 (x *ℤ pos second) ]
]

unfoldable pub max_age : CacheControl → Duration
max_age c = timed_directive c (codes "max-age") (negsuc 0)

unfoldable pub max_stale : CacheControl → Duration
max_stale c = timed_directive c (codes "max-stale") (pos (2 ^ 63 - 1))

unfoldable pub min_fresh : CacheControl → Duration
min_fresh c = timed_directive c (codes "min-fresh") (negsuc 0)

unfoldable pub s_max_age : CacheControl → Duration
s_max_age c = timed_directive c (codes "s-maxage") (negsuc 0)

-- `_, ok := c[key]`
abbrev pub has : CacheControl → Bytes → Bool
has c key = elim (lookup key c) [ none ↦ false | some _ ↦ true ]

unfoldable pub no_cache : CacheControl → Bool
no_cache c = has c (codes "no-cache")

unfoldable pub no_store : CacheControl → Bool
no_store c = has c (codes "no-store")

unfoldable pub no_transform : CacheControl → Bool
no_transform c = has c (codes "no-transform")

unfoldable pub only_if_cached : CacheControl → Bool
only_if_cached c = has c (codes "only-if-cached")

unfoldable pub must_revalidate : CacheControl → Bool
must_revalidate c = has c (codes "must-revalidate")

unfoldable pub proxy_revalidate : CacheControl → Bool
proxy_revalidate c = has c (codes "proxy-revalidate")

unfoldable pub is_private : CacheControl → Bool
is_private c = has c (codes "private")

unfoldable pub is_public : CacheControl → Bool
is_public c = has c (codes "public")
