-- ===== src/HttpUtil/CacheControl/Directives.antt =====
-- `ParseCacheControl` never panics, and a look-up gives the value of the last option with the key.
use oscdn.Base.{
  ap, ◌∙◌, insert, lookup-insert, ◌≡◌, refl, ◌≢◌, Option, none, some, List, [], ◌∷◌, arith,
  if◌then◌else◌, All, Bytes, str_eq, lookup,
}
use oscdn.HttpUtil.Options.{OptionKeyVal, HeaderOption, parse_options}
use oscdn.HttpUtil.Options.WellFormed.{IsWellFormed, parse_options-IsWellFormed}
use oscdn.HttpUtil.CacheControl.{CacheControl, add_directive, add_directives, parse_cache_control}

-- The value of the last option whose first pair has the key, or else the one given.
abbrev pub last_val : Bytes → List HeaderOption → Option Bytes → Option Bytes
last_val k [] old = old
last_val k (opt ∷ opts) old =
    last_val k opts
      (elim (opt.key_vals) [ [] ↦ old | kv ∷ _ ↦ if str_eq kv.key k then some kv.val else old ])

-- What the loop makes of a map and the options left.
abbrev Reads : List HeaderOption → CacheControl → Type 0
Reads opts c =
    (c' : CacheControl) × (add_directives c opts ≡ some c')
    × ((k : Bytes) → lookup k c' ≡ last_val k opts (lookup k c))

Reads-cons :
    (opt : HeaderOption) (opts : List HeaderOption) (c : CacheControl) (kvs : List OptionKeyVal)
    → opt.key_vals ≢ []
    → opt.key_vals ≡ kvs
    → ((d : CacheControl) → Reads opts d)
    → Reads (opt ∷ opts) c
unfolding add_directives add_directive
Reads-cons opt opts c [] ne e ih = absurd (ne e)
Reads-cons opt opts c (kv ∷ kvs) ne e ih =
    let (c', made, found) = ih (insert kv.key kv.val c) in
    (c', ground arith, λ k. rw e (found k ∙ ap (last_val k opts) (lookup-insert kv.key k kv.val c)))

add_directives-Reads :
    (opts : List HeaderOption) (c : CacheControl) → All IsWellFormed opts → Reads opts c
unfolding add_directives
add_directives-Reads [] c h = (c, refl, λ k. refl)
add_directives-Reads (opt ∷ opts) c (w, h) =
    Reads-cons opt opts c opt.key_vals w.some_pair refl (λ d. add_directives-Reads opts d h)

-- For every header value the parse succeeds, with no access to a missing pair, and each key of the
-- result has the value of the last option that begins with it.
pub parse_cache_control-last_val :
    (directive : Bytes)
    → (c : CacheControl) × (parse_cache_control directive ≡ some c)
      × ((k : Bytes) → lookup k c ≡ last_val k (parse_options directive) none)
unfolding parse_cache_control lookup
parse_cache_control-last_val directive =
    add_directives-Reads (parse_options directive) [] (parse_options-IsWellFormed directive)
