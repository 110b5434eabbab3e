-- ===== src/Tests/Text.antt =====
-- httputil: runs of the string helpers, and the theorems on headers and addresses.
use oscdn.Base.{◌≡◌, refl, some, none, List, [], ◌∷◌, map, Bytes, codes, lookup, negsuc, arith}
use oscdn.Base.Strings.{
  split, split_two, trim_space, trim_suffix, trim_prefix, format_int, parse_int, last_index,
}
use oscdn.HttpUtil.Options.{OptionKeyVal, parse_options}
use oscdn.HttpUtil.Options.RoundTrip.{
  IsClean, key_vals_of, print_options, parse_options-print_options,
}
use oscdn.HttpUtil.CacheControl.{CacheControl, parse_cache_control}
use oscdn.HttpUtil.CacheControl.Directives.{last_val, parse_cache_control-last_val}

runs :
    (split (codes "a,,b") b',' ≡ codes "a" ∷ [] ∷ codes "b" ∷ [])
    × (trim_space (codes " a b ") ≡ codes "a b")
    × (format_int (negsuc 1204) ≡ codes "-1205")
    × (parse_int (codes "-9223372036854775808") ≡ some (negsuc 9223372036854775807))
    × (parse_int (codes "9223372036854775808") ≡ none)
    × (trim_suffix (codes "h:80") (codes ":80") ≡ codes "h")
    × (last_index (codes "a:b:c") b':' ≡ some 3)
    × (trim_prefix (codes "/a/b") (codes "/a") ≡ codes "/b")
    × (split_two (codes "q=0=1") b'=' ≡ (codes "q", some (codes "0=1")))
unfolding split trim_space format_int parse_int trim_suffix last_index trim_prefix split_two
runs = (refl, refl, refl, refl, refl, refl, refl, refl, refl)

abbrev control : Bytes
control = codes "max-age=60, no-cache; x=1, , max-age=70"

parse_cache_control-last_val_example :
    (c : CacheControl) × (parse_cache_control control ≡ some c)
    × ((k : Bytes) → lookup k c ≡ last_val k (parse_options control) none)
parse_cache_control-last_val_example = parse_cache_control-last_val control

abbrev two_options : List (List OptionKeyVal)
two_options =
    (record { key = codes "gzip"; val = [] } ∷ record { key = codes "q"; val = codes "1=2" } ∷ [])
    ∷ (record { key = codes "a b"; val = codes "c" } ∷ [])
    ∷ []

gzip_pair-IsClean : IsClean (record { key = codes "gzip"; val = [] })
unfolding trim_space
gzip_pair-IsClean = record {
  key_some = λ e. cc;
  key_trimmed = refl;
  val_trimmed = refl;
  key_marks = (omega arith, omega arith, omega arith);
  val_marks = (tt, tt);
}

q_pair-IsClean : IsClean (record { key = codes "q"; val = codes "1=2" })
unfolding trim_space
q_pair-IsClean = record {
  key_some = λ e. cc;
  key_trimmed = refl;
  val_trimmed = refl;
  key_marks = (omega arith, omega arith, omega arith);
  val_marks = (omega arith, omega arith);
}

a_pair-IsClean : IsClean (record { key = codes "a b"; val = codes "c" })
unfolding trim_space
a_pair-IsClean = record {
  key_some = λ e. cc;
  key_trimmed = refl;
  val_trimmed = refl;
  key_marks = (omega arith, omega arith, omega arith);
  val_marks = (omega arith, omega arith);
}

parse_options-print_options_example :
    map key_vals_of (parse_options (print_options two_options)) ≡ two_options
parse_options-print_options_example = parse_options-print_options two_options (
  ((λ e. cc), (gzip_pair-IsClean, (q_pair-IsClean, tt))),
  (((λ e. cc), (a_pair-IsClean, tt)), tt),
)
