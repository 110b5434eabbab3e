-- ===== src/HttpUtil/Options.antt =====
-- httputil/option.go: a header value as options, split at commas, each a list of key=value pairs
-- split at semicolons. A loop is a recursion over the parts that `strings.Split` gives.
pub mod WellFormed
pub mod RoundTrip
use oscdn.Base.{
  none, some, List, [], ◌∷◌, ◌++◌, leb, if◌then◌else◌, length, Bytes, str_eq, lookup, insert,
}
use oscdn.Base.Strings.{split, split_two, trim_space}

-- `OptionKeyVal`
pub record OptionKeyVal : Type 0 where
  pub key : Bytes
  pub val : Bytes

-- `Option`: the pairs in order, and a map from keys to values.
pub record HeaderOption : Type 0 where
  pub key_vals : List OptionKeyVal
  pub vals : List (Bytes × Bytes)

abbrev pub empty_option : HeaderOption
empty_option = record { key_vals = []; vals = [] }

-- The key and the value of one part; a part with no `=` has an empty value.
unfoldable pub parse_key_val : Bytes → OptionKeyVal
parse_key_val part =
    let (key, rest) = split_two (trim_space part) b'=' in
    record { key = trim_space key; val = elim rest [ none ↦ [] | some val ↦ trim_space val ] }

-- One round of the inner loop: a pair with an empty key is skipped, and the map keeps the first
-- value of a key.
unfoldable pub add_key_val : HeaderOption → Bytes → HeaderOption
add_key_val o part =
    let kv = parse_key_val part in
    if str_eq kv.key [] then o else record {
      key_vals = o.key_vals ++ kv ∷ [];
      vals = elim (lookup kv.key o.vals) [ none ↦ insert kv.key kv.val o.vals | some _ ↦ o.vals ];
    }

unfoldable pub add_key_vals : HeaderOption → List Bytes → HeaderOption
unfolding add_key_val
add_key_vals o [] = o
add_key_vals o (part ∷ parts) = add_key_vals (add_key_val o part) parts

-- One option of the outer loop.
unfoldable pub parse_option : Bytes → HeaderOption
parse_option o = add_key_vals empty_option (split (trim_space o) b';')

-- The end of a round of the outer loop: an option with no pair is skipped.
unfoldable pub append_option : List HeaderOption → HeaderOption → List HeaderOption
append_option options option =
    if leb (length option.key_vals) 0 then options else options ++ option ∷ []

unfoldable pub add_options : List HeaderOption → List Bytes → List HeaderOption
add_options options [] = options
add_options options (o ∷ rest) = add_options (append_option options (parse_option o)) rest

-- `ParseOptions`
unfoldable pub parse_options : Bytes → List HeaderOption
parse_options directive = add_options [] (split directive b',')
