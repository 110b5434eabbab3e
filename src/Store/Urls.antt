-- ===== src/Store/Urls.antt =====
-- store/store.go, `getURLs` and `getDataPath`: where a content comes from, under which key it is
-- kept, and its directory. `url.Parse`, `URL.String` and the hash are parameters.
pub mod Hosts
pub mod Distinct
use oscdn.Base.{
  ℕ, ◌+◌, ◌-◌, ◌/◌, ◌%◌, Bool, true, false, not, ◌&&◌, ◌||◌, Option, none, some, List, [], ◌∷◌,
  ◌++◌, ltb, leb, ◌==◌, if◌then◌else◌, length, Bytes, codes, str_eq,
}
use oscdn.Base.Strings.{split, split_two, trim_suffix, is_digit}

-- What the store reads of a `url.URL`; `user` says whether there is user information.
pub record Url : Type 0 where
  pub scheme : Bytes
  pub opaque : Bytes
  pub user : Bool
  pub host : Bytes
  pub path : Bytes
  pub raw_query : Bytes
  pub fragment : Bytes

abbrev pub is_host_byte : ℕ → Bool
is_host_byte c = (leb b'A' c && leb c b'Z') || (leb b'a' c && leb c b'z') || is_digit c || c == b'-'

unfoldable pub all_bytes : (ℕ → Bool) → Bytes → Bool
all_bytes f [] = true
all_bytes f (c ∷ s) = f c && all_bytes f s

-- `[A-Za-z0-9-]{1,63}`
unfoldable pub is_label : Bytes → Bool
is_label s = ltb 0 (length s) && (leb (length s) 63 && all_bytes is_host_byte s)

unfoldable pub all_labels : List Bytes → Bool
all_labels [] = true
all_labels (l ∷ ls) = is_label l && all_labels ls

-- `(:[0-9]{1,5})?`, behind the colon.
unfoldable pub is_port : Option Bytes → Bool
is_port none = true
is_port (some s) = ltb 0 (length s) && (leb (length s) 5 && all_bytes is_digit s)

-- `hostRgx.MatchString`: labels joined by dots, and an optional port. No label holds a colon, so the
-- port begins at the first.
unfoldable pub match_host : Bytes → Bool
match_host s =
    let (labels, port) = split_two s b':' in all_labels (split labels b'.') && is_port port

pub data UrlError : Type 0 where
  not_parsed invalid_raw_url invalid_base_host invalid_key_host : UrlError

pub data Urls : Type 0 where
  ok : (base key : Url) → Urls
  err : UrlError → Urls

abbrev is_http : Bytes → Bool
is_http s = str_eq s (codes "http")

abbrev is_https : Bytes → Bool
is_https s = str_eq s (codes "https")

-- The default port of the scheme is left out of a host.
unfoldable pub trim_port : Bytes → Bytes → Bytes
trim_port scheme host =
    if is_http scheme
    then trim_suffix host (codes ":80")
    else if is_https scheme
    then trim_suffix host (codes ":443")
    else host

unfoldable pub is_valid_url : Url → Bool
is_valid_url u =
    (is_http u.scheme || is_https u.scheme)
    && (str_eq u.opaque [] && (not u.user && (not (str_eq u.host []) && str_eq u.fragment [])))

abbrev pub plain_url : Bytes → Bytes → Url → Url
plain_url scheme host u = record {
  scheme = scheme;
  opaque = [];
  user = false;
  host = host;
  path = u.path;
  raw_query = u.raw_query;
  fragment = [];
}

-- `getURLs` behind `url.Parse`. An empty host stands for the one of the URL.
unfoldable pub urls_of : Url → Bytes → Urls
urls_of u host =
    let key_host = if str_eq host [] then u.host else host in
    if not (is_valid_url u)
    then err invalid_raw_url
    else if not (match_host u.host)
    then err invalid_base_host
    else if not (match_host key_host)
    then err invalid_key_host
    else ok (plain_url u.scheme (trim_port u.scheme u.host) u)
        (plain_url u.scheme (trim_port u.scheme key_host) u)

unfoldable pub get_urls : (Bytes → Option Url) → Bytes → Bytes → Urls
get_urls parse_url raw_url host = elim (parse_url raw_url) [
  | none ↦ err not_parsed
  | some u ↦ urls_of u host
]

abbrev pub hex_digit : ℕ → ℕ
hex_digit n = if ltb n 10 then b'0' + n else b'a' + (n - 10)

-- The segments `/%04x` of the hash, two bytes in each.
unfoldable pub hash_segments : Bytes → Bytes
hash_segments [] = []
hash_segments (a ∷ []) = b'/' ∷ hex_digit (a / 16) ∷ hex_digit (a % 16) ∷ []
hash_segments (a ∷ b ∷ h) =
    b'/'
    ∷ hex_digit (a / 16)
    ∷ hex_digit (a % 16)
    ∷ hex_digit (b / 16)
    ∷ hex_digit (b % 16)
    ∷ hash_segments h

-- `getDataPath`, of the base URL's host and the text of the key URL.
unfoldable pub get_data_path : (Bytes → Bytes) → Bytes → Bytes → Bytes → Bytes
get_data_path sha256 content_path host key_url =
    content_path ++ b'/' ∷ host ++ hash_segments (sha256 key_url) ++ codes "/data"
