-- ===== src/HttpUtil/Host.antt =====
-- httputil/httputil.go: the host and port of an address, and the client's address behind proxies.
pub mod RoundTrip
use oscdn.Base.{
  ℕ, ◌+◌, Bool, true, false, not, none, some, [], ◌∷◌, if◌then◌else◌, take, drop, Bytes, codes,
  str_eq,
}
use oscdn.Base.Strings.{split, last_index, trim_space, parse_uint}
use oscdn.Base.Http.{Header, get}

-- `SplitHost`: the text before the last colon and the port behind it. The flag says that there was
-- no error; after an error the port is 0.
unfoldable pub split_host : Bytes → Bytes × ℕ × Bool
split_host addr = elim (last_index addr b':') [
  | none ↦ (addr, 0, true)
  | some idx ↦ elim (parse_uint (drop (idx + 1) addr) 16) [
    | none ↦ (take idx addr, 0, false)
    | some port ↦ (take idx addr, port, true)
  ]
]

-- `strings.Split(v, ",")[0]`
unfoldable pub first_part : Bytes → Bytes
first_part v = elim (split v b',') [ [] ↦ [] | p ∷ _ ↦ p ]

-- `GetRealIP`, of the request's headers and its host.
unfoldable pub get_real_ip : Header → Bytes → Bytes
get_real_ip header host =
    let v = get header (codes "X-Real-Ip") in
    let w = trim_space (first_part (get header (codes "X-Forwarded-For"))) in
    if not (str_eq v []) then v else if not (str_eq w []) then w else (split_host host).0
