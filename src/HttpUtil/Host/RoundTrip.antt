-- ===== src/HttpUtil/Host/RoundTrip.antt =====
-- `SplitHost` undoes the print `host:port`, and its parts spell the address.
use oscdn.Base.{ℕ, ◌^◌, ◌<◌, ◌≡◌, refl, true, ◌∷◌, ◌++◌, arith, Bytes}
use oscdn.Base.Strings.{format_uint}
use oscdn.Base.Strings.Laws.{
  Lacks, take-append, drop-append, parse_uint-format_uint, format_uint-Lacks, last_index-eq-none,
  last_index-append,
}
use oscdn.HttpUtil.Host.{split_host}

-- `fmt.Sprintf("%s:%d", host, port)`
unfoldable pub with_port : Bytes → ℕ → Bytes
with_port host port = host ++ b':' ∷ format_uint port

-- The print of any host with a 16-bit port is split back into the two, with no error.
pub split_host-with_port :
    (host : Bytes) (port : ℕ)
    → port < 2 ^ 16
    → split_host (with_port host port) ≡ (host, port, true)
unfolding split_host with_port
split_host-with_port host port h = ground (
  arith,
  last_index-append host (format_uint port) b':' (format_uint-Lacks b':' port refl),
  take-append host (b':' ∷ format_uint port),
  drop-append host (format_uint port) b':',
  parse_uint-format_uint port 16 h,
)

-- An address with no colon is the host, and its port is 0.
pub split_host-Lacks : (host : Bytes) → Lacks b':' host → split_host host ≡ (host, 0, true)
unfolding split_host
split_host-Lacks host h = ground (arith, last_index-eq-none host b':' h)
