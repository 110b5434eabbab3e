-- ===== src/Store/Urls/Hosts.antt =====
-- The hosts that `getURLs` lets through: none leads out of the content directory, and the default
-- port of a scheme makes no difference.
use oscdn.Base.{
  Option-cases, ℕ, ◌≡◌, refl, sym, ap, subst, ◌≢◌, ◌⊎◌, inl, inr, Bool, true, false, Option, List,
  [], ◌∷◌, ◌++◌, arith, if◌then◌else◌, Bytes, codes, str_eq, str_eq_iff, All,
}
use oscdn.Base.Strings.{split, split_two, index, is_digit}
use oscdn.Base.Strings.Laws.{Lacks, split_two-append, split_two-eq-none}
use oscdn.Base.Strings.Parts.{
  split-Lacks_of, split_two-Lacks_of, trim_suffix-cases, append-Lacks, trim_suffix-append,
  trim_suffix-Lacks,
}
use oscdn.Store.Urls.{
  Url, Urls, is_host_byte, all_bytes, is_label, all_labels, is_port, match_host, trim_port,
  is_valid_url, urls_of, get_urls, plain_url,
}

all_bytes-Lacks :
    (f : ℕ → Bool) (b : ℕ) (s : Bytes) → f b ≡ false → all_bytes f s ≡ true → Lacks b s
unfolding all_bytes
all_bytes-Lacks f b [] bad h = tt
all_bytes-Lacks f b (c ∷ s) bad h =
    ((λ e. ground (arith, ap f e)), all_bytes-Lacks f b s bad (ground arith))

all_labels-Lacks :
    (b : ℕ) (ls : List Bytes) → is_host_byte b ≡ false → all_labels ls ≡ true → All (Lacks b) ls
unfolding all_labels is_label
all_labels-Lacks b [] bad h = tt
all_labels-Lacks b (l ∷ ls) bad h =
    (all_bytes-Lacks is_host_byte b l bad (ground arith), all_labels-Lacks b ls bad (ground arith))

pub match_host-Lacks : (s : Bytes) → match_host s ≡ true → Lacks b'/' s
unfolding match_host is_port
match_host-Lacks s h =
    split_two-Lacks_of b'/' b':' s (omega arith)
      (split-Lacks_of b'/' b'.' (split_two s b':').0 (omega arith)
        (all_labels-Lacks b'/' (split (split_two s b':').0 b'.') refl (ground arith)))
      (λ t e. all_bytes-Lacks is_digit b'/' t refl (ground arith))

-- A name of one directory, below the one it stands in.
pub record IsDirName (s : Bytes) : Type 0 where
  pub not_empty : s ≢ []
  pub no_slash : Lacks b'/' s
  pub not_here : s ≢ codes "."
  pub not_parent : s ≢ codes ".."

trim_port-cases :
    (scheme host t : Bytes)
    → trim_port scheme host ≡ t
    → (host ≡ t) ⊎ ((host ≡ t ++ codes ":80") ⊎ (host ≡ t ++ codes ":443"))
unfolding trim_port
trim_port-cases scheme host t h =
    ground (arith, trim_suffix-cases host (codes ":80") t, trim_suffix-cases host (codes ":443") t)

-- A host that matches, with or without its port, is none of these.
trim_port-ne :
    (scheme host t : Bytes)
    → match_host host ≡ true
    → match_host t ≡ false
    → match_host (t ++ codes ":80") ≡ false
    → match_host (t ++ codes ":443") ≡ false
    → trim_port scheme host ≢ t
trim_port-ne scheme host t h bare http https e = elim (trim_port-cases scheme host t e) [
  | inl f ↦ cc (ap match_host f)
  | inr (inl f) ↦ cc (ap match_host f)
  | inr (inr f) ↦ cc (ap match_host f)
]

trim_port-IsDirName :
    (scheme host : Bytes) → match_host host ≡ true → IsDirName (trim_port scheme host)
unfolding match_host split_two index split all_labels is_label is_port all_bytes
trim_port-IsDirName scheme host h = record {
  not_empty = trim_port-ne scheme host [] h refl refl refl;
  no_slash = elim (trim_port-cases scheme host (trim_port scheme host) refl) [
    | inl f ↦ subst (Lacks b'/') f (match_host-Lacks host h)
    | inr (inl f) ↦
        append-Lacks b'/' (trim_port scheme host) (codes ":80")
          (subst (Lacks b'/') f (match_host-Lacks host h))
    | inr (inr f) ↦
        append-Lacks b'/' (trim_port scheme host) (codes ":443")
          (subst (Lacks b'/') f (match_host-Lacks host h))
  ];
  not_here = trim_port-ne scheme host (codes ".") h refl refl refl;
  not_parent = trim_port-ne scheme host (codes "..") h refl refl refl;
}

-- What the URLs are built from.
pub urls_of-ok :
    (u : Url) (host : Bytes) (base key : Url)
    → urls_of u host ≡ Urls.ok base key
    → let key_host = if str_eq host [] then u.host else host in
      ((u.scheme ≡ codes "http") ⊎ (u.scheme ≡ codes "https"))
      × (match_host u.host ≡ true)
      × (match_host key_host ≡ true)
      × (base ≡ plain_url u.scheme (trim_port u.scheme u.host) u)
      × (key ≡ plain_url u.scheme (trim_port u.scheme key_host) u)
unfolding urls_of is_valid_url
urls_of-ok u host base key h = (
  ground (arith, str_eq_iff u.scheme (codes "http"), str_eq_iff u.scheme (codes "https")),
  ground arith,
  ground arith,
  ground arith,
  ground arith,
)

-- Whatever URL and host a caller gives: if `getURLs` accepts them, the scheme is http or https, and
-- the hosts of the base URL, which names the directory of the content, and of the key URL are each
-- the name of one directory: not empty, with no slash, and neither `.` nor `..`.
pub get_urls-IsDirName :
    (parse_url : Bytes → Option Url) (raw_url host : Bytes) (base key : Url)
    → get_urls parse_url raw_url host ≡ Urls.ok base key
    → ((base.scheme ≡ codes "http") ⊎ (base.scheme ≡ codes "https"))
      × IsDirName base.host
      × IsDirName key.host
unfolding get_urls
get_urls-IsDirName parse_url raw_url host base key h = elim (Option-cases (parse_url raw_url)) [
  | inl e ↦ ground arith
  | inr (u, e) ↦
      let (scheme, base_ok, key_ok, is_base, is_key) = urls_of-ok u host base key (ground arith) in
      (
        subst (λ x. (x.scheme ≡ codes "http") ⊎ (x.scheme ≡ codes "https")) (sym is_base) scheme,
        subst (λ x. IsDirName x.host) (sym is_base) (trim_port-IsDirName u.scheme u.host base_ok),
        subst (λ x. IsDirName x.host) (sym is_key) (trim_port-IsDirName u.scheme _ key_ok),
      )
]

match_host-not_empty : (s : Bytes) → match_host s ≡ true → str_eq s [] ≡ false
unfolding match_host split_two index split all_labels is_label
match_host-not_empty [] h = cc
match_host-not_empty (c ∷ s) h = refl

match_host-default_port :
    (host : Bytes) → Lacks b':' host → match_host (host ++ codes ":80") ≡ match_host host
unfolding match_host is_port all_bytes
match_host-default_port host h =
    ground (arith, split_two-append host (codes "80") b':' h, split_two-eq-none host b':' h)

-- For a host without a port that `getURLs` accepts, a plain http URL that names the default port
-- leads to the same base and key URLs as the one that does not, and so to the same content.
pub urls_of-default_port :
    (u : Url) (host : Bytes)
    → u.scheme ≡ codes "http"
    → Lacks b':' host
    → match_host host ≡ true
    → urls_of (record u { host = host ++ codes ":80" }) [] ≡ urls_of (record u { host = host }) []
unfolding urls_of is_valid_url trim_port
urls_of-default_port u host scheme bare matches = ground (
  arith,
  scheme,
  match_host-default_port host bare,
  match_host-not_empty host matches,
  match_host-not_empty (host ++ codes ":80"),
  trim_suffix-append host (codes ":80"),
  trim_suffix-Lacks host (codes "80") b':' bare,
)
