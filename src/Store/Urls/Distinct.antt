-- ===== src/Store/Urls/Distinct.antt =====
-- Which contents share a directory: those of one host whose keys have one hash.
use oscdn.Store.Urls.Hosts.{get_urls-IsDirName}
use oscdn.Store.Urls.{get_data_path, Url, Urls, get_urls, hex_digit, hash_segments}
use oscdn.Store.Download.{Library, Config, data_path}
use oscdn.Base.{
  codes, sym, ap, ◌∙◌, append_assoc, length, All, refl, ◌<◌, ◌/◌, ◌%◌, ℕ, ◌≡◌, [], ◌∷◌, ◌++◌, arith,
  Bytes,
}
use oscdn.Base.Strings.Laws.{Lacks}

-- The cases of a name with a slash behind it.
name-slash :
    (h k s t : Bytes)
    → Lacks b'/' h
    → Lacks b'/' k
    → h ++ b'/' ∷ s ≡ k ++ b'/' ∷ t
    → (h ≡ k) × (s ≡ t)
name-slash [] [] s t lh lk e = ground arith
name-slash [] (c ∷ k) s t lh (lc, lk) e = ground arith
name-slash (c ∷ h) [] s t (lc, lh) lk e = ground arith
name-slash (c ∷ h) (d ∷ k) s t (lc, lh) (ld, lk) e = ground (arith, name-slash h k s t lh lk)

append-cancel : (p s t : Bytes) → p ++ s ≡ p ++ t → s ≡ t
append-cancel [] s t e = e
append-cancel (c ∷ p) s t e = append-cancel p s t (ground arith)

hex_digit-injective : (m n : ℕ) → m < 16 → n < 16 → hex_digit m ≡ hex_digit n → m ≡ n
hex_digit-injective m n hm hn e = ground arith

hex_byte-injective :
    (c d : ℕ)
    → c < 256
    → d < 256
    → hex_digit (c / 16) ≡ hex_digit (d / 16)
    → hex_digit (c % 16) ≡ hex_digit (d % 16)
    → c ≡ d
hex_byte-injective c d hc hd high low =
    let h = hex_digit-injective (c / 16) (d / 16) (omega arith) (omega arith) high in
    let l = hex_digit-injective (c % 16) (d % 16) (omega arith) (omega arith) low in
    omega (arith, h, l)

-- The segments of two hashes of the same length, with something behind them.
hash_segments-injective :
    (a b : Bytes) (s t : Bytes)
    → All (λ c. c < 256) a
    → All (λ c. c < 256) b
    → length a ≡ length b
    → hash_segments a ++ s ≡ hash_segments b ++ t
    → a ≡ b
unfolding hash_segments
hash_segments-injective [] [] s t ba bb l e = refl
hash_segments-injective [] (d ∷ b) s t ba bb l e = ground arith
hash_segments-injective (c ∷ a) [] s t ba bb l e = ground arith
hash_segments-injective (c ∷ []) (d ∷ []) s t (bc, ba) (bd, bb) l e = ground arith
hash_segments-injective (c ∷ []) (d ∷ d' ∷ b) s t ba bb l e = ground arith
hash_segments-injective (c ∷ c' ∷ a) (d ∷ []) s t ba bb l e = ground arith
hash_segments-injective (c ∷ c' ∷ a) (d ∷ d' ∷ b) s t (bc, (bc', ba)) (bd, (bd', bb)) l e =
    let first : c ≡ d = hex_byte-injective c d bc bd (ground arith) (ground arith) in
    let second : c' ≡ d' = hex_byte-injective c' d' bc' bd' (ground arith) (ground arith) in
    let others : a ≡ b = hash_segments-injective a b s t ba bb (ground arith) (ground arith) in
    ground arith

-- What follows the host in a data path begins with a slash.
pub segments_slash : (hash : Bytes) → (s : Bytes) × (hash_segments hash ++ codes "/data" ≡ b'/' ∷ s)
unfolding hash_segments
segments_slash [] = (codes "data", refl)
segments_slash (a ∷ []) = (_, refl)
segments_slash (a ∷ b ∷ h) = (_, refl)

get_data_path-parts :
    (sha256 : Bytes → Bytes) (content_path h key_url : Bytes)
    → get_data_path sha256 content_path h key_url
      ≡ content_path ++ b'/' ∷ (h ++ (hash_segments (sha256 key_url) ++ codes "/data"))
unfolding get_data_path
get_data_path-parts sha256 content_path h key_url = simp append_assoc

-- The bytes of a SHA-256.
abbrev pub IsDigest : Bytes → Type 0
IsDigest hash = (length hash ≡ 32) × All (λ c. c < 256) hash

get_data_path-injective :
    (sha256 : Bytes → Bytes) (content_path h k key_url key_url' : Bytes)
    → ((s : Bytes) → IsDigest (sha256 s))
    → Lacks b'/' h
    → Lacks b'/' k
    → get_data_path sha256 content_path h key_url ≡ get_data_path sha256 content_path k key_url'
    → (h ≡ k) × (sha256 key_url ≡ sha256 key_url')
get_data_path-injective sha256 content_path h k key_url key_url' digest lh lk e =
    let (s, es) = segments_slash (sha256 key_url) in
    let (t, et) = segments_slash (sha256 key_url') in
    let (ls, bs) = digest key_url in
    let (lt, bt) = digest key_url' in
    let tails =
      append-cancel content_path (b'/' ∷ (h ++ (hash_segments (sha256 key_url) ++ codes "/data")))
        (b'/' ∷ (k ++ (hash_segments (sha256 key_url') ++ codes "/data")))
        (sym (get_data_path-parts sha256 content_path h key_url)
          ∙ e
          ∙ get_data_path-parts sha256 content_path k key_url') in
    let (host, rest) = name-slash h k s t lh lk (ground (arith, tails, es, et)) in
    (
      host,
      hash_segments-injective (sha256 key_url) (sha256 key_url') (codes "/data") (codes "/data") bs
          bt (ls ∙ sym lt) (es ∙ ap (λ x. b'/' ∷ x) rest ∙ sym et),
    )

-- If two pairs of a URL and a host that the store accepts lead to one directory, then the hosts of
-- their base URLs are the same and the texts of their key URLs have the same hash, as long as the
-- hash gives 32 bytes.
pub data_path-injective :
    (lib : Library) (cfg : Config) (raw_url host raw_url' host' : Bytes) (base key base' key' : Url)
    → ((s : Bytes) → IsDigest (lib.sha256 s))
    → get_urls lib.parse_url raw_url host ≡ Urls.ok base key
    → get_urls lib.parse_url raw_url' host' ≡ Urls.ok base' key'
    → data_path lib cfg base key ≡ data_path lib cfg base' key'
    → (base.host ≡ base'.host) × (lib.sha256 (lib.url_text key) ≡ lib.sha256 (lib.url_text key'))
unfolding data_path
data_path-injective lib cfg raw_url host raw_url' host' base key base' key' digest urls urls' e =
    let (_, is_name, _) = get_urls-IsDirName lib.parse_url raw_url host base key urls in
    let (_, is_name', _) = get_urls-IsDirName lib.parse_url raw_url' host' base' key' urls' in
    get_data_path-injective lib.sha256 cfg.content_path base.host base'.host (lib.url_text key)
      (lib.url_text key') digest is_name.no_slash is_name'.no_slash e
