-- ===== src/Cdn/Encoder.antt =====
-- cdn/writer.go, `SetContentEncoder`: the encoding of the answer from the Accept-Encoding header.
-- `strconv.ParseFloat`, truncated to an integer, is a parameter.
use oscdn.Base.{
  ◌≡◌, ◌&&◌, Option, none, some, List, [], ◌∷◌, arith, if◌then◌else◌, Bytes, codes, str_eq, lookup,
  ℤ, pos, negsuc, ◌≤ℤ◌, leb_ℤ,
}
use oscdn.HttpUtil.Options.{HeaderOption, parse_options}

pub data Encoding : Type 0 where
  gzip deflate : Encoding

-- The encoder and its level; -1 is the default compression of both packages.
pub record Encoder : Type 0 where
  pub encoding : Encoding
  pub level : ℤ

unfoldable pub level_of : Option ℤ → ℤ
level_of none = negsuc 0
level_of (some q) = if leb_ℤ (pos 0) q && leb_ℤ q (pos 9) then q else negsuc 0

-- `opt.Map["q"]`; a missing key reads as an empty text.
unfoldable pub quality : (Bytes → Option ℤ) → HeaderOption → Option ℤ
quality parse_float opt =
    parse_float (elim (lookup (codes "q") opt.vals) [ none ↦ [] | some q ↦ q ])

-- The first pair's key as an encoding that the writer has.
unfoldable pub encoding_of : HeaderOption → Option Encoding
encoding_of opt = elim (opt.key_vals) [
  | [] ↦ none
  | kv ∷ _ ↦
      if str_eq kv.key (codes "gzip")
      then some gzip
      else if str_eq kv.key (codes "deflate")
      then some deflate
      else none
]

-- The loop over the options.
unfoldable pub choose_encoder : (Bytes → Option ℤ) → List HeaderOption → Option Encoder
choose_encoder parse_float [] = none
choose_encoder parse_float (opt ∷ opts) =
    let rest = choose_encoder parse_float opts in
    elim (encoding_of opt) [
      | none ↦ rest
      | some e ↦ some (record { encoding = e; level = level_of (quality parse_float opt) })
    ]

-- `SetContentEncoder`, of the header's value.
unfoldable pub set_content_encoder : (Bytes → Option ℤ) → Bytes → Option Encoder
set_content_encoder parse_float accept = choose_encoder parse_float (parse_options accept)

-- The level of every encoder is one that the two packages accept, so that making it never fails.
pub choose_encoder-level :
    (parse_float : Bytes → Option ℤ) (opts : List HeaderOption) (e : Encoder)
    → choose_encoder parse_float opts ≡ some e
    → (negsuc 0 ≤ℤ e.level) × (e.level ≤ℤ pos 9)
unfolding choose_encoder level_of
choose_encoder-level parse_float [] e h = cc
choose_encoder-level parse_float (opt ∷ opts) e h =
    ground (arith, choose_encoder-level parse_float opts e)
