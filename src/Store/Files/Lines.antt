-- ===== src/Store/Files/Lines.antt =====
-- The lines of a header file, and what is read from them.
use oscdn.Base.Strings.Laws.{Lacks, split_two-append, append-cons-ne-nil}
use oscdn.Base.Strings.{trim_left, trim_space}
use oscdn.Store.Files.{add_line, add_lines, add_field, header_add, max_token}
use oscdn.Base.{
  append-nil, append_assoc, ap, sym, ◌∙◌, All, ◌+◌, ◌≤◌, ◌≡◌, refl, none, List, [], ◌∷◌, ◌++◌,
  arith, length, Bytes, str_eq_iff, lookup,
}
use oscdn.Base.Http.{Header}

-- A value that `Header.Write` puts on one line, which fits.
pub record IsValue (key v : Bytes) : Type 0 where
  pub one_line : Lacks b'\n' v
  pub trimmed : trim_space v ≡ v
  pub fits : length key + length v + 4 ≤ max_token

-- A canonical key that is a token.
pub record IsKey (canonical : Bytes → Bytes) (key : Bytes) : Type 0 where
  pub is_canonical : canonical key ≡ key
  pub no_colon : Lacks b':' key
  pub no_break : Lacks b'\n' key

abbrev pub line : Bytes → Bytes → Bytes
line key v = key ++ b':' ∷ b' ' ∷ v

abbrev pub lines : Bytes → List Bytes → List Bytes
lines key [] = []
lines key (v ∷ vs) = line key v ∷ lines key vs

trim_space-space : (v : Bytes) → trim_space (b' ' ∷ v) ≡ trim_space v
unfolding trim_space trim_left
trim_space-space v = ground arith

header_add-new :
    (h : Header) (key v : Bytes)
    → lookup key h ≡ none
    → header_add h key v ≡ h ++ (key, v ∷ []) ∷ []
unfolding header_add lookup
header_add-new [] key v new = refl
header_add-new ((k, vs) ∷ h) key v new = ground (arith, str_eq_iff k key, header_add-new h key v)

header_add-last :
    (h : Header) (key v : Bytes) (vs : List Bytes)
    → lookup key h ≡ none
    → header_add (h ++ (key, vs) ∷ []) key v ≡ h ++ (key, vs ++ v ∷ []) ∷ []
unfolding header_add lookup
header_add-last [] key v vs new = ground (arith, str_eq_iff key key)
header_add-last ((k, ws) ∷ h) key v vs new =
    ground (arith, str_eq_iff k key, header_add-last h key v vs)

add_line-line :
    (canonical : Bytes → Bytes) (h : Header) (key v : Bytes)
    → IsKey canonical key
    → trim_space v ≡ v
    → add_line canonical h (line key v) ≡ header_add h key v
unfolding add_line add_field
add_line-line canonical h key v is_key trimmed = ground (
  arith,
  split_two-append key (b' ' ∷ v) b':' is_key.no_colon,
  str_eq_iff (line key v) [],
  append-cons-ne-nil key b':' (b' ' ∷ v),
  trim_space-space v,
  trimmed,
  is_key.is_canonical,
)

-- The lines of a key that has some values already.
add_lines-more :
    (canonical : Bytes → Bytes) (h : Header) (key : Bytes) (ws vs : List Bytes)
    → IsKey canonical key
    → lookup key h ≡ none
    → All (IsValue key) vs
    → add_lines canonical (h ++ (key, ws) ∷ []) (lines key vs) ≡ h ++ (key, ws ++ vs) ∷ []
unfolding add_lines
add_lines-more canonical h key ws [] is_key new _ =
    ap (λ x. h ++ (key, x) ∷ []) (sym (append-nil ws))
add_lines-more canonical h key ws (v ∷ vs) is_key new (is_value, are_values) =
    ap (λ x. add_lines canonical x (lines key vs))
      (add_line-line canonical (h ++ (key, ws) ∷ []) key v is_key is_value.trimmed
        ∙ header_add-last h key v ws new)
    ∙ add_lines-more canonical h key (ws ++ v ∷ []) vs is_key new are_values
    ∙ ap (λ x. h ++ (key, x) ∷ []) (append_assoc ws (v ∷ []) vs)

-- The lines of a key that is new, with one value at least.
pub add_lines-new :
    (canonical : Bytes → Bytes) (h : Header) (key v : Bytes) (vs : List Bytes)
    → IsKey canonical key
    → lookup key h ≡ none
    → All (IsValue key) (v ∷ vs)
    → add_lines canonical h (lines key (v ∷ vs)) ≡ h ++ (key, v ∷ vs) ∷ []
unfolding add_lines
add_lines-new canonical h key v vs is_key new (is_value, are_values) =
    ap (λ x. add_lines canonical x (lines key vs))
      (add_line-line canonical h key v is_key is_value.trimmed ∙ header_add-new h key v new)
    ∙ add_lines-more canonical h key (v ∷ []) vs is_key new are_values

pub add_lines-append :
    (canonical : Bytes → Bytes) (h : Header) (ls ms : List Bytes)
    → add_lines canonical h (ls ++ ms) ≡ add_lines canonical (add_lines canonical h ls) ms
unfolding add_lines
add_lines-append canonical h [] ms = refl
add_lines-append canonical h (l ∷ ls) ms = add_lines-append canonical (add_line canonical h l) ls ms
