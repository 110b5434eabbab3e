-- ===== src/HttpUtil/Options/RoundTrip.antt =====
-- Options are read back from their print.
use mathlib.Core.List.{map-append}
use oscdn.Base.Strings.{split_two}
use oscdn.Base.{
  append_assoc, ◌∙◌, append-nil, sym, false, All-append, arith, str_eq, ℕ, ◌≡◌, refl, ◌≢◌, true,
  List, [], ◌∷◌, ◌++◌, map, All, Bytes,
}
use oscdn.Base.Strings.{split, trim_space}
use oscdn.Base.Strings.Laws.{join-Lacks, append-cons-ne-nil, split-join, Lacks, split_two-append}
use oscdn.Base.Strings.Laws.{
  clean_head_of_trimmed, trim_space-append, clean_head-append, join, clean_head,
}
use oscdn.HttpUtil.Options.{
  parse_options, append_option, empty_option, add_options, HeaderOption, parse_option, add_key_vals,
  add_key_val, OptionKeyVal, parse_key_val,
}

unfoldable pub print_key_val : OptionKeyVal → Bytes
print_key_val kv = kv.key ++ b'=' ∷ kv.val

unfoldable pub print_option : List OptionKeyVal → Bytes
print_option kvs = join (map print_key_val kvs) b';'

unfoldable pub print_options : List (List OptionKeyVal) → Bytes
print_options os = join (map print_option os) b','

-- A pair that can be printed: its key is not empty and holds no mark, its value holds no comma and
-- no semicolon, and neither has white space at an end.
pub record IsClean (kv : OptionKeyVal) : Type 0 where
  pub key_some : kv.key ≢ []
  pub key_trimmed : trim_space kv.key ≡ kv.key
  pub val_trimmed : trim_space kv.val ≡ kv.val
  pub key_marks : Lacks b'=' kv.key × Lacks b';' kv.key × Lacks b',' kv.key
  pub val_marks : Lacks b';' kv.val × Lacks b',' kv.val

abbrev pub IsCleanOption : List OptionKeyVal → Type 0
IsCleanOption kvs = (kvs ≢ []) × All IsClean kvs

print_key_val-clean_head : (kv : OptionKeyVal) → IsClean kv → clean_head (print_key_val kv) ≡ true
unfolding print_key_val
print_key_val-clean_head kv c =
    clean_head-append kv.key (b'=' ∷ kv.val) c.key_some (clean_head_of_trimmed kv.key c.key_trimmed)

trim_space-print_key_val :
    (kv : OptionKeyVal) → IsClean kv → trim_space (print_key_val kv) ≡ print_key_val kv
unfolding print_key_val
trim_space-print_key_val kv c =
    trim_space-append kv.key kv.val b'=' (print_key_val-clean_head kv c) refl c.val_trimmed

parse_key_val-print : (kv : OptionKeyVal) → IsClean kv → parse_key_val (print_key_val kv) ≡ kv
unfolding parse_key_val
parse_key_val-print kv c = rw (trim_space-print_key_val kv c) (
    unfold print_key_val in
    rw (split_two-append kv.key kv.val b'=' c.key_marks.0, c.key_trimmed, c.val_trimmed))

print_key_val-Lacks :
    (kv : OptionKeyVal) (b : ℕ)
    → b'=' ≢ b
    → Lacks b kv.key
    → Lacks b kv.val
    → Lacks b (print_key_val kv)
unfolding print_key_val
print_key_val-Lacks kv b ne hk hv = All-append (λ c. c ≢ b) kv.key (b'=' ∷ kv.val) hk (ne, hv)

str_eq-nil : (s : Bytes) → s ≢ [] → str_eq s [] ≡ false
str_eq-nil [] h = absurd (h refl)
str_eq-nil (c ∷ s) h = refl

add_key_val-print :
    (o : HeaderOption) (kv : OptionKeyVal)
    → IsClean kv
    → (add_key_val o (print_key_val kv)).key_vals ≡ o.key_vals ++ kv ∷ []
unfolding add_key_val
add_key_val-print o kv c =
    rw (parse_key_val-print kv c) (ground (arith, str_eq-nil kv.key c.key_some))

add_key_vals-print :
    (kvs : List OptionKeyVal) (o : HeaderOption)
    → All IsClean kvs
    → (add_key_vals o (map print_key_val kvs)).key_vals ≡ o.key_vals ++ kvs
unfolding add_key_vals
add_key_vals-print [] o h = sym (append-nil o.key_vals)
add_key_vals-print (kv ∷ kvs) o (c, h) =
    add_key_vals-print kvs (add_key_val o (print_key_val kv)) h
    ∙ rw (add_key_val-print o kv c) (append_assoc o.key_vals (kv ∷ []) kvs)

print_key_val-ne-nil : (kv : OptionKeyVal) → print_key_val kv ≢ []
unfolding print_key_val
print_key_val-ne-nil kv = append-cons-ne-nil kv.key b'=' kv.val

trim_space-print_option :
    (kv : OptionKeyVal) (kvs : List OptionKeyVal)
    → All IsClean (kv ∷ kvs)
    → trim_space (print_option (kv ∷ kvs)) ≡ print_option (kv ∷ kvs)
unfolding print_option join
trim_space-print_option kv [] (c, _) = trim_space-print_key_val kv c
trim_space-print_option kv (q ∷ kvs) (c, h) =
    trim_space-append (print_key_val kv) (print_option (q ∷ kvs)) b';'
      (clean_head-append (print_key_val kv) _ (print_key_val-ne-nil kv)
        (print_key_val-clean_head kv c))
      refl (trim_space-print_option q kvs h)

map-print_key_val-Lacks :
    (kvs : List OptionKeyVal)
    → All IsClean kvs
    → All (Lacks b';') (map print_key_val kvs) × All (Lacks b',') (map print_key_val kvs)
map-print_key_val-Lacks [] _ = (tt, tt)
map-print_key_val-Lacks (kv ∷ kvs) (c, h) =
    let (semi, comma) = map-print_key_val-Lacks kvs h in
    (
      (print_key_val-Lacks kv b';' (omega arith) c.key_marks.1 c.val_marks.0, semi),
      (print_key_val-Lacks kv b',' (omega arith) c.key_marks.2 c.val_marks.1, comma),
    )

parse_option-print_option :
    (kvs : List OptionKeyVal) → IsCleanOption kvs → (parse_option (print_option kvs)).key_vals ≡ kvs
unfolding parse_option
parse_option-print_option [] (ne, _) = absurd (ne refl)
parse_option-print_option (kv ∷ kvs) (ne, h) = rw (trim_space-print_option kv kvs h) (
    unfold print_option in
    rw
      (split-join (print_key_val kv) (map print_key_val kvs) b';'
        (map-print_key_val-Lacks (kv ∷ kvs) h).0)
      (add_key_vals-print (kv ∷ kvs) empty_option h))

abbrev pub key_vals_of : HeaderOption → List OptionKeyVal
key_vals_of o = o.key_vals

append_option-kept :
    (options : List HeaderOption) (o : HeaderOption)
    → o.key_vals ≢ []
    → append_option options o ≡ options ++ o ∷ []
unfolding append_option
append_option-kept options o ne = ground arith

add_options-print :
    (os : List (List OptionKeyVal)) (options : List HeaderOption)
    → All IsCleanOption os
    → map key_vals_of (add_options options (map print_option os)) ≡ map key_vals_of options ++ os
unfolding add_options
add_options-print [] options h = sym (append-nil (map key_vals_of options))
add_options-print (kvs ∷ os) options (c, h) =
    let o = parse_option (print_option kvs) in
    let e : o.key_vals ≡ kvs = parse_option-print_option kvs c in
    add_options-print os (append_option options o) h
    ∙ rw (append_option-kept options o (λ none_left. c.0 (sym e ∙ none_left)), map-append, e)
        (append_assoc (map key_vals_of options) (kvs ∷ []) os)

map-print_option-Lacks :
    (os : List (List OptionKeyVal)) → All IsCleanOption os → All (Lacks b',') (map print_option os)
unfolding print_option
map-print_option-Lacks [] _ = tt
map-print_option-Lacks (kvs ∷ os) ((ne, h), hs) = (
  join-Lacks (map print_key_val kvs) b';' b',' (omega arith) (map-print_key_val-Lacks kvs h).1,
  map-print_option-Lacks os hs,
)

-- Options whose pairs are clean, each with at least one pair, are read back from their print, pair
-- by pair and in order.
pub parse_options-print_options :
    (os : List (List OptionKeyVal))
    → All IsCleanOption os
    → map key_vals_of (parse_options (print_options os)) ≡ os
unfolding parse_options print_options
parse_options-print_options [] _ =
    unfold join split add_options parse_option append_option add_key_vals add_key_val trim_space
      parse_key_val split_two in
    refl
parse_options-print_options (kvs ∷ os) h =
    rw
      (split-join (print_option kvs) (map print_option os) b','
        (map-print_option-Lacks (kvs ∷ os) h))
      (add_options-print (kvs ∷ os) [] h)
