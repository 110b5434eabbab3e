-- ===== src/HttpUtil/Options/WellFormed.antt =====
-- Every option that `ParseOptions` returns has a pair, its keys are not empty, and its map holds
-- the first value of each key.
use oscdn.Base.{
  ◌≡◌, refl, ◌≢◌, inl, inr, false, Option, none, some, List, [], ◌∷◌, ◌++◌, arith, leb,
  if◌then◌else◌, Bool-cases, length, All, All-append, Bytes, str_eq, str_eq_iff, lookup,
  lookup-insert,
}
use oscdn.Base.Strings.{split, split_two, trim_space}
use oscdn.Base.Strings.Laws.{trim_space_idem}
use oscdn.HttpUtil.Options.{
  OptionKeyVal, HeaderOption, empty_option, parse_key_val, add_key_val, add_key_vals, parse_option,
  add_options, parse_options, append_option,
}

-- The value of the first pair with the key.
abbrev pub first_val : Bytes → List OptionKeyVal → Option Bytes
first_val k [] = none
first_val k (kv ∷ kvs) = if str_eq kv.key k then some kv.val else first_val k kvs

pub record IsConsistent (o : HeaderOption) : Type 0 where
  pub keys : All (λ kv. (kv.key ≢ []) × (trim_space kv.key ≡ kv.key)) o.key_vals
  pub first : (k : Bytes) → lookup k o.vals ≡ first_val k o.key_vals

pub record IsWellFormed (o : HeaderOption) : Type 0 where
  pub some_pair : o.key_vals ≢ []
  pub consistent : IsConsistent o

first_val-concat :
    (k : Bytes) (kvs : List OptionKeyVal) (kv : OptionKeyVal)
    → first_val k (kvs ++ kv ∷ []) ≡ elim (first_val k kvs) [
      | some v ↦ some v
      | none ↦ if str_eq kv.key k then some kv.val else none
    ]
first_val-concat k [] kv = refl
first_val-concat k (x ∷ kvs) kv = ground (arith, first_val-concat k kvs kv)

parse_key_val-trimmed :
    (part : Bytes) → trim_space (parse_key_val part).key ≡ (parse_key_val part).key
unfolding parse_key_val
parse_key_val-trimmed part = trim_space_idem (split_two (trim_space part) b'=').0

str_eq-nil : (s : Bytes) → str_eq s [] ≡ false → s ≢ []
str_eq-nil [] h = cc
str_eq-nil (c ∷ s) h = ground arith

add_key_val-first :
    (o : HeaderOption) (part k : Bytes)
    → IsConsistent o
    → lookup k (add_key_val o part).vals ≡ first_val k (add_key_val o part).key_vals
unfolding add_key_val
add_key_val-first o part k c =
    let kv = parse_key_val part in
    ground (
      arith,
      c.first k,
      c.first kv.key,
      first_val-concat k o.key_vals kv,
      lookup-insert kv.key k kv.val o.vals,
      str_eq_iff kv.key k,
    )

add_key_val-IsConsistent :
    (o : HeaderOption) (part : Bytes) → IsConsistent o → IsConsistent (add_key_val o part)
unfolding add_key_val
add_key_val-IsConsistent o part c = record {
  keys = elim (Bool-cases (str_eq (parse_key_val part).key [])) [
    | inl e ↦ rw e c.keys
    | inr e ↦
        rw e (All-append _ o.key_vals _ c.keys ((str_eq-nil _ e, parse_key_val-trimmed part), tt))
  ];
  first = λ k. add_key_val-first o part k c;
}

add_key_vals-IsConsistent :
    (o : HeaderOption) (parts : List Bytes) → IsConsistent o → IsConsistent (add_key_vals o parts)
unfolding add_key_vals
add_key_vals-IsConsistent o [] c = c
add_key_vals-IsConsistent o (part ∷ parts) c =
    add_key_vals-IsConsistent (add_key_val o part) parts (add_key_val-IsConsistent o part c)

parse_option-IsConsistent : (o : Bytes) → IsConsistent (parse_option o)
unfolding parse_option lookup
parse_option-IsConsistent o =
    add_key_vals-IsConsistent empty_option (split (trim_space o) b';')
      (record { keys = tt; first = λ k. refl })

append_option-IsWellFormed :
    (options : List HeaderOption) (o : HeaderOption)
    → All IsWellFormed options
    → IsConsistent o
    → All IsWellFormed (append_option options o)
unfolding append_option
append_option-IsWellFormed options o h c = elim (Bool-cases (leb (length o.key_vals) 0)) [
  | inl e ↦ rw e h
  | inr e ↦ rw e (
      All-append IsWellFormed options _ h
        (record { some_pair = λ e'. absurd (length-ne e' e); consistent = c }, tt))
]
  where
    length-ne : o.key_vals ≡ [] → leb (length o.key_vals) 0 ≡ false → ⊥
    length-ne e' e = ground arith

add_options-IsWellFormed :
    (options : List HeaderOption) (parts : List Bytes)
    → All IsWellFormed options
    → All IsWellFormed (add_options options parts)
unfolding add_options
add_options-IsWellFormed options [] h = h
add_options-IsWellFormed options (o ∷ rest) h =
    add_options-IsWellFormed (append_option options (parse_option o)) rest
      (append_option-IsWellFormed options (parse_option o) h (parse_option-IsConsistent o))

-- Every option of every header value has a pair, all its keys are trimmed and not empty, and a
-- look-up in its map gives the value of the first pair with that key.
pub parse_options-IsWellFormed : (directive : Bytes) → All IsWellFormed (parse_options directive)
unfolding parse_options
parse_options-IsWellFormed directive = add_options-IsWellFormed [] (split directive b',') tt
