-- ===== src/Store/Files/Reopen.antt =====
-- What `Open` finds where `Create` has been.
use oscdn.Store.Files.{
  open_files, open_opened, Files, write_header, add_lines, read_header, Codec, create, open_read,
  open_stored, write_values, max_token, scan_pieces,
}
use oscdn.Base.{
  append-nil, append_assoc, lookup, Bool-cases, inl, inr, ◌==◌, ℕ, ◌+◌, ◌≤◌, ◌≡◌, ◌≢◌, refl, sym,
  ap, ◌∙◌, true, false, none, some, Option, List, [], ◌∷◌, ◌++◌, arith, length, Bytes, codes, All,
  All-append, length-append,
}
use oscdn.Base.Http.{Header}
use oscdn.Store.Files.Lines.{IsKey, add_lines-new, add_lines-append, IsValue, line, lines}
use oscdn.Store.World.{Data, ok}
use oscdn.Base.Strings.{split, trim_suffix}
use oscdn.Base.Strings.Laws.{Lacks, split-append}
use oscdn.Base.Strings.Parts.{trim_suffix-append}

split_some : (s : Bytes) (sep : ℕ) → (p : Bytes) × (ps : List Bytes) × (split s sep ≡ p ∷ ps)
unfolding split
split_some [] sep = ([], [], refl)
split_some (c ∷ s) sep =
    let (p, ps, e) = split_some s sep in
    elim (Bool-cases (c == sep)) [
      | inl f ↦ ([], split s sep, ground arith)
      | inr f ↦ (c ∷ p, ps, ground arith)
    ]

scan_pieces-cons :
    (p q : Bytes) (qs ls : List Bytes)
    → length p + 1 ≤ max_token
    → scan_pieces (q ∷ qs) ≡ some ls
    → scan_pieces (p ∷ q ∷ qs) ≡ some (trim_suffix p (codes "\r") ∷ ls)
unfolding scan_pieces
scan_pieces-cons p q qs ls short scanned = ground arith

-- One line of the file.
scan_pieces-line :
    (key v rest : Bytes) (ls : List Bytes)
    → Lacks b'\n' key
    → IsValue key v
    → scan_pieces (split rest b'\n') ≡ some ls
    → scan_pieces (split ((key ++ b':' ∷ b' ' ∷ (v ++ b'\r' ∷ [])) ++ b'\n' ∷ rest) b'\n')
      ≡ some (line key v ∷ ls)
unfolding scan_pieces
scan_pieces-line key v rest ls no_break is_value scanned =
    let (q, qs, e) = split_some rest b'\n' in
    let text = line key v ++ b'\r' ∷ [] in
    let same = append_assoc key (b':' ∷ b' ' ∷ v) (b'\r' ∷ []) in
    let lacks =
      All-append (λ c. c ≢ b'\n') (line key v) (b'\r' ∷ [])
        (All-append (λ c. c ≢ b'\n') key (b':' ∷ b' ' ∷ v) no_break
          (omega arith, (omega arith, is_value.one_line)))
        (omega arith, tt) in
    let short : length text + 1 ≤ max_token = omega (
      arith,
      length-append (line key v) (b'\r' ∷ []),
      length-append key (b':' ∷ b' ' ∷ v),
      is_value.fits,
    ) in
    ap (λ t. scan_pieces (split (t ++ b'\n' ∷ rest) b'\n')) (sym same)
    ∙ ap scan_pieces (split-append text rest b'\n' lacks ∙ ap (λ ps. text ∷ ps) e)
    ∙ scan_pieces-cons text q qs ls short (ap scan_pieces (sym e) ∙ scanned)
    ∙ ap (λ t. some (t ∷ ls)) (trim_suffix-append (line key v) (b'\r' ∷ []))

scan_pieces-values :
    (key : Bytes) (vs : List Bytes) (rest : Bytes) (ls : List Bytes)
    → Lacks b'\n' key
    → All (IsValue key) vs
    → scan_pieces (split rest b'\n') ≡ some ls
    → scan_pieces (split (write_values key vs ++ rest) b'\n') ≡ some (lines key vs ++ ls)
unfolding write_values
scan_pieces-values key [] rest ls no_break _ scanned = scanned
scan_pieces-values key (v ∷ vs) rest ls no_break (is_value, are_values) scanned =
    ap (λ t. scan_pieces (split t b'\n'))
      (append_assoc (key ++ b':' ∷ b' ' ∷ (v ++ b'\r' ∷ [])) (b'\n' ∷ write_values key vs) rest)
    ∙ scan_pieces-line key v (write_values key vs ++ rest) (lines key vs ++ ls) no_break is_value
        (scan_pieces-values key vs rest ls no_break are_values scanned)

abbrev header_lines : Header → List Bytes
header_lines [] = []
header_lines ((key, vs) ∷ h) = lines key vs ++ header_lines h

-- A header behind some keys that have been seen: each key is canonical, a token and new, and has
-- values, each of which goes on one line that fits.
abbrev pub IsWritable : (Bytes → Bytes) → Header → Header → Type 0
IsWritable canonical seen [] = Unit
IsWritable canonical seen ((key, vs) ∷ h) =
    IsKey canonical key
    × (lookup key seen ≡ none)
    × (vs ≢ [])
    × All (IsValue key) vs
    × IsWritable canonical (seen ++ (key, vs) ∷ []) h

scan_pieces-write_header :
    (canonical : Bytes → Bytes) (seen h : Header)
    → IsWritable canonical seen h
    → scan_pieces (split (write_header h) b'\n') ≡ some (header_lines h)
unfolding write_header scan_pieces split
scan_pieces-write_header canonical seen [] _ = refl
scan_pieces-write_header canonical seen ((key, vs) ∷ h)
      (is_key, new, some_values, are_values, rest) =
    scan_pieces-values key vs (write_header h) (header_lines h) is_key.no_break are_values
      (scan_pieces-write_header canonical (seen ++ (key, vs) ∷ []) h rest)

add_lines-header_lines :
    (canonical : Bytes → Bytes) (seen h : Header)
    → IsWritable canonical seen h
    → add_lines canonical seen (header_lines h) ≡ seen ++ h
unfolding add_lines
add_lines-header_lines canonical seen [] _ = sym (append-nil seen)
add_lines-header_lines canonical seen ((key, []) ∷ h) (is_key, new, some_values, _, rest) =
    absurd (some_values refl)
add_lines-header_lines canonical seen ((key, v ∷ vs) ∷ h) (is_key, new, _, are_values, rest) =
    add_lines-append canonical seen (lines key (v ∷ vs)) (header_lines h)
    ∙ ap (λ x. add_lines canonical x (header_lines h))
        (add_lines-new canonical seen key v vs is_key new are_values)
    ∙ add_lines-header_lines canonical (seen ++ (key, v ∷ vs) ∷ []) h rest
    ∙ append_assoc seen ((key, v ∷ vs) ∷ []) h

-- A header comes back from the file it was written to, if its keys are distinct, canonical and
-- tokens, and each has values, without line breaks and white space around them, on lines that the
-- scanner can hold.
pub read_header-write_header :
    (canonical : Bytes → Bytes) (h : Header)
    → IsWritable canonical [] h
    → read_header canonical (write_header h) ≡ some h
unfolding read_header
read_header-write_header canonical h writable = ground (
  arith,
  scan_pieces-write_header canonical [] h writable,
  add_lines-header_lines canonical [] h writable,
)

-- What `Create` has stored without a failure, a new handle finds when it opens the path: the same
-- info and header and an empty body, if the info comes back from its JSON and the header is one whose
-- keys are distinct, canonical and tokens, each with values that go on lines which the scanner can
-- hold.
pub open_stored-create :
    (codec : Codec) (d d' : Data) (there : Option Files)
    → d.initialized ≡ false
    → d'.initialized ≡ false
    → codec.decode (codec.encode d.info) ≡ some d.info
    → IsWritable codec.canonical [] d.header
    → open_stored codec d' (create codec d none there).1
      ≡ ok (record d' { info = d.info; header = d.header; body = []; initialized = true })
unfolding open_stored open_files open_opened create open_read
open_stored-create codec d d' there fresh fresh' decodes writable =
    ground (arith, decodes, read_header-write_header codec.canonical d.header writable)
