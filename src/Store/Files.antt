-- ===== src/Store/Files.antt =====
-- store/data.go, `Create` and `Open`: the three files of a data directory. The JSON of the info file
-- and the canonical form of a header's key are parameters; `Header.Write` and `bufio.Scanner` are
-- those of Go's library.
pub mod Lines
pub mod Reopen
pub mod Handles
use oscdn.Base.{
  ℕ, ◌+◌, true, Option, none, some, List, [], ◌∷◌, ◌++◌, leb, if◌then◌else◌, length, Bytes, codes,
  str_eq,
}
use oscdn.Base.Http.{Header}
use oscdn.Base.Strings.{split, split_two, trim_suffix, trim_space}
use oscdn.Store.World.{Info, Data, Result, ok, err, panic, not_opened, os}

-- What stands at the path of a data directory: each of its files, if it is there.
pub record Files : Type 0 where
  pub info_file : Option Bytes
  pub header_file : Option Bytes
  pub body_file : Option Bytes

-- `Header.Write`: a line for each value, with the keys in the order of the list. It is the text for
-- keys that are tokens and values with no line break and no white space around them, as a client
-- delivers them.
unfoldable pub write_values : Bytes → List Bytes → Bytes
write_values key [] = []
write_values key (v ∷ vs) = (key ++ b':' ∷ b' ' ∷ (v ++ b'\r' ∷ [])) ++ b'\n' ∷ write_values key vs

unfoldable pub write_header : Header → Bytes
write_header [] = []
write_header ((key, vs) ∷ h) = write_values key vs ++ write_header h

-- `bufio.MaxScanTokenSize`; a line with its line break has to fit.
abbrev pub max_token : ℕ
max_token = 65536

-- The lines that the scanner finds, without `\r\n`, if each of them fits. What is behind the last
-- line break is a line unless it is empty.
unfoldable pub scan_pieces : List Bytes → Option (List Bytes)
scan_pieces [] = some []
scan_pieces (p ∷ []) =
    if str_eq p []
    then some []
    else if leb (length p + 1) max_token
    then some (trim_suffix p (codes "\r") ∷ [])
    else none
scan_pieces (p ∷ ps) =
    let rest = scan_pieces ps in
    if leb (length p + 1) max_token
    then (elim rest [ none ↦ none | some ls ↦ some (trim_suffix p (codes "\r") ∷ ls) ])
    else none

-- `Header.Add`, of a canonical key.
unfoldable pub header_add : Header → Bytes → Bytes → Header
header_add [] key v = (key, v ∷ []) ∷ []
header_add ((k, vs) ∷ h) key v =
    if str_eq k key then (k, vs ++ v ∷ []) ∷ h else (k, vs) ∷ header_add h key v

module _ (canonical : Bytes → Bytes) where
  -- A line cut at its first colon.
  unfoldable pub add_field : Header → Bytes × Option Bytes → Header
  add_field h (key, none) = header_add h (canonical key) []
  add_field h (key, some v) = header_add h (canonical key) (trim_space v)

  -- The body of the loop over the lines.
  unfoldable pub add_line : Header → Bytes → Header
  add_line h text = if str_eq text [] then h else add_field h (split_two text b':')

  unfoldable pub add_lines : Header → List Bytes → Header
  add_lines h [] = h
  add_lines h (l ∷ ls) = add_lines (add_line h l) ls

  -- The loop; `none` is the error of the scanner.
  unfoldable pub read_header : Bytes → Option Header
  read_header text = elim (scan_pieces (split text b'\n')) [
    | none ↦ none
    | some ls ↦ some (add_lines [] ls)
  ]

-- Where `Create` fails, if it does: in making the directory, or in any of the steps behind it.
pub data Failure : Type 0 where
  no_directory no_files : Failure

-- What `Create` and `Open` use of the JSON and net/http packages.
pub record Codec : Type 0 where
  pub encode : Info → Bytes
  pub decode : Bytes → Option Info
  pub canonical : Bytes → Bytes

module _ (codec : Codec) where
  -- `Data.Create` of a handle, with the bytes in its body file, none yet. A failure behind the making
  -- of the directory takes all of it away.
  unfoldable pub create : Data → Option Failure → Option Files → Result Data × Option Files
  create d failure there = if d.initialized then (panic, there) else (elim failure [
    | some no_directory ↦ (err os, there)
    | some no_files ↦ (err os, none)
    | none ↦ (
      ok (record d { initialized = true; body = [] }),
      some (record {
        info_file = some (codec.encode d.info);
        header_file = some (write_header d.header);
        body_file = some [];
      }),
    )
  ])

  -- Behind the opening of the three files.
  unfoldable pub open_read : Data → (info header body : Bytes) → Result Data
  open_read d info header body = elim (codec.decode info) [
    | none ↦ err not_opened
    | some i ↦ elim (read_header codec.canonical header) [
      | none ↦ err not_opened
      | some h ↦ ok (record d { info = i; header = h; body = body; initialized = true })
    ]
  ]

  -- Behind `openFiles`.
  unfoldable pub open_opened : Data → Option (Bytes × Bytes × Bytes) → Result Data
  open_opened d none = err not_opened
  open_opened d (some (info, header, body)) = open_read d info header body

  -- `openFiles` of files that are to be there, with what they hold.
  unfoldable pub open_files : Option Files → Option (Bytes × Bytes × Bytes)
  open_files none = none
  open_files (some files) = elim (files.info_file) [
    | none ↦ none
    | some info ↦ elim (files.header_file) [
      | none ↦ none
      | some header ↦ elim (files.body_file) [ none ↦ none | some body ↦ some (info, header, body) ]
    ]
  ]

  -- `Data.Open`
  unfoldable pub open_stored : Data → Option Files → Result Data
  open_stored d there = if d.initialized then panic else open_opened d (open_files there)
