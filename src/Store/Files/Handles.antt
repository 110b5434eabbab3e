-- ===== src/Store/Files/Handles.antt =====
-- store/data.go, the open files behind a `Data`: `openFiles`, `closeFiles`, and what `Create`, `Open`
-- and `Close` do with them, errors of the system included. What the files hold is in Store.Files.
pub mod Tidy
use oscdn.Base.{
  ℕ, ◌+◌, Bool, true, false, not, ◌&&◌, Option, none, some, List, [], ◌∷◌, if◌then◌else◌,
}

-- An `*os.File`: nil, open, or closed.
pub data Fd : Type 0 where
  nil opened closed : Fd

-- `Data`, less what it holds.
pub record Handle : Type 0 where
  pub initialized : Bool
  pub close_done : Bool
  pub info_fd : Fd
  pub header_fd : Fd
  pub body_fd : Fd

-- The three files.
pub data File : Type 0 where
  info header body : File

-- What the system answers during a call: to `os.MkdirAll`, to the opening and the closing of each
-- file, and whether the writes of `Create` or the reads of `Open` succeed.
pub record Answers : Type 0 where
  pub made : Bool
  pub opens : File → Bool
  pub closes : File → Bool
  pub transferred : Bool

pub data Outcome : Type 0 where
  done panicked : Outcome
  failed_dir failed_open failed_transfer failed_close : Outcome

-- `File.Close`: whether it reports an error. A file that is closed already is one.
unfoldable pub close_fd : Bool → Fd → Bool × Fd
close_fd closes nil = (false, nil)
close_fd closes opened = (not closes, closed)
close_fd closes closed = (true, closed)

unfoldable pub first_error : Bool → File → Option File → Option File
first_error failed file (some f) = some f
first_error failed file none = if failed then some file else none

-- `closeFiles`: the first file whose closing fails, and the handle behind it.
unfoldable pub close_fds : Handle → Answers → Option File × Handle
close_fds h env =
    let (e, i) = close_fd (env.closes info) h.info_fd in
    let (e', t) = close_fd (env.closes header) h.header_fd in
    let (e'', b) = close_fd (env.closes body) h.body_fd in
    (
      first_error e'' body (first_error e' header (first_error e info none)),
      record h { info_fd = i; header_fd = t; body_fd = b },
    )

-- `os.OpenFile` gives nil with an error.
unfoldable pub opened_or_nil : Bool → Fd
opened_or_nil true = opened
opened_or_nil false = nil

-- `openFiles`: whether it succeeds. What it has opened before an error is closed.
unfoldable pub open_fds : Handle → Answers → Bool × Handle
open_fds h env =
    let one = record h { info_fd = opened_or_nil (env.opens info) } in
    let two = record one { header_fd = opened_or_nil (env.opens header) } in
    let three = record two { body_fd = opened_or_nil (env.opens body) } in
    if not (env.opens info)
    then (false, (close_fds one env).1)
    else if not (env.opens header)
    then (false, (close_fds two env).1)
    else if not (env.opens body)
    then (false, (close_fds three env).1)
    else (true, three)

-- Behind `openFiles`, in both `Create` and `Open`.
unfoldable pub transfer_fds : Bool × Handle → Answers → Outcome × Handle
transfer_fds (false, h) env = (failed_open, h)
transfer_fds (true, h) env =
    if env.transferred
    then (done, record h { initialized = true })
    else (failed_transfer, (close_fds h env).1)

-- `Create`
unfoldable pub create_handle : Handle → Answers → Outcome × Handle
create_handle h env =
    if h.initialized
    then (panicked, h)
    else if not env.made
    then (failed_dir, h)
    else transfer_fds (open_fds h env) env

-- `Open`
unfoldable pub open_handle : Handle → Answers → Outcome × Handle
open_handle h env = if h.initialized then (panicked, h) else transfer_fds (open_fds h env) env

-- `Close`
unfoldable pub close_handle : Handle → Answers → Outcome × Handle
close_handle h env =
    let (e, h') = close_fds (record h { close_done = true }) env in
    if not h.initialized
    then (panicked, h)
    else if h.close_done
    then (done, h)
    else (elim e [ none ↦ done | some f ↦ failed_close ], h')

-- A handle that is new.
abbrev pub new_handle : Handle
new_handle = record {
  initialized = false;
  close_done = false;
  info_fd = nil;
  header_fd = nil;
  body_fd = nil;
}

pub data Use : Type 0 where
  create_it open_it close_it : Use

unfoldable pub use_handle : Handle → Use × Answers → Outcome × Handle
use_handle h (create_it, env) = create_handle h env
use_handle h (open_it, env) = open_handle h env
use_handle h (close_it, env) = close_handle h env

unfoldable pub use_all : Handle → List (Use × Answers) → Handle
use_all h [] = h
use_all h (u ∷ us) = use_all (use_handle h u).1 us

unfoldable pub counts : Fd → ℕ
counts opened = 1
counts _ = 0

-- How many files are open.
unfoldable pub open_count : Handle → ℕ
open_count h = counts h.info_fd + counts h.header_fd + counts h.body_fd
