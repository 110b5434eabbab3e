-- ===== src/Store/Lifecycle.antt =====
-- store/store.go, `New` and `Release`: what they do with the lock file and the two directories. The
-- lock files are package filelock's, behind an interface; the HTTP client that `New` makes is left
-- out.
pub mod Locked
pub mod Machine
pub mod Exclusive
pub mod Waits
use oscdn.Base.{
  ◌∷◌, not, Bool, true, false, Option, none, some, ◌++◌, ◌≡◌, ◌≢◌, if◌then◌else◌, Bytes, codes,
  str_eq,
}

-- Files that exclude one another over the whole system: `create` takes one that nobody holds, or
-- fails; `release` tells whether it has worked.
pub record FileLocks (System : Type 0) : Type 0 where
  pub held : System → Bytes → Bool
  pub create : System → Bytes → Option System
  pub release : System → Bytes → Bool × System
  pub create_free : (s s' : System) (p : Bytes) → create s p ≡ some s' → held s p ≡ false
  pub create_held : (s s' : System) (p : Bytes) → create s p ≡ some s' → held s' p ≡ true
  pub create_elsewhere :
      (s s' : System) (p q : Bytes) → create s p ≡ some s' → p ≢ q → held s' q ≡ held s q
  pub release_free :
      (s : System) (p : Bytes) → (release s p).0 ≡ true → held (release s p).1 p ≡ false
  pub release_elsewhere : (s : System) (p q : Bytes) → p ≢ q → held (release s p).1 q ≡ held s q

-- What `os.Mkdir` answers.
pub data Mkdir : Type 0 where
  made exists refused : Mkdir

-- What the system answers to the other calls of `New`: `filepath.Abs`, which fails without a working
-- directory, `Truncate` of the lock file, and `os.Mkdir`.
pub record Outcomes : Type 0 where
  pub abs : Bytes → Option Bytes
  pub truncated : Bool
  pub content_dir : Mkdir
  pub trash_dir : Mkdir

-- `Store`, with the fields that these two set: whether the release has been done, the state of the
-- context, and the two cleaners.
pub record Store : Type 0 where
  pub user_agent : Bytes
  pub lock_path : Bytes
  pub content_path : Bytes
  pub trash_path : Bytes
  pub cancelled : Bool
  pub release_done : Bool
  pub content_cleaner : Bool
  pub trash_cleaner : Bool

pub data NewError : Type 0 where
  no_path no_lock no_truncate no_content_dir no_trash_dir : NewError

pub data New : Type 0 where
  failed : NewError → New
  opened : Store → New

-- `filepath.Join` of a clean absolute path and a name.
unfoldable pub join_path : Bytes → Bytes → Bytes
join_path path name = (if str_eq path (codes "/") then codes "" else path) ++ b'/' ∷ name

unfoldable pub or_default : Bytes → Bytes → Bytes
or_default text default = if str_eq text (codes "") then default else text

-- The error of `os.Mkdir`, where a directory that exists is none.
unfoldable pub mkdir_error : NewError → Mkdir → Option NewError
mkdir_error e refused = some e
mkdir_error e _ = none

-- The steps of `New` that follow the lock, up to the first error.
unfoldable pub prepare_dirs : Outcomes → Option NewError
prepare_dirs env =
    if not env.truncated
    then some no_truncate
    else (elim (mkdir_error no_content_dir env.content_dir) [
      | some e ↦ some e
      | none ↦ mkdir_error no_trash_dir env.trash_dir
    ])

unfoldable pub store_at : Bytes → Bytes → Store
store_at path user_agent = record {
  user_agent = user_agent;
  lock_path = join_path path (codes "lock");
  content_path = join_path path (codes "content");
  trash_path = join_path path (codes "trash");
  cancelled = false;
  release_done = false;
  content_cleaner = true;
  trash_cleaner = true;
}

module _ {System : Type 0} (locks : FileLocks System) where
  open locks use {create, release}

  -- The end of `New`, which has the lock: it is given back on an error.
  unfoldable pub finish_new : System → Store → Option NewError → New × System
  finish_new s st none = (opened st, s)
  finish_new s st (some e) = (failed e, (release s st.lock_path).1)

  -- `New` with an absolute path.
  unfoldable pub new_at : System → Store → Outcomes → New × System
  new_at s st env = elim (create s st.lock_path) [
    | none ↦ (failed no_lock, s)
    | some s' ↦ finish_new s' st (prepare_dirs env)
  ]

  -- `New`, of the path and the user agent that are configured.
  unfoldable pub new_store : System → Bytes → Bytes → Outcomes → New × System
  new_store s path user_agent env = elim (env.abs (or_default path (codes "."))) [
    | none ↦ (failed no_path, s)
    | some p ↦ new_at s (store_at p (or_default user_agent (codes "oscdn"))) env
  ]

  -- `Release`: whether it reports an error. The cleaners and what else the wait group counts have
  -- ended before the lock is given back.
  unfoldable pub release_store : System → Store → Bool × Store × System
  release_store s st =
      let (worked, s') = release s st.lock_path in
      let stopped = record st {
        cancelled = true;
        release_done = true;
        content_cleaner = false;
        trash_cleaner = false;
      } in
      if st.release_done then (false, st, s) else (not worked, stopped, s')
