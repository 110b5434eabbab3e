-- ===== src/Store/World.antt =====
-- The state that the store's operations share: contents on disk by their data directory, the trash,
-- and the downloads in progress by key URL. Also store/data.go's `Data` as a handle on a directory.
use oscdn.Base.{
  ℕ, Bool, true, false, Option, none, some, List, [], ◌∷◌, if◌then◌else◌, Bytes, lookup, erase, ℤ,
  pos, Time,
}
use oscdn.Base.Http.{Header}
use oscdn.Store.Common.{Response}

-- `Data.Info`
pub record Info : Type 0 where
  pub base_url : Bytes
  pub key_url : Bytes
  pub status_code : ℤ
  pub size : ℤ
  pub created_at : Time
  pub expires_at : Time

-- The zero value of `Data.Info`.
abbrev pub zero_info : Info
zero_info = record {
  base_url = [];
  key_url = [];
  status_code = pos 0;
  size = pos 0;
  created_at = pos 0;
  expires_at = pos 0;
}

-- What the three files of a data directory hold. `file` tells one creation of the directory from
-- another: a download goes on writing to its own files after they have been moved away.
pub record Content : Type 0 where
  pub info : Info
  pub header : Header
  pub body : Bytes
  pub file : ℕ

-- What stands at a data path: a directory that can be opened, one that cannot, or no directory.
pub data Node : Type 0 where
  content : Content → Node
  broken : Node
  not_dir : Node

-- `denied` are the paths at which the operating system refuses every call.
pub record World : Type 0 where
  pub disk : List (Bytes × Node)
  pub trash : List Node
  pub downloads : List (Bytes × ℕ)
  pub next_file : ℕ
  pub released : Bool
  pub denied : Bytes → Bool

-- `Data`, with what `Open` reads; `body` is the content of the body file then.
pub record Data : Type 0 where
  pub path : Bytes
  pub info : Info
  pub header : Header
  pub body : Bytes
  pub initialized : Bool

abbrev pub new_data : Bytes → Data
new_data path = record {
  path = path;
  info = zero_info;
  header = [];
  body = [];
  initialized = false;
}

pub data Error : Type 0 where
  released invalid_url invalid_host os not_directory not_opened request not_exists cancelled : Error
  dynamic_content : Response → Error
  size_exceeded : ℤ → Error

-- The outcome of a call: a value, an error or a panic.
pub data Result {ℓ} (A : Type ℓ) : Type ℓ where
  ok : A → Result A
  err : Error → Result A
  panic : Result A

-- `Data.Open`. A handle that has been opened once stays initialized, and a second `Open` panics.
unfoldable pub open_data : World → Data → Result Data
open_data w d =
    if d.initialized
    then panic
    else if w.denied d.path
    then err not_opened
    else (elim (lookup d.path w.disk) [
      | some (content c) ↦
          ok (record d { info = c.info; header = c.header; body = c.body; initialized = true })
      | _ ↦ err not_opened
    ])

-- `Data.Close`: a handle that was never opened panics; the one closed stays initialized.
unfoldable pub close_data : Data → Result Data
close_data d = if d.initialized then ok d else panic

-- `fileutil.IsExists`; `none` is an error other than a missing file.
unfoldable pub is_exists : World → Bytes → Option Bool
is_exists w path =
    if w.denied path
    then none
    else some (elim (lookup path w.disk) [ none ↦ false | some _ ↦ true ])

-- `fileutil.IsDir` of a path that exists.
unfoldable pub is_dir : World → Bytes → Option Bool
is_dir w path = if w.denied path then none else (elim (lookup path w.disk) [
  | none ↦ none
  | some not_dir ↦ some false
  | some _ ↦ some true
])

-- `moveToTrash`: whether it moved something, or there was nothing, or it failed.
pub data Moved : Type 0 where
  moved : World → Moved
  nothing : Moved
  failed : Moved

unfoldable pub move_to_trash : World → Bytes → Moved
move_to_trash w path = if w.denied path then failed else (elim (lookup path w.disk) [
  | none ↦ nothing
  | some n ↦ moved (record w { disk = erase path w.disk; trash = n ∷ w.trash })
])
