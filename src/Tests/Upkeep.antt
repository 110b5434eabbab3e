-- ===== src/Tests/Upkeep.antt =====
-- store: purges, the cleaners, the files of a content and a burst, on the contents of one host.
use oscdn.Store.Follow.{
  Moves, moves, waiting, copying, done, Pipe, Follows, starts, writes, closes, reads, ends,
  read_some, end_copy, is_copying,
}
use oscdn.Store.Follow.Whole.{Follows-returns}
use oscdn.Tests.Contents.{
  empty_world, events, page, lib, cfg, path, stored, world, urls, running, running-IsRunning,
  host_config,
}
use oscdn.Store.History.{run, cleaned, step}
use oscdn.Store.History.Cache.{Reaches}
use oscdn.Store.History.Refines.{run-Reaches}
use oscdn.Base.{
  zero, suc, length, ◌%◌, ◌⊎◌, true, ◌≡◌, refl, false, none, some, List, [], ◌∷◌, ◌++◌, arith,
  Bytes, codes, lookup, ℕ, pos, ◌≤◌, ◌↔◌,
}
use oscdn.Store.Download.{Library, data_path, end_download}
use oscdn.Store.Urls.Distinct.{IsDigest, data_path-injective}
use oscdn.Store.History.Isolated.{is_own, is_sweep, step-elsewhere}
use oscdn.Store.Files.Lines.{IsKey, IsValue}
use oscdn.Base.Strings.{trim_right, trim_left, split, split_two, index, has_suffix, trim_space}
use oscdn.Store.Urls.{match_host, is_label, is_port, all_bytes, all_labels}
use oscdn.Store.Common.{HostConfig}
use oscdn.Base.Http.{Header}
use oscdn.Fileutil.{Call, walk_dir}
use oscdn.Store.World.{
  World, content, broken, Data, new_data, ok, not_exists, is_exists, is_dir, open_data,
  move_to_trash,
}
use oscdn.Store.Download.Rate.{transfer, end_download_burst}
use oscdn.Store.Purge.Host.{HostReply, is_host, purge_host, move_dir}
use oscdn.Store.Purge.Host.Forget.{purge_host-forgets}
use oscdn.Store.Purge.All.{Entry, purge_all, purge_each, stops}
use oscdn.Store.Cleaner.{Moment, not_empty, clean, clean_visit, clean_data, clean_opened}
use oscdn.Store.Cleaner.Keeps.{clean-fresh}
use oscdn.Store.Cleaner.Removes.{clean-expired}
use oscdn.Store.Cleaner.Stuck.{clean-broken}
use oscdn.Store.Trash.{Entries, nothing, file, dir, sweeps, depth, is_removable}
use oscdn.Store.Trash.Empties.{sweeps-depth}
use oscdn.Store.Files.{Codec, create, open_stored}
use oscdn.Store.Files.Reopen.{open_stored-create}

abbrev there : HostReply
there = record { exists = some true; rename_fails = false }

host_matches : is_host (codes "o") ≡ true
unfolding match_host split_two index split all_labels is_label is_port all_bytes
host_matches = refl

purge_host-forgets_example :
    ((purge_host cfg world (codes "o") there).0 ≡ none)
    × (lookup (data_path lib cfg page page) (purge_host cfg world (codes "o") there).1.disk ≡ none)
purge_host-forgets_example =
    purge_host-forgets lib cfg world (codes "o") there (codes "u") [] page page refl host_matches
      refl refl (urls (codes "u"))

abbrev entry : Bytes → HostReply → Entry
entry name reply = record { name = name; is_dir = true; cancelled = false; reply = reply }

abbrev gone : HostReply
gone = record { exists = some false; rename_fails = false }

-- The host behind it has gone since it was listed.
abbrev listing : List Entry
listing = entry (codes "o") there ∷ entry (codes "p") gone ∷ []

purge_all-not_exists : (purge_all cfg world (some listing)).0 ≡ some not_exists
unfolding purge_all purge_each purge_host stops move_dir match_host split_two index split all_labels
    is_label is_port all_bytes
purge_all-not_exists = refl

-- A walk of the content cleaner at a time, over the directories of the host.
abbrev visit : ℕ → Bytes → Call Moment
visit t p = record {
  path = p;
  is_dir = true;
  error = none;
  env = record { cancelled = false; removal = not_empty; now = pos t };
}

abbrev walk : ℕ → List (Call Moment)
walk t = visit t (codes "/c") ∷ visit t (codes "/c/o") ∷ visit t (codes "/c/o/01ab") ∷ []

clean-fresh_example :
    lookup path (clean (codes "/c") world (walk 20 ++ visit 20 path ∷ [])).1.disk
    ≡ some (content stored)
unfolding lookup
clean-fresh_example =
    clean-fresh (codes "/c") world (walk 20 ++ visit 20 path ∷ []) path stored refl (omega arith)

clean-expired_example :
    lookup path (clean (codes "/c") world (walk 70 ++ visit 70 path ∷ [])).1.disk ≡ none
unfolding lookup clean walk_dir clean_visit clean_data clean_opened is_exists is_dir open_data
    move_to_trash has_suffix
clean-expired_example =
    clean-expired (codes "/c") (visit 70 path) stored refl refl refl refl (omega arith) world
      (walk 70) [] refl refl

-- A directory that cannot be opened stands before the content that has expired.
abbrev blocked : World
blocked = record world { disk = (codes "/c/data", broken) ∷ (path, content stored) ∷ [] }

clean-broken_example :
    (clean
      (codes "/c")
      blocked
      (visit 70 (codes "/c") ∷ visit 70 (codes "/c/data") ∷ walk 70 ++ visit 70 path ∷ [])).1
    ≡ (clean (codes "/c") blocked (visit 70 (codes "/c") ∷ [])).1
unfolding lookup has_suffix
clean-broken_example =
    clean-broken (codes "/c") (visit 70 (codes "/c/data")) refl refl refl refl blocked
      (visit 70 (codes "/c") ∷ []) (walk 70 ++ visit 70 path ∷ []) refl

-- A content in the trash: a directory with its files.
abbrev trash : Entries
trash = dir false (file false (file false (file false nothing))) nothing

sweeps-depth_example : (sweeps 2 trash ≡ nothing) ↔ (depth trash ≤ 2)
unfolding is_removable
sweeps-depth_example = sweeps-depth 2 trash refl

abbrev codec : Codec
codec = record { encode = λ i. []; decode = λ s. some stored.info; canonical = λ s. s }

abbrev header : Header
header =
    (codes "Vary", codes "Accept" ∷ codes "Origin" ∷ []) ∷ (codes "Via", codes "1.1 o" ∷ []) ∷ []

abbrev handle : Data
handle = record (new_data path) { info = stored.info; header = header }

vary-IsKey : IsKey codec.canonical (codes "Vary")
vary-IsKey = record { is_canonical = refl; no_colon = omega arith; no_break = omega arith }

via-IsKey : IsKey codec.canonical (codes "Via")
via-IsKey = record { is_canonical = refl; no_colon = omega arith; no_break = omega arith }

accept-IsValue : IsValue (codes "Vary") (codes "Accept")
unfolding trim_space trim_left trim_right
accept-IsValue = record { one_line = omega arith; trimmed = refl; fits = omega arith }

origin-IsValue : IsValue (codes "Vary") (codes "Origin")
unfolding trim_space trim_left trim_right
origin-IsValue = record { one_line = omega arith; trimmed = refl; fits = omega arith }

proxy-IsValue : IsValue (codes "Via") (codes "1.1 o")
unfolding trim_space trim_left trim_right
proxy-IsValue = record { one_line = omega arith; trimmed = refl; fits = omega arith }

open_stored-create_example :
    open_stored codec (new_data path) (create codec handle none none).1
    ≡ ok (record (new_data path) {
      info = stored.info;
      header = header;
      body = [];
      initialized = true;
    })
unfolding lookup trim_space trim_left trim_right
open_stored-create_example = open_stored-create codec handle (new_data path) none refl refl refl (
  vary-IsKey,
  refl,
  (λ e. cc),
  (accept-IsValue, (origin-IsValue, tt)),
  (via-IsKey, refl, (λ e. cc), (proxy-IsValue, tt), tt),
)

abbrev bursting : HostConfig
bursting = record host_config { download_burst = pos 1 }

end_download_burst_example :
    let t =
      transfer
        (λ size s. s)
        bursting
        stored.info.size
        (record { bytes = codes "hello"; breaks = false })
        none
        false in
    lookup path (end_download running path (codes "o") 0 stored.info.size t).disk ≡ none
end_download_burst_example =
    end_download_burst (λ size s. s) bursting running path (codes "o") 0 stored (codes "hello") 1
      running-IsRunning refl refl refl (omega arith) (omega arith)

step-elsewhere_example :
    (lookup (codes "/c/p/01ab/data") (step lib cfg world (cleaned (walk 70))).disk
      ≡ lookup (codes "/c/p/01ab/data") world.disk)
    ⊎ ((is_sweep (cleaned (walk 70)) ≡ true)
        × (lookup (codes "/c/p/01ab/data") (step lib cfg world (cleaned (walk 70))).disk ≡ none))
unfolding is_own
step-elsewhere_example =
    step-elsewhere lib cfg world (cleaned (walk 70)) (codes "/c/p/01ab/data") refl

-- A hash of 32 bytes, of which the first depends on the text.
abbrev zeros : ℕ → Bytes
zeros zero = []
zeros (suc n) = 0 ∷ zeros n

abbrev hashing : Library
hashing = record lib { sha256 = λ s. length s % 256 ∷ zeros 31 }

hashing-IsDigest : (s : Bytes) → IsDigest (hashing.sha256 s)
hashing-IsDigest s = (refl, omega arith)

data_path-injective_example :
    (page.host ≡ page.host)
    × (hashing.sha256 (hashing.url_text page) ≡ hashing.sha256 (hashing.url_text page))
data_path-injective_example =
    data_path-injective hashing cfg (codes "u") [] (codes "v") [] page page page page
      hashing-IsDigest (urls (codes "u")) (urls (codes "v")) refl

run-Reaches_example :
    Reaches lib cfg path events
      (lookup path empty_world.disk)
      (lookup path (run lib cfg empty_world events).disk)
run-Reaches_example = run-Reaches lib cfg path empty_world events

-- A follower whose first copy ends before the download does.
abbrev begun : Pipe
begun = record { body = codes "he"; closed = false; sent = []; phase = copying }

-- The state behind the end of the first copy, when the download has written the rest and is over.
abbrev waits : Pipe
waits = record { body = codes "hello"; closed = true; sent = codes "he"; phase = waiting }

waits-Follows : Follows waits
unfolding read_some end_copy is_copying
waits-Follows = closes (
    writes (codes "llo") refl (
      moves (ends (read_some 8 begun) refl refl)
        (moves (reads 8 begun refl) (starts (codes "he")))))

Follows-returns_example : (q : Pipe) × Moves waits q × (q.phase ≡ done) × (q.sent ≡ waits.body)
Follows-returns_example = Follows-returns waits waits-Follows refl
