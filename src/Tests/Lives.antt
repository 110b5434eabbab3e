-- ===== src/Tests/Lives.antt =====
-- The life of one content: asked for on an empty disk, and downloaded.
use oscdn.Base.{
  none, if◌then◌else◌, str_eq, Bool-cases, inl, inr, insert, erase, ◌≡◌, refl, sym, subst, ap,
  arith, false, some, [], ◌∷◌, Bytes, codes, length, lookup, str_eq_iff, pos, ◌+ℤ◌,
}
use oscdn.Base.Http.{get, values}
use oscdn.Base.Strings.{split, split_two, trim_suffix}
use oscdn.Store.Expires.{
  content_expires, config_expires, http_expires, limit_expires, raise_expires, is_dynamic,
}
use oscdn.Store.Urls.{
  Url, Urls, get_urls, urls_of, is_valid_url, match_host, trim_port, is_label, all_labels, is_port,
  all_bytes, get_data_path, hash_segments,
}
use oscdn.Store.World.{World, Content, content, is_exists, move_to_trash}
use oscdn.Store.Download.{
  start_download, admit, host_config_of, create_data, end_download, data_path, write_body,
  finish_download, limited, is_failed, info_of, Transfer,
}
use oscdn.Store.Common.{hit}
use oscdn.Store.Get.Fresh.{opened, get-fresh}
use oscdn.Store.Get.{
  Request, Returned, with_range, with_data, complete, get_locked, after_exists, get_new,
  after_start, serve_new,
}
use oscdn.Store.Get
use oscdn.Store.History.{got, finished, step}
use oscdn.Store.History.Whole.{AllSettled}
use oscdn.Store.History.Whole.Steps.{IsOwnEnd}
use oscdn.Store.History.Whole.Lives.{Lives, begins, happens, Lives-whole}
use oscdn.Store.History.Whole.Delivered.{Lives-hit}
use oscdn.Tests.Contents.{
  lib, cfg, path, stored, world, empty_world, request_at, answered, urls, path_of_page, page,
}

-- The path of the key, and nothing for any other.
abbrev place : Bytes → Bytes
place k = if str_eq k (codes "o") then path else []

abbrev begun : Content
begun = record {
  info = record (stored.info) { created_at = pos 70; expires_at = pos 120 };
  header = [];
  body = [];
  file = 1;
}

abbrev downloading : World
downloading = record world {
  disk = (path, content begun) ∷ [];
  downloads = (codes "o", 1) ∷ [];
  next_file = 2;
}

abbrev sent : Transfer
sent = record { received = codes "hello, world"; copy_fails = false; close_fails = false }

abbrev downloaded : World
downloaded = record downloading {
  disk = (path, content (record begun { body = codes "hello" })) ∷ [];
  downloads = [];
}

first : step lib cfg empty_world (got (request_at 20) answered) ≡ downloading
unfolding step Get.get get_locked after_exists get_new after_start start_download move_to_trash
    lookup admit host_config_of content_expires config_expires http_expires get values limit_expires
    raise_expires is_dynamic create_data ◌+ℤ◌ is_exists data_path get_data_path hash_segments
    get_urls urls_of is_valid_url match_host trim_port is_label all_labels is_port all_bytes split
    split_two trim_suffix info_of insert
first = refl

second : step lib cfg downloading (finished path (codes "o") 1 (pos 5) sent) ≡ downloaded
unfolding step end_download write_body finish_download limited is_failed lookup insert erase
second = refl

own_content :
    (p : Bytes) (c d : Content)
    → lookup p ((path, content d) ∷ []) ≡ some (content c)
    → (p ≡ path) × (d ≡ c)
unfolding lookup
own_content p c d found = (ground (arith, str_eq_iff path p), ground (arith, str_eq_iff path p))

empty-AllSettled : AllSettled place empty_world
unfolding lookup
empty-AllSettled p c e = cc

asked :
    (base key : Url)
    → get_urls lib.parse_url (codes "u") [] ≡ Urls.ok base key
    → data_path lib cfg base key ≡ place key.host
asked base key e = ground (arith, urls (codes "u"), path_of_page)

own_end : IsOwnEnd downloading path (codes "o") 1 (pos 5)
own_end = record {
  own = λ p c found mine.
      let (at, same) = own_content p c begun found in
      (
        at,
        ap (λ d. d.info.key_url) (sym same),
        ap (λ d. d.info.size) (sym same),
        ap (λ d. d.body) (sym same),
      );
  movable = refl;
}

downloading-Lives : Lives place lib cfg downloading
downloading-Lives =
    subst (Lives place lib cfg) first
      (happens (got (request_at 20) answered) asked (begins empty_world empty-AllSettled))

downloaded-Lives : Lives place lib cfg downloaded
downloaded-Lives =
    subst (Lives place lib cfg) second
      (happens (finished path (codes "o") 1 (pos 5) sent) own_end downloading-Lives)

Lives-whole_example : pos 5 ≡ pos (length (codes "hello"))
unfolding lookup
Lives-whole_example =
    Lives-whole place lib cfg downloaded path (record begun { body = codes "hello" })
      downloaded-Lives refl (λ e. cc) (omega arith)

one_key : (k : Bytes) → place k ≡ path → k ≡ codes "o"
one_key k at = elim (Bool-cases (str_eq k (codes "o"))) [
  | inl same ↦ (str_eq_iff k (codes "o")).0 same
  | inr other ↦ ground (arith, at, other)
]

-- A request for all of it, before it expires.
abbrev again : Request
again = record (request_at 100) { range = none }

abbrev delivered : Returned
delivered = record {
  result = with_range (opened path (record begun { body = codes "hello" })) hit none;
  error = none;
}

third : (Get.get lib cfg downloaded again answered).0 ≡ some delivered
unfolding lookup data_path get_data_path hash_segments
third =
    ap (λ r. r.0)
      (get-fresh lib cfg downloaded again answered page page (record begun { body = codes "hello" })
        (urls (codes "u"))
        (record {
          open_store = refl;
          allowed = refl;
          stored = refl;
          settled = refl;
          fresh = omega arith;
        }))

Lives-hit_example :
    (body : Bytes) × (delivered.result.reader ≡ complete body)
    × (delivered.result.size ≡ pos (length body))
unfolding with_range with_data data_path get_data_path hash_segments
Lives-hit_example =
    Lives-hit place lib cfg downloaded again answered page page delivered downloaded-Lives one_key
      (urls (codes "u")) refl third refl (omega arith)
