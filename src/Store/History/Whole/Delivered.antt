-- ===== src/Store/History/Whole/Delivered.antt =====
-- What `Get` delivers of the contents of a store over its life.
use oscdn.Base.{◌≡◌, ◌≢◌, ◌∙◌, sym, ap, subst, none, some, arith, Bytes, length, lookup, pos, ◌≤ℤ◌}
use oscdn.Store.Common.{hit}
use oscdn.Store.Urls.{Url, Urls, get_urls}
use oscdn.Store.World.{World}
use oscdn.Store.Download.{Library, Config, Attempt, data_path}
use oscdn.Store.Get.{get, complete, Request, Returned, clamped, with_range, with_data}
use oscdn.Store.Get.Served.{IsBacked, get-IsBacked}
use oscdn.Store.Range.{read_range}
use oscdn.Store.History.Whole.Lives.{Lives, Lives-AllSettled, Lives-whole}

-- In every state of a store that starts with whole contents, or with contents whose downloads are
-- registered, behind any sequence of its operations and ends of downloads: what a request without a
-- range gets as a hit, if its size is known, is a complete body of exactly that size. This supposes
-- that a key belongs to one path and no other key to the path of the request, that the URL is valid,
-- that the end of a download is that of its own content, that the directory of a download that ends
-- can be moved, and that a failed Create can remove what it has made.
pub Lives-hit :
    (place : Bytes → Bytes) (lib : Library) (cfg : Config) (w : World) (req : Request) (a : Attempt)
    (base key : Url) (ret : Returned)
    → Lives place lib cfg w
    → ((k : Bytes) → place k ≡ data_path lib cfg base key → k ≡ lib.url_text key)
    → get_urls lib.parse_url req.raw_url req.host ≡ Urls.ok base key
    → req.range ≡ none
    → (get lib cfg w req a).0 ≡ some ret
    → ret.result.cache_status ≡ hit
    → pos 0 ≤ℤ ret.result.size
    → (body : Bytes) × (ret.result.reader ≡ complete body) × (ret.result.size ≡ pos (length body))
unfolding with_range with_data clamped read_range
Lives-hit place lib cfg w req a base key ret l one urls whole_asked returned is_hit known =
    let path = data_path lib cfg base key in
    let backed : IsBacked w path (lib.url_text key) req.range req.now (some ret) =
      subst (IsBacked w path (lib.url_text key) req.range req.now) returned
        (get-IsBacked lib cfg w req a base key urls) in
    let (c, found) = backed is_hit in
    let own : c.info.key_url ≡ lib.url_text key =
      one c.info.key_url (sym ((Lives-AllSettled place lib cfg w l path c found.stored).placed)) in
    let apart : lookup c.info.key_url w.downloads ≢ some c.file =
      λ e. ground (arith, found.settled, ap (λ k. lookup k w.downloads) own, e) in
    let size : ret.result.size ≡ c.info.size = ap (λ r. r.size) found.served in
    let reads : ret.result.reader ≡ complete c.body =
      ap (λ r. r.reader) found.served
      ∙ ap (λ r. complete (read_range (clamped r c.info.size) c.body)) whole_asked in
    (
      c.body,
      reads,
      size
          ∙ Lives-whole place lib cfg w path c l found.stored apart
              (subst (λ n. pos 0 ≤ℤ n) size known),
    )
