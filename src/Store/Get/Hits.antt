-- ===== src/Store/Get/Hits.antt =====
-- What the client of `Get` receives of a fresh content, told apart from the code that makes it.
use oscdn.Base.{
  ℕ, ◌-◌, ◌≡◌, refl, ap, none, some, arith, Option, if◌then◌else◌, ltb, Bytes, length, take, drop,
  pos, pos_part, ltb_ℤ, ◌-ℤ◌, ◌∙◌,
}
use oscdn.Store.Common.{ContentRange, hit}
use oscdn.Store.Urls.{Url, Urls, get_urls}
use oscdn.Store.World.{World, Content}
use oscdn.Store.Range.{clamp_range, clamp_start, clamp_end, read_range}
use oscdn.Store.Range.Slice.{read_range-clamp_range}
use oscdn.Store.Download.{Library, Config, Attempt, data_path}
use oscdn.Store.Get.{get, Request, GetResult, complete, succeed, with_range, with_data, clamped}
use oscdn.Store.Get.Fresh.{IsFresh, opened, get-fresh}

abbrev at_most : ℕ → ℕ → ℕ
at_most n k = if ltb n k then n else k

-- The first byte of a range in a text of `n` bytes, and the one behind its last: a start before the
-- text is its start, an end before it is its end, and a range that is turned around is empty.
abbrev pub first_byte : ContentRange → ℕ → ℕ
first_byte r n = at_most n (pos_part r.start)

abbrev pub last_byte : ContentRange → ℕ → ℕ
last_byte r n =
    if ltb_ℤ r.end (pos 0)
    then n
    else if ltb (at_most n (pos_part r.end)) (first_byte r n)
    then first_byte r n
    else at_most n (pos_part r.end)

abbrev pub bytes_of : Option ContentRange → Bytes → Bytes
bytes_of none body = body
bytes_of (some r) body =
    take (last_byte r (length body) - first_byte r (length body))
      (drop (first_byte r (length body)) body)

abbrev pub range_of : Option ContentRange → ℕ → Option ContentRange
range_of none n = none
range_of (some r) n = some (record { start = pos (first_byte r n); end = pos (last_byte r n) })

-- The result that stands for a content: its own status, header and times, and the bytes asked for.
abbrev pub served : Content → Option ContentRange → GetResult
served c range = record {
  reader = complete (bytes_of range c.body);
  cache_status = hit;
  status_code = c.info.status_code;
  header = c.header;
  created_at = c.info.created_at;
  expires_at = c.info.expires_at;
  size = pos (length c.body);
  content_range = range_of range (length c.body);
}

clamp_range-bytes :
    (r : ContentRange) (n : ℕ)
    → clamp_range r (pos n) ≡ record { start = pos (first_byte r n); end = pos (last_byte r n) }
unfolding clamp_range clamp_start clamp_end
clamp_range-bytes r n = ground arith

difference : (a b : ℕ) → pos_part (pos a -ℤ pos b) ≡ a - b
unfolding ◌-ℤ◌
difference a b = ground arith

read_range-bytes :
    (r : ContentRange) (body : Bytes)
    → read_range (some (clamp_range r (pos (length body)))) body ≡ bytes_of (some r) body
read_range-bytes r body =
    (read_range-clamp_range r body).1
    ∙ rw
        (
          clamp_range-bytes r (length body),
          difference (last_byte r (length body)) (first_byte r (length body)),
        )
        refl

with_range-served :
    (path : Bytes) (c : Content) (range : Option ContentRange)
    → c.info.size ≡ pos (length c.body)
    → with_range (opened path c) hit range ≡ served c range
unfolding with_range with_data clamped
with_range-served path c none whole = rw whole (unfold read_range in refl)
with_range-served path c (some r) whole =
    rw (whole, read_range-bytes r c.body, clamp_range-bytes r (length c.body)) refl

-- While the store is not released, a content of a valid URL that has its recorded size and has not
-- expired, that the system lets the store read and that no download is registered for, is served as
-- a hit without a change of the store, whatever the origin would answer: with the status, the header
-- and the times that are stored, and the whole body if no range is asked for. A range gets the bytes
-- from its start to before its end, both brought into the body, an end below 0 being that of the body
-- and an end before the start being the start, and these bounds are returned.
pub get-served :
    (lib : Library) (cfg : Config) (w : World) (req : Request) (a : Attempt) (base key : Url)
    (c : Content)
    → get_urls lib.parse_url req.raw_url req.host ≡ Urls.ok base key
    → IsFresh w (data_path lib cfg base key) (lib.url_text key) c req.now
    → c.info.size ≡ pos (length c.body)
    → get lib cfg w req a ≡ (succeed (served c req.range), w)
get-served lib cfg w req a base key c urls f whole =
    get-fresh lib cfg w req a base key c urls f
    ∙ ap (λ res. (succeed res, w))
        (with_range-served (data_path lib cfg base key) c req.range whole)
