-- ===== src/Cdn/Handler/Answers.antt =====
-- What a client gets: the length that the answer announces, and the way of a fresh content from the
-- disk to the client.
use oscdn.Base.{
  ap, ◌∙◌, sym, subst, Time, ◌≡◌, refl, Bool, Option, none, some, [], ◌∷◌, arith, length, Bytes,
  codes, lookup, ℤ, pos,
}
use oscdn.Base.Http.{values}
use oscdn.Store.Common.{ContentRange, hit}
use oscdn.Store.Range.{clamp_range, read_range}
use oscdn.Store.Range.Slice.{IsWithin, clamp_range-IsWithin, length-read_range}
use oscdn.Store.Urls.{Url, Urls, get_urls}
use oscdn.Store.World.{World, Data, Content}
use oscdn.Store.Download.{Library, Config, Attempt, data_path}
use oscdn.Store.Get.{Reader, complete, Returned, with_data, with_range, clamped}
use oscdn.Store.Get
use oscdn.Store.Get.Fresh.{IsFresh, opened, get-fresh}
use oscdn.Cdn.Common.{HostConfig, Request}
use oscdn.Cdn.Writer.{prepared, prepare}
use oscdn.Cdn.Encoder.{Encoder}
use oscdn.Cdn.Handler.{
  answer, request_url, reply_to, serve_http, format_int, Answer, copied, body_of, encoder_for,
  length_headers, answer_with,
}

-- The answer carries these bytes: a GET copies them, and the length that it announces, where the body
-- is not encoded, is theirs.
pub record Carries (req : Request) (ans : Answer) (bytes : Bytes) : Type 0 where
  pub body : req.method ≡ codes "GET" → ans.body ≡ some (complete bytes)
  pub length_header :
      ans.encoder ≡ none
      → values ans.headers (codes "Content-Length") ≡ format_int (pos (length bytes)) ∷ []

body_of-get : (method : Bytes) (r : Reader) → method ≡ codes "GET" → body_of method r ≡ some r
unfolding body_of
body_of-get method r h = rw h

length_headers-length :
    (e : Option Encoder) (size : ℤ)
    → e ≡ none
    → values (length_headers e size) (codes "Content-Length") ≡ format_int size ∷ []
unfolding length_headers values lookup
length_headers-length none size h = refl
length_headers-length (some e) size h = cc

module _ (parse_float : Bytes → Option ℤ) (format_time : Time → Bytes) where
  -- The answer with a stored content of its recorded size carries exactly the bytes of the clamped
  -- range, or the whole content.
  pub answer_with-Carries :
      (config : HostConfig) (req : Request) (d : Data) (range : Option ContentRange)
      → d.info.size ≡ pos (length d.body)
      → Carries req
          (answer_with parse_float format_time config req (with_range d hit range))
          (read_range (clamped range d.info.size) d.body)
  unfolding answer_with with_range with_data clamped copied values lookup
  answer_with-Carries config req d none h = record {
    body = λ m. body_of-get req.method (complete (read_range none d.body)) m;
    length_header = λ e.
        unfold read_range in
        length_headers-length (encoder_for parse_float format_time config req d.info.size)
          d.info.size e
        ∙ ap (λ z. format_int z ∷ []) h;
  }
  answer_with-Carries config req d (some r) h = record {
    body = λ m.
        body_of-get req.method (complete (read_range (some (clamp_range r d.info.size)) d.body)) m;
    length_header = λ e.
        ap (λ z. format_int z ∷ [])
          (sym (
            length-read_range (clamp_range r d.info.size) d.body (
              subst (IsWithin (clamp_range r d.info.size)) h
                (clamp_range-IsWithin r d.info.size (ground arith)))));
  }

  module _ (lib : Library) (cfg : Config) where
    -- The store's call for a request, at a time and with what the environment would answer.
    abbrev pub store_get :
        World → Time → Attempt → Url → Bytes → Option ContentRange → Option Returned × World
    store_get w now a url host range =
        Get.get lib cfg w
          (record { raw_url = lib.url_text url; host = host; range = range; now = now }) a

    -- The answer to it.
    pub serve_http-answer_with :
        (w : World) (now : Time) (a : Attempt) (get_host_config : Bytes → Bytes → Option HostConfig)
        (tls : Bool) (host : Bytes) (req : Request) (url : Url) (key_host : Bytes)
        (range : Option ContentRange) (config : HostConfig) (base key : Url) (c : Content)
        → let req' = record req { url = request_url tls host req.url } in
          prepare req' (get_host_config req'.url.scheme req'.url.host)
            ≡ prepared url key_host range config
          → get_urls lib.parse_url (lib.url_text url) key_host ≡ Urls.ok base key
          → IsFresh w (data_path lib cfg base key) (lib.url_text key) c now
          → serve_http parse_float format_time (store_get w now a) w get_host_config tls host req
            ≡ (
              some (
                  answer (
                    answer_with parse_float format_time config req'
                      (with_range (opened (data_path lib cfg base key) c) hit range))),
              w,
            )
    unfolding serve_http reply_to
    serve_http-answer_with w now a get_host_config tls host req url key_host range config base key c
          ready urls fresh =
        let found =
          get-fresh lib cfg w
            (record { raw_url = lib.url_text url; host = key_host; range = range; now = now }) a
            base key c urls fresh in
        ground (arith, ready, found)

    -- A request that `Prepare` lets through, for a content of its recorded size that has not
    -- expired, that can be read and that no download is registered for, is answered from the disk
    -- whatever the origin would say: the store is left as it is, a GET gets exactly the bytes of
    -- the content, or of the clamped range, and an answer that is not encoded announces their
    -- number.
    pub serve_http-fresh :
        (w : World) (now : Time) (a : Attempt) (get_host_config : Bytes → Bytes → Option HostConfig)
        (tls : Bool) (host : Bytes) (req : Request) (url : Url) (key_host : Bytes)
        (range : Option ContentRange) (config : HostConfig) (base key : Url) (c : Content)
        → let req' = record req { url = request_url tls host req.url } in
          prepare req' (get_host_config req'.url.scheme req'.url.host)
            ≡ prepared url key_host range config
          → get_urls lib.parse_url (lib.url_text url) key_host ≡ Urls.ok base key
          → IsFresh w (data_path lib cfg base key) (lib.url_text key) c now
          → c.info.size ≡ pos (length c.body)
          → (ans : Answer) × (serve_http parse_float format_time
                (store_get w now a)
                w
                get_host_config
                tls
                host
                req
              ≡ (some (answer ans), w))
            × Carries req ans (read_range (clamped range c.info.size) c.body)
    serve_http-fresh w now a get_host_config tls host req url key_host range config base key c ready
          urls fresh size =
        let d = opened (data_path lib cfg base key) c in
        let req' = record req { url = request_url tls host req.url } in
        let made = answer_with-Carries config req' d range size in
        (
          answer_with parse_float format_time config req' (with_range d hit range),
          serve_http-answer_with w now a get_host_config tls host req url key_host range config base
              key c ready urls fresh,
          record { body = made.body; length_header = made.length_header },
        )
