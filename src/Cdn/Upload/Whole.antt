-- ===== src/Cdn/Upload/Whole.antt =====
-- A fresh content reaches the client whole, through the rate limit and the compression.
use oscdn.Cdn.Upload.{
  delivered, decoded, Compression, Client, sent, server_headers, wire_bytes, sent_copied, source_of,
  deliver, client_reads, serve,
}
use oscdn.Base.{
  subst, sym, Bool, false, Option, none, some, ◌≡◌, refl, ◌∙◌, ap, arith, [], ◌∷◌, ◌++◌, Bytes,
  codes, length, ℤ, pos, Time, ◌≤ℤ◌, ◌*ℤ◌, ◌<◌, ◌^◌, lookup,
}
use oscdn.Base.Http.{Header, values}
use oscdn.Ioutil.{Source, copy, copy_rate}
use oscdn.Ioutil.Whole.{copy_rate-copy}
use oscdn.Store.Common.{ContentRange, hit}
use oscdn.Store.Range.{read_range}
use oscdn.Store.Urls.{Url, Urls, get_urls}
use oscdn.Store.World.{World, Data, Content}
use oscdn.Store.Download.{Library, Config, Attempt, data_path}
use oscdn.Store.Get.{complete, with_data, with_range, clamped}
use oscdn.Store.Get.Fresh.{IsFresh, opened}
use oscdn.Cdn.Common.{HostConfig, Request}
use oscdn.Cdn.Writer.{prepared, prepare}
use oscdn.Cdn.Encoder.{Encoding, gzip, deflate, Encoder}
use oscdn.Cdn.Handler.{
  Answer, answer, request_url, answer_with, copied, body_of, length_headers, encoding_text,
  encoder_for,
}
use oscdn.Cdn.Handler.Answers.{store_get, serve_http-answer_with}

-- A copy to a client that takes everything, of at least a burst.
copy_rate_complete :
    (leaky_bucket : ℤ → Source → Source)
    → ((size : ℤ) (r : Source) → leaky_bucket size r ≡ r)
    → (s : Bytes) (burst rate : ℤ) → burst *ℤ pos 1024 ≤ℤ pos (length s)
    → length s < 2 ^ 63
    → copy_rate leaky_bucket
        (record { written = []; room = none })
        (record { bytes = s; breaks = false })
        burst
        rate
      ≡ record { sink = record { written = s; room = none }; count = length s; error = none }
unfolding copy
copy_rate_complete leaky_bucket same s burst rate enough small =
    copy_rate-copy leaky_bucket same (record { written = []; room = none })
      (record { bytes = s; breaks = false }) burst rate enough small
    ∙ ground arith

module _ (zip : Compression) where
  -- What a client makes of bytes whose encoder, if there is one, has been closed.
  decoded-closed :
      (e : Option Encoder) (size : ℤ) (s : Bytes)
      → decoded zip
          (values (length_headers e size) (codes "Content-Encoding"))
          (wire_bytes zip e s none)
        ≡ some s
  unfolding decoded wire_bytes values length_headers encoding_text lookup
  decoded-closed none size s = refl
  decoded-closed (some e) size s = by_name e.encoding refl
    where
      by_name :
          (n : Encoding)
          → e.encoding ≡ n
          → decoded zip (encoding_text n ∷ []) (zip.encoded e s ++ zip.closing e s) ≡ some s
      by_name gzip eq = ground (arith, zip.decode_closed e s)
      by_name deflate eq = ground (arith, zip.decode_closed e s)

  deliver-complete :
      (client : Client) (common : Header) (ans : Answer) (s : Bytes)
      → ans.body ≡ some (complete s)
      → client.room ≡ none
      → ((size : ℤ) (r : Source) → client.leaky_bucket size r ≡ r)
      → ans.upload_burst *ℤ pos 1024 ≤ℤ pos (length s)
      → length s < 2 ^ 63
      → deliver zip client common (answer ans)
        ≡ sent ans.code (common ++ ans.headers) (wire_bytes zip ans.encoder s none) none
  unfolding deliver source_of sent_copied
  deliver-complete client common ans s has_body unlimited through enough small =
      rw (has_body, unlimited)
        (ap (sent_copied zip common ans) (
          copy_rate_complete client.leaky_bucket through s ans.upload_burst ans.upload_rate enough
            small))

  module _ (parse_float : Bytes → Option ℤ) (format_time : Time → Bytes) where
    -- A client decodes the answer with a stored content.
    reads-answer_with :
        (name : Bytes) (config : HostConfig) (req : Request) (d : Data)
        (range : Option ContentRange) (s : Bytes)
        → let ans = answer_with parse_float format_time config req (with_range d hit range) in
          client_reads zip (server_headers name ++ ans.headers) (wire_bytes zip ans.encoder s none)
          ≡ some s
    unfolding client_reads decoded wire_bytes server_headers answer_with with_range with_data
        clamped copied values lookup
    reads-answer_with name config req d none s =
        decoded-closed (encoder_for parse_float format_time config req d.info.size) d.info.size s
    reads-answer_with name config req d (some r) s = refl

    answer_with-body :
        (config : HostConfig) (req : Request) (d : Data) (range : Option ContentRange)
        → req.method ≡ codes "GET"
        → let ans = answer_with parse_float format_time config req (with_range d hit range) in
          (ans.body ≡ some (complete (read_range (clamped range d.info.size) d.body)))
          × (ans.upload_burst ≡ config.upload_burst)
    unfolding answer_with with_range with_data clamped body_of
    answer_with-body config req d none is_get = (rw is_get refl, refl)
    answer_with-body config req d (some r) is_get = (rw is_get refl, refl)

    module _ (lib : Library) (cfg : Config) where
      -- A GET request that `Prepare` lets through, for a content that has not expired, that can be
      -- read and that no download is registered for, reaches the client whole: where the client's
      -- context has not ended, the client takes every byte, the bucket lets all of them through and
      -- they are not fewer than the burst, the copy ends with no error and what the client decodes
      -- by the answer's Content-Encoding is exactly the content, or its clamped range. The store is
      -- left as it is.
      pub serve-fresh :
          (w : World) (now : Time) (a : Attempt)
          (get_host_config : Bytes → Bytes → Option HostConfig) (server_header : Bytes)
          (client : Client) (tls : Bool) (host : Bytes) (req : Request) (url : Url)
          (key_host : Bytes) (range : Option ContentRange) (config : HostConfig) (base key : Url)
          (c : Content)
          → let req' = record req { url = request_url tls host req.url } in
            let bytes = read_range (clamped range c.info.size) c.body in
            prepare req' (get_host_config req'.url.scheme req'.url.host)
              ≡ prepared url key_host range config
            → get_urls lib.parse_url (lib.url_text url) key_host ≡ Urls.ok base key
            → IsFresh w (data_path lib cfg base key) (lib.url_text key) c now
            → req.method ≡ codes "GET"
            → client.ended ≡ false
            → client.room ≡ none
            → ((size : ℤ) (r : Source) → client.leaky_bucket size r ≡ r)
            → config.upload_burst *ℤ pos 1024 ≤ℤ pos (length bytes)
            → length bytes < 2 ^ 63
            → (code : ℤ) × (headers : Header) × (wire : Bytes) × (serve parse_float format_time zip
                  (store_get parse_float format_time lib cfg w now a)
                  w
                  get_host_config
                  server_header
                  client
                  tls
                  host
                  req
                ≡ (some (sent code headers wire none), w))
              × (client_reads zip headers wire ≡ some bytes)
      unfolding serve delivered
      serve-fresh w now a get_host_config server_header client tls host req url key_host range
            config base key c ready urls fresh is_get going_on unlimited through enough small =
          let d = opened (data_path lib cfg base key) c in
          let req' = record req { url = request_url tls host req.url } in
          let bytes = read_range (clamped range c.info.size) c.body in
          let ans = answer_with parse_float format_time config req' (with_range d hit range) in
          let found =
            serve_http-answer_with parse_float format_time lib cfg w now a get_host_config tls host
              req url key_host range config base key c ready urls fresh in
          let (has_body, burst) = answer_with-body config req' d range is_get in
          (
            ans.code,
            server_headers server_header ++ ans.headers,
            wire_bytes zip ans.encoder bytes none,
            simp going_on (
                ap (delivered zip client (server_headers server_header)) found
                ∙ ap (λ x. (some x, w))
                    (deliver-complete client (server_headers server_header) ans bytes has_body
                      unlimited through
                      (subst (λ n. n *ℤ pos 1024 ≤ℤ pos (length bytes)) (sym burst) enough) small)),
            reads-answer_with server_header config req' d range bytes,
          )
