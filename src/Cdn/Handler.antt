-- ===== src/Cdn/Handler.antt =====
-- cdn/handler.go, `ServeHTTP`: the request's URL, the call of the store, and the answer. The
-- copy into the answer is in Cdn.Upload; the logger is left out.
pub mod Answers
use oscdn.Base.{
  String, Bool, true, false, not, ◌&&◌, Option, none, some, [], ◌∷◌, ◌++◌, if◌then◌else◌, Bytes,
  codes, str_eq, ℤ, pos, ◌-ℤ◌, ltb_ℤ, leb_ℤ, Time,
}
use oscdn.Base.Strings.{trim_suffix, format_int}
use oscdn.Base.Http.{Header, get, values}
use oscdn.Store.Common.{ContentRange, status_text}
use oscdn.Store.Urls.{Url}
use oscdn.Store.World.{World, Error, request, dynamic_content, size_exceeded}
use oscdn.Store.Get.{Reader, GetResult, Returned}
use oscdn.Cdn.Common.{HostConfig, Request, Refusal, refuse}
use oscdn.Cdn.Writer.{refused, prepared, prepare}
use oscdn.Cdn.Encoder.{Encoding, gzip, deflate, Encoder, set_content_encoder}

-- The scheme and the host that the request came with, from whether it came over TLS.
unfoldable pub request_url : Bool → Bytes → Url → Url
request_url false host u = record u { scheme = codes "http"; host = trim_suffix host (codes ":80") }
request_url true host u = record u {
  scheme = codes "https";
  host = trim_suffix host (codes ":443");
}

-- An answer with content: the code, the headers that the handler sets for it (Server and
-- Accept-Ranges, which stand on every answer, are in Cdn.Upload), how the body is encoded, what is
-- copied into it, `none` for a HEAD request, and what `CopyRate` takes.
pub record Answer : Type 0 where
  pub code : ℤ
  pub headers : Header
  pub encoder : Option Encoder
  pub body : Option Reader
  pub upload_burst : ℤ
  pub upload_rate : ℤ

pub data Reply : Type 0 where
  refusal : Refusal → Reply
  answer : Answer → Reply

-- The refusal for an error of the store.
unfoldable pub error_reply : Error → Refusal
error_reply request = refuse 502 "origin not responding"
error_reply (dynamic_content resp) = refuse 502 "dynamic content"
error_reply (size_exceeded size) = refuse 502 "content size exceeded"
error_reply _ = refuse 500 "Internal Server Error"

-- The headers that are taken over from the content.
unfoldable pub copied : Header → Header
copied h =
    (codes "Content-Type", values h (codes "Content-Type"))
    ∷ (codes "Date", values h (codes "Date"))
    ∷ (codes "Etag", values h (codes "Etag"))
    ∷ (codes "Last-Modified", values h (codes "Last-Modified"))
    ∷ []

unfoldable pub encoding_text : Encoding → Bytes
encoding_text gzip = codes "gzip"
encoding_text deflate = codes "deflate"

-- `Content-Range`
unfoldable pub content_range_text : ContentRange → Bytes
content_range_text r =
    codes "bytes "
    ++ format_int r.start
    ++ b'-' ∷ format_int r.end
    ++ b'/' ∷ format_int (r.end -ℤ r.start)

abbrev single : String → Bytes → Header
single key value = (codes key, value ∷ []) ∷ []

-- What is copied into the body: nothing for HEAD, the reader for GET.
unfoldable pub body_of : Bytes → Reader → Option Reader
body_of method r = if str_eq method (codes "GET") then some r else none

-- The length of a body that is not encoded, or how it is encoded.
unfoldable pub length_headers : Option Encoder → ℤ → Header
length_headers none size = single "Content-Length" (format_int size)
length_headers (some e) size = single "Content-Encoding" (encoding_text e.encoding)

-- `strconv.ParseFloat` and `Time.Format` are parameters.
module _ (parse_float : Bytes → Option ℤ) (format_time : Time → Bytes) where
  -- The encoder, for content of at most the configured size.
  unfoldable pub encoder_for : HostConfig → Request → ℤ → Option Encoder
  encoder_for config req size =
      if ltb_ℤ (pos 0) config.compression_max_size && leb_ℤ size config.compression_max_size
      then set_content_encoder parse_float (get req.header (codes "Accept-Encoding"))
      else none

  -- The answer with the store's result.
  unfoldable pub answer_with : HostConfig → Request → GetResult → Answer
  answer_with config req res =
      let common =
        single "X-Cache-Status" (status_text res.cache_status)
        ++ copied res.header
        ++ single "Expires" (format_time res.expires_at) in
      elim (res.content_range) [
        | none ↦
            let e = encoder_for config req res.size in
            record {
              code = res.status_code;
              headers = common ++ length_headers e res.size;
              encoder = e;
              body = body_of req.method res.reader;
              upload_burst = config.upload_burst;
              upload_rate = config.upload_rate;
            }
        | some r ↦ record {
          code = pos 206;
          headers =
              common
              ++ single "Content-Length" (format_int (r.end -ℤ r.start))
              ++ single "Content-Range" (content_range_text r);
          encoder = none;
          body = body_of req.method res.reader;
          upload_burst = config.upload_burst;
          upload_rate = config.upload_rate;
        }
      ]

  -- The reply to what the store returned.
  unfoldable pub reply_to : HostConfig → Request → Returned → Reply
  reply_to config req ret = elim (ret.error) [
    | some e ↦ refusal (error_reply e)
    | none ↦ answer (answer_with config req ret.result)
  ]

  -- `ServeHTTP`; the store's call is an argument, and `none` is its panic.
  unfoldable pub serve_http :
      (Url → Bytes → Option ContentRange → Option Returned × World)
      → World
      → (Bytes → Bytes → Option HostConfig)
      → Bool
      → Bytes
      → Request
      → Option Reply × World
  serve_http store_get w get_host_config tls host req =
      let req' = record req { url = request_url tls host req.url } in
      elim (prepare req' (get_host_config req'.url.scheme req'.url.host)) [
        | refused r ↦ (some (refusal r), w)
        | prepared url store_host range config ↦
            let (ret, w') = store_get url store_host range in
            (elim ret [ none ↦ none | some r ↦ some (reply_to config req' r) ], w')
      ]
