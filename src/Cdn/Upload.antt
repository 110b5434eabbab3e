-- ===== src/Cdn/Upload.antt =====
-- cdn/handler.go, `ServeHTTP` around the answer: the end of the client's context, the headers that
-- every answer has, and the copy of the content through `CopyRate` into the writer and its encoder.
-- The compressed formats are packages gzip and flate's, and the leaky bucket package ioshape's.
pub mod Whole
pub mod Cut
use oscdn.Base.{
  List, ◌≡◌, Bool, true, false, Option, none, some, ℕ, [], ◌∷◌, ◌++◌, if◌then◌else◌, Bytes, codes,
  str_eq, ℤ, Time,
}
use oscdn.Base.Http.{Header, values}
use oscdn.Ioutil.{Source, Sink, CopyError, Copied, copy_rate}
use oscdn.Store.Common.{ContentRange}
use oscdn.Store.Urls.{Url}
use oscdn.Store.World.{World}
use oscdn.Store.Get.{Reader, eof, complete, following, Returned}
use oscdn.Cdn.Common.{HostConfig, Request, Refusal}
use oscdn.Cdn.Encoder.{Encoding, gzip, deflate, Encoder}
use oscdn.Cdn.Handler.{Answer, Reply, refusal, answer, serve_http}

-- The compressing writers: what comes out for the bytes that are written, what `Close` adds, and what
-- a client makes of it.
pub record Compression : Type 0 where
  pub encoded : Encoder → Bytes → Bytes
  pub closing : Encoder → Bytes → Bytes
  pub decode : Encoding → Bytes → Option Bytes
  pub decode_closed :
      (e : Encoder) (s : Bytes) → decode e.encoding (encoded e s ++ closing e s) ≡ some s

-- What reaches the client: nothing where its context has ended, a refusal, or the code, the headers
-- and the bytes of an answer, with the error that ends its copy.
pub data Delivered : Type 0 where
  nothing_sent : Delivered
  refused : Header → Refusal → Delivered
  sent : ℤ → Header → Bytes → Option CopyError → Delivered

-- The headers that are set before `Prepare`.
unfoldable pub server_headers : Bytes → Header
server_headers name =
    (codes "Server", (if str_eq name [] then codes "oscdn" else name) ∷ [])
    ∷ (codes "Accept-Ranges", codes "bytes" ∷ [])
    ∷ []

-- What the environment does with a call: whether the client's context has ended at its start, how
-- many bytes of the content the client takes, what the pipe of a download gives, and the bucket.
pub record Client : Type 0 where
  pub ended : Bool
  pub room : Option ℕ
  pub piped : ℕ → Source
  pub leaky_bucket : ℤ → Source → Source

-- `getResult` as a reader.
unfoldable pub source_of : (ℕ → Source) → Reader → Source
source_of piped eof = record { bytes = []; breaks = false }
source_of piped (complete s) = record { bytes = s; breaks = false }
source_of piped (following file) = piped file

module _ (zip : Compression) where
  -- The bytes behind the copy: the encoder is closed only if the copy has no error.
  unfoldable pub wire_bytes : Option Encoder → Bytes → Option CopyError → Bytes
  wire_bytes none s err = s
  wire_bytes (some e) s none = zip.encoded e s ++ zip.closing e s
  wire_bytes (some e) s (some err) = zip.encoded e s

  unfoldable pub sent_copied : Header → Answer → Copied → Delivered
  sent_copied common ans c =
      sent ans.code (common ++ ans.headers) (wire_bytes ans.encoder c.sink.written c.error) c.error

  -- The end of `ServeHTTP`, behind `WriteHeader`.
  unfoldable pub deliver : Client → Header → Reply → Delivered
  deliver client common (refusal r) = refused common r
  deliver client common (answer ans) = elim (ans.body) [
    | none ↦ sent ans.code (common ++ ans.headers) [] none
    | some r ↦ sent_copied common ans (
        copy_rate client.leaky_bucket (record { written = []; room = client.room })
          (source_of client.piped r) ans.upload_burst ans.upload_rate)
  ]

  unfoldable pub delivered : Client → Header → Option Reply × World → Option Delivered × World
  delivered client common (none, w) = (none, w)
  delivered client common (some r, w) = (some (deliver client common r), w)

  -- What a client makes of the bytes, from the values of Content-Encoding.
  unfoldable pub decoded : List Bytes → Bytes → Option Bytes
  decoded [] s = some s
  decoded (v ∷ vs) s =
      if str_eq v (codes "gzip")
      then zip.decode gzip s
      else if str_eq v (codes "deflate")
      then zip.decode deflate s
      else none

  unfoldable pub client_reads : Header → Bytes → Option Bytes
  client_reads h s = decoded (values h (codes "Content-Encoding")) s

module _ (parse_float : Bytes → Option ℤ) (format_time : Time → Bytes) (zip : Compression) where
  -- `ServeHTTP` as a whole; `none` is a panic of the store's call.
  unfoldable pub serve :
      (Url → Bytes → Option ContentRange → Option Returned × World)
      → World
      → (Bytes → Bytes → Option HostConfig)
      → (server_header : Bytes) → Client
      → Bool
      → Bytes
      → Request
      → Option Delivered × World
  serve store_get w get_host_config server_header client tls host req =
      let replied = serve_http parse_float format_time store_get w get_host_config tls host req in
      if client.ended
      then (some nothing_sent, w)
      else delivered zip client (server_headers server_header) replied
