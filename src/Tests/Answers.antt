-- ===== src/Tests/Answers.antt =====
-- cdn: requests for the content of the tests of the store.
use oscdn.Base.{
  ap, ◌++◌, append-nil, ◌≡◌, refl, true, false, none, some, Option, [], ◌∷◌, Bytes, codes, lookup,
  ℤ, pos, ◌-◌, length, take, drop, arith,
}
use oscdn.Base.Http.{Header, get, values}
use oscdn.Cdn.Encoder.{Encoding, Encoder}
use oscdn.Cdn.Upload.{Compression, Client, serve, sent, client_reads}
use oscdn.Cdn.Upload.Whole.{serve-fresh}
use oscdn.Apps.Servers.{recovered, fatal}
use oscdn.Apps.Servers.Fatal.{serve-fatal}
use oscdn.Store.Download.{data_path}
use oscdn.Store.Urls.{get_data_path, hash_segments}
use oscdn.Base.Strings.{split, split_two, trim_space, trim_suffix, last_index}
use oscdn.HttpUtil.Options.{
  parse_options, add_options, parse_option, append_option, add_key_vals, add_key_val, parse_key_val,
}
use oscdn.HttpUtil.Host.{split_host}
use oscdn.Store.Common.{ContentRange}
use oscdn.Store.Range.{clamp_range, read_range}
use oscdn.Store.Get.{clamped}
use oscdn.Cdn.Common.{HostConfig, Request}
use oscdn.Cdn.Writer.{
  range, set_content_range, prepared, prepare, validate, set_store_url, store_host, with_target,
}
use oscdn.Cdn.Writer.Ranges.{range_text, bytes_served}
use oscdn.Cdn.Writer.Checks.{IsServed, prepare-prepared}
use oscdn.Cdn.Handler.{Answer, answer, request_url, serve_http}
use oscdn.Cdn.Handler.Answers.{Carries, store_get, serve_http-fresh}
use oscdn.Tests.Contents.{page, lib, cfg, stored, world, silent, urls, IsFresh-at}

abbrev config : HostConfig
config = record {
  origin_scheme = codes "http";
  origin_host = codes "o";
  https_redirect = false;
  https_redirect_port = pos 0;
  host_override = false;
  ignore_query = true;
  compression_max_size = pos 0;
  upload_burst = pos 0;
  upload_rate = pos 0;
}

abbrev hosts : Bytes → Bytes → Option HostConfig
hosts scheme host = some config

abbrev request : Request
request = record { method = codes "GET"; url = record page { host = []; scheme = [] }; header = [] }

abbrev part_request : Request
part_request = record request { header = (codes "Range", range_text 1 4 ∷ []) ∷ [] }

abbrev parse_float : Bytes → Option ℤ
parse_float s = none

abbrev format_time : ℤ → Bytes
format_time t = []

ready :
    prepare (record request { url = request_url false (codes "c") request.url }) (some config)
    ≡ prepared page [] none config
unfolding prepare validate with_target set_store_url store_host set_content_range get values lookup
    request_url trim_suffix split_host parse_options add_options parse_option append_option
    add_key_vals add_key_val parse_key_val trim_space split split_two last_index
ready = refl

serve_http-fresh_example :
    (ans : Answer) × (serve_http parse_float format_time
        (store_get parse_float format_time lib cfg world (pos 20) silent)
        world
        hosts
        false
        (codes "c")
        request
      ≡ (some (answer ans), world))
    × Carries request ans (read_range (clamped none (pos 5)) stored.body)
serve_http-fresh_example =
    serve_http-fresh parse_float format_time lib cfg world (pos 20) silent hosts false (codes "c")
      request page [] none config page page stored ready (urls (codes "o")) IsFresh-at refl

prepare-prepared_example :
    IsServed
      (record request { url = request_url false (codes "c") request.url })
      (some config)
      page
      config
prepare-prepared_example =
    prepare-prepared (record request { url = request_url false (codes "c") request.url })
      (some config) page [] none config ready

bytes_served_example :
    (r : ContentRange) × (set_content_range part_request ≡ range r)
    × (read_range (some (clamp_range r (pos (length stored.body)))) stored.body
        ≡ take (4 - 1) (drop 1 stored.body))
    × (length (read_range (some (clamp_range r (pos (length stored.body)))) stored.body) ≡ 4 - 1)
unfolding get values lookup
bytes_served_example =
    bytes_served part_request 1 4 stored.body refl (omega arith) (omega arith) (omega arith)

-- A writer that puts one byte before what it is given.
unzip : Encoding → Bytes → Option Bytes
unzip e [] = none
unzip e (b ∷ s) = some s

unzip_again : (e : Encoder) (s : Bytes) → unzip e.encoding ((31 ∷ s) ++ []) ≡ some s
unfolding unzip
unzip_again e s = ap some (append-nil s)

abbrev zip : Compression
zip = record {
  encoded = λ e s. 31 ∷ s;
  closing = λ e s. [];
  decode = unzip;
  decode_closed = unzip_again;
}

abbrev client : Client
client = record {
  ended = false;
  room = none;
  piped = λ n. record { bytes = []; breaks = false };
  leaky_bucket = λ size r. r;
}

serve-fresh_example :
    (code : ℤ) × (headers : Header) × (wire : Bytes) × (serve parse_float format_time zip
        (store_get parse_float format_time lib cfg world (pos 20) silent)
        world
        hosts
        (codes "edge")
        client
        false
        (codes "c")
        request
      ≡ (some (sent code headers wire none), world))
    × (client_reads zip headers wire ≡ some (read_range (clamped none (pos 5)) stored.body))
unfolding oscdn.Base.◌*ℤ◌ read_range clamped
serve-fresh_example =
    serve-fresh zip parse_float format_time lib cfg world (pos 20) silent hosts (codes "edge")
      client false (codes "c") request page [] none config page page stored ready (urls (codes "o"))
      IsFresh-at refl refl refl (λ size r. refl) (omega arith) (omega arith)

serve-fatal_example :
    recovered
      (serve parse_float format_time zip
        (store_get parse_float format_time lib cfg world (pos 60) silent)
        world
        hosts
        (codes "edge")
        client
        false
        (codes "c")
        request).0
    ≡ fatal
unfolding data_path get_data_path hash_segments lookup
serve-fatal_example =
    serve-fatal parse_float format_time zip lib cfg world (pos 60) silent hosts (codes "edge")
      client false (codes "c") request page [] none config page page stored ready (urls (codes "o"))
      refl refl refl refl refl (omega arith) refl
