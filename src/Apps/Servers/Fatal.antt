-- ===== src/Apps/Servers/Fatal.antt =====
-- A request that ends the process.
use oscdn.Base.{Time, ◌≡◌, Bool, false, Option, none, some, arith, Bytes, lookup, ℤ, ◌≤ℤ◌}
use oscdn.Store.Common.{ContentRange}
use oscdn.Store.Urls.{Url, Urls, get_urls}
use oscdn.Store.World.{World, Content, content}
use oscdn.Store.Download.{Library, Config, Attempt, data_path}
use oscdn.Store.Get.Stale.{get_expired-panic}
use oscdn.Cdn.Common.{HostConfig, Request}
use oscdn.Cdn.Writer.{prepared, prepare}
use oscdn.Cdn.Handler.{request_url, serve_http}
use oscdn.Cdn.Handler.Answers.{store_get}
use oscdn.Cdn.Upload.{Compression, Client, delivered, serve}
use oscdn.Apps.Servers.{recovered, fatal}

module _ (parse_float : Bytes → Option ℤ) (format_time : Time → Bytes) (zip : Compression)
    (lib : Library) (cfg : Config) where
  -- A request that `Prepare` lets through, from a client whose context has not ended, for a readable
  -- content that has expired and has no download registered, is fatal to the HTTP server when the
  -- origin does not answer: the store's call panics, and `httpHandler` logs what it recovers as
  -- fatal.
  pub serve-fatal :
      (w : World) (now : Time) (a : Attempt) (get_host_config : Bytes → Bytes → Option HostConfig)
      (server_header : Bytes) (client : Client) (tls : Bool) (host : Bytes) (req : Request)
      (url : Url) (key_host : Bytes) (range : Option ContentRange) (config : HostConfig)
      (base key : Url) (c : Content)
      → let req' = record req { url = request_url tls host req.url } in
        prepare req' (get_host_config req'.url.scheme req'.url.host)
          ≡ prepared url key_host range config
        → get_urls lib.parse_url (lib.url_text url) key_host ≡ Urls.ok base key
        → client.ended ≡ false
        → w.released ≡ false
        → w.denied (data_path lib cfg base key) ≡ false
        → lookup (data_path lib cfg base key) w.disk ≡ some (content c)
        → lookup (lib.url_text key) w.downloads ≡ none
        → c.info.expires_at ≤ℤ now
        → a.response ≡ none
        → recovered
            (serve parse_float format_time zip
              (store_get parse_float format_time lib cfg w now a)
              w
              get_host_config
              server_header
              client
              tls
              host
              req).0
          ≡ fatal
  unfolding serve delivered serve_http recovered
  serve-fatal w now a get_host_config server_header client tls host req url key_host range config
        base key c ready urls going_on running allowed stored settled old silent =
      let found =
        get_expired-panic lib cfg w
          (record { raw_url = lib.url_text url; host = key_host; range = range; now = now }) a base
          key c urls running allowed stored settled old silent in
      ground (arith, ready, found, going_on)
