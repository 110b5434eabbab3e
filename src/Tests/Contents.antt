-- ===== src/Tests/Contents.antt =====
-- store: a content of one host, looked up, expired and purged.
use oscdn.Base.{
  ◌⊎◌, List, ℕ, ◌≡◌, refl, false, none, some, [], ◌∷◌, Bytes, codes, lookup, pos, arith, Time,
}
use oscdn.Base.Http.{get}
use oscdn.Base.Strings.{split, split_two, trim_suffix}
use oscdn.Store.Common.{HostConfig, ContentRange, Response, zero_host_config}
use oscdn.Store.Urls.Hosts.{IsDirName, get_urls-IsDirName}
use oscdn.Store.Download.Running.{IsRunning}
use oscdn.Store.Urls.{
  Url, Urls, get_urls, urls_of, is_valid_url, match_host, trim_port, is_label, all_labels, is_port,
  all_bytes, hash_segments, get_data_path,
}
use oscdn.Store.World.{World, Content, content}
use oscdn.Store.Expires.{content_expires, config_expires}
use oscdn.Store.Expires.Bounds.{IsExpiry, content_expires-IsExpiry}
use oscdn.Store.Download.{start_download, Library, Config, Attempt, data_path}
use oscdn.Store.Download.Admitted.{AllAdmitted}
use oscdn.Store.Get.{Request, succeed, with_range}
use oscdn.Store.Get
use oscdn.Store.Get.Fresh.{IsFresh}
use oscdn.Store.Get.Hits.{served, get-served}
use oscdn.Store.Get.Stale.{IsTimely, get-IsTimely}
use oscdn.Store.History.{Event, got, purged, finished, run, run-AllAdmitted}

abbrev pub page : Url
page = record {
  scheme = codes "http";
  opaque = [];
  user = false;
  host = codes "o";
  path = codes "/p";
  raw_query = [];
  fragment = [];
}

-- A library in which every text parses to one URL, and the hash is two bytes.
abbrev pub lib : Library
lib = record {
  parse_url = λ s. some page;
  url_text = λ u. u.host;
  sha256 = λ s. 1 ∷ 171 ∷ [];
  parse_time = λ s. none;
}

abbrev pub host_config : HostConfig
host_config = record zero_host_config { max_age = pos 50; max_age_404 = pos 5; max_size = pos 100 }

abbrev pub cfg : Config
cfg = record {
  content_path = codes "/c";
  min_content_age = pos 0;
  default_host_config = some host_config;
  get_host_config = none;
}

abbrev pub path : Bytes
path = codes "/c/o/01ab/data"

abbrev pub stored : Content
stored = record {
  info = record {
    base_url = codes "o";
    key_url = codes "o";
    status_code = pos 200;
    size = pos 5;
    created_at = pos 10;
    expires_at = pos 60;
  };
  header = [];
  body = codes "hello";
  file = 0;
}

abbrev pub world : World
world = record {
  disk = (path, content stored) ∷ [];
  trash = [];
  downloads = [];
  next_file = 1;
  released = false;
  denied = λ p. false;
}

abbrev pub empty_world : World
empty_world = record world { disk = [] }

abbrev part : ContentRange
part = record { start = pos 1; end = pos 9 }

abbrev pub request_at : ℕ → Request
request_at t = record { raw_url = codes "u"; host = []; range = some part; now = pos t }

abbrev response : Response
response = record {
  status_code = pos 200;
  content_length = pos 5;
  header = [];
  body = codes "hello";
}

abbrev pub answered : Attempt
answered = record { response = some response; now = pos 70; create_fails = false }

abbrev pub silent : Attempt
silent = record { response = none; now = pos 70; create_fails = false }

pub urls : (s : Bytes) → get_urls lib.parse_url s [] ≡ Urls.ok page page
unfolding get_urls urls_of is_valid_url match_host trim_port is_label all_labels is_port all_bytes
    split split_two trim_suffix
urls s = refl

pub path_of_page : data_path lib cfg page page ≡ path
unfolding data_path get_data_path hash_segments
path_of_page = refl

pub IsFresh-at : IsFresh world (data_path lib cfg page page) (codes "o") stored (pos 20)
unfolding data_path get_data_path hash_segments lookup
IsFresh-at = record {
  open_store = refl;
  allowed = refl;
  stored = refl;
  settled = refl;
  fresh = omega arith;
}

get-served_example :
    Get.get lib cfg world (request_at 20) silent ≡ (succeed (served stored (some part)), world)
get-served_example =
    get-served lib cfg world (request_at 20) silent page page stored (urls (codes "u")) IsFresh-at
      refl

get-IsTimely_example : IsTimely (pos 20) (Get.get lib cfg world (request_at 20) silent).0
get-IsTimely_example = get-IsTimely lib cfg world (request_at 20) silent

-- A history that starts on an empty disk.
abbrev pub events : List Event
events =
    got (request_at 20) answered
    ∷ finished path (codes "o") 1 (pos 5)
        (record { received = codes "hel"; copy_fails = false; close_fails = false })
    ∷ got (request_at 75) answered
    ∷ purged (codes "u") []
    ∷ []

pub empty-AllAdmitted : AllAdmitted lib cfg empty_world
unfolding lookup
empty-AllAdmitted p c e = cc

run-AllAdmitted_example : AllAdmitted lib cfg (run lib cfg empty_world events)
run-AllAdmitted_example = run-AllAdmitted lib cfg empty_world events empty-AllAdmitted

-- Ages and ranges.
abbrev no_cache_response : Response
no_cache_response = record response { header = (codes "Cache-Control", codes "no-cache" ∷ []) ∷ [] }

content_expires-IsExpiry_example :
    (e : Time) × (content_expires lib.parse_time (pos 0) host_config response (pos 70) ≡ some e)
    × IsExpiry (pos 0) (pos 70) (config_expires host_config (pos 200) (pos 70)) e
content_expires-IsExpiry_example =
    content_expires-IsExpiry lib.parse_time (pos 0) host_config response (pos 70) (omega arith)

get_urls-IsDirName_example :
    ((page.scheme ≡ codes "http") ⊎ (page.scheme ≡ codes "https"))
    × IsDirName page.host
    × IsDirName page.host
get_urls-IsDirName_example =
    get_urls-IsDirName lib.parse_url (codes "u") [] page page (urls (codes "u"))

-- A download of the page, on an empty disk.
abbrev started : World
started = (start_download lib cfg empty_world page page answered).1

abbrev pub running : World
running = record world { downloads = (codes "o", 0) ∷ [] }

pub running-IsRunning : IsRunning running path (codes "o") 0 stored
unfolding lookup
running-IsRunning = record { registered = refl; stored = refl; own = refl }
