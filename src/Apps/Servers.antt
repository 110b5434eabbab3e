-- ===== src/Apps/Servers.antt =====
-- apps/httpapp.go and apps/mgmtapp.go: `Start`, `Run`, `Terminate`, `Stop` and `httpHandler` of the
-- two servers. The order in which they are called is package application's. The servers, listeners
-- and the routing of requests are those of net/http, whose timeouts and limits are left out.
pub mod Settled
pub mod Fatal
use oscdn.Base.{
  ℕ, ◌+◌, ◌-◌, ◌==◌, Bool, true, false, not, ◌||◌, Option, none, some, List, [], ◌∷◌, ◌++◌,
  if◌then◌else◌, Bytes, codes, str_eq, length, drop, ℤ, pos, ltb_ℤ,
}
use oscdn.Base.Strings.{has_prefix}
use oscdn.Store.World.{World}
use oscdn.Store.Download.{Library, Config}
use oscdn.Apps.Mgmt.{MgmtRequest, Replies, Answer, http_error, mgmt_handler}

-- `HttpApp` and `MgmtApp`, with what decides on their start.
pub data Kind : Type 0 where
  http_app : (listen_backlog : ℤ) → (handle_h2c tls : Bool) → Kind
  mgmt_app : Kind

pub data Listener : Type 0 where
  nil listening closed : Listener

-- `http.Server`: its handler and its TLS configuration, and whether it has been shut down.
pub record HttpServer : Type 0 where
  pub h2c : Bool
  pub tls : Bool
  pub shut : Bool

-- The state of a server; `in_flight` is the wait group's count, and `cancelled` whether it has called
-- `cancel`.
pub record App : Type 0 where
  pub listener : Listener
  pub server : Option HttpServer
  pub in_flight : ℕ
  pub cancelled : Bool

abbrev pub new_app : App
new_app = record { listener = nil; server = none; in_flight = 0; cancelled = false }

-- How the listener is made: package tcplisten's with a backlog, or package net's.
pub data Listen : Type 0 where
  with_backlog : ℤ → Listen
  plain : Listen

-- The calls of a server and of its requests, with the outcome of the system's: of listening, of
-- serving, false where it ends with an error other than that of a closed server, and of `Shutdown`.
pub data Call : Type 0 where
  start : (Listen → Bool) → Call
  run : (tls : Bool → Bool) → Call
  terminate : Bool → Call
  stop request_in request_out : Call

-- A call goes through, waits, or panics on a nil pointer.
pub data Went : Type 0 where
  went : App → Went
  waits panics : Went

unfoldable pub listen_of : Kind → Listen
listen_of (http_app backlog h2c tls) = if ltb_ℤ (pos 0) backlog then with_backlog backlog else plain
listen_of mgmt_app = plain

unfoldable pub server_of : Kind → HttpServer
server_of (http_app backlog h2c tls) = record { h2c = h2c; tls = tls; shut = false }
server_of mgmt_app = record { h2c = false; tls = false; shut = false }

-- `Start`
unfoldable pub start_app : Kind → (Listen → Bool) → App → App
start_app kind listens a =
    if listens (listen_of kind)
    then record a { listener = listening; server = some (server_of kind) }
    else record a { cancelled = true }

-- `Run`: `Serve`, or `ServeTLS` where there is a TLS configuration.
unfoldable pub run_app : (Bool → Bool) → App → Went
run_app serves a = elim (a.server) [
  | none ↦ panics
  | some s ↦ went (if serves s.tls then a else record a { cancelled = true })
]

-- `Terminate`; a server that does not shut down in time is closed.
unfoldable pub terminate_app : App → Went
terminate_app a = elim (a.server) [
  | none ↦ panics
  | some s ↦ went (record a { server = some (record s { shut = true }) })
]

unfoldable pub close_listener : Listener → Listener
close_listener nil = nil
close_listener _ = closed

-- `Stop`: it closes the listener and waits for the requests.
unfoldable pub stop_app : App → Went
stop_app a =
    if a.in_flight == 0 then went (record a { listener = close_listener a.listener }) else waits

-- The same of the management server, which has no TLS.
unfoldable pub start_mgmt : (Listen → Bool) → App → App
start_mgmt listens a =
    if listens plain
    then record a {
      listener = listening;
      server = some (record { h2c = false; tls = false; shut = false });
    }
    else record a { cancelled = true }

unfoldable pub run_mgmt : (Bool → Bool) → App → Went
run_mgmt serves a = elim (a.server) [
  | none ↦ panics
  | some s ↦ went (if serves false then a else record a { cancelled = true })
]

unfoldable pub terminate_mgmt : App → Went
terminate_mgmt a = elim (a.server) [
  | none ↦ panics
  | some s ↦ went (record a { server = some (record s { shut = true }) })
]

unfoldable pub stop_mgmt : App → Went
stop_mgmt a =
    if a.in_flight == 0 then went (record a { listener = close_listener a.listener }) else waits

-- A request of either server, which `httpHandler` counts around the handler's call.
unfoldable pub call_request : App → Call → App
call_request a request_in = record a { in_flight = a.in_flight + 1 }
call_request a request_out = record a { in_flight = a.in_flight - 1 }
call_request a c = a

-- One call.
unfoldable pub call_app : Kind → App → Call → Went
call_app (http_app backlog h2c tls) a (start listens) =
    went (start_app (http_app backlog h2c tls) listens a)
call_app mgmt_app a (start listens) = went (start_mgmt listens a)
call_app (http_app backlog h2c tls) a (run serves) = run_app serves a
call_app mgmt_app a (run serves) = run_mgmt serves a
call_app (http_app backlog h2c tls) a (terminate in_time) = terminate_app a
call_app mgmt_app a (terminate in_time) = terminate_mgmt a
call_app (http_app backlog h2c tls) a stop = stop_app a
call_app mgmt_app a stop = stop_mgmt a
call_app kind a request_in = went (call_request a request_in)
call_app kind a request_out = went (call_request a request_out)

-- Calls in turn; one that waits leaves the state as it is. `none` is a panic.
unfoldable pub go_on : Went → App → (App → Option App) → Option App
go_on (went a') a next = next a'
go_on waits a next = next a
go_on panics a next = none

unfoldable pub call_all : Kind → App → List Call → Option App
call_all kind a [] = some a
call_all kind a (c ∷ cs) = go_on (call_app kind a c) a (λ a'. call_all kind a' cs)

-- Where `http.ServeMux` of the management server sends a clean path: the longest of its patterns,
-- and a redirection from one without its last slash.
pub data Route : Type 0 where
  debug metrics not_found : Route
  mgmt : Bytes → Route
  moved : Bytes → Route

-- `http.StripPrefix`
unfoldable pub strip_prefix : Bytes → Bytes → Bytes
strip_prefix prefix path = drop (length prefix) path

unfoldable pub route : Bytes → Route
route path =
    if has_prefix path (codes "/debug/")
    then debug
    else if has_prefix path (codes "/metrics/")
    then metrics
    else if has_prefix path (codes "/mgmt/")
    then mgmt (strip_prefix (codes "/mgmt") path)
    else if str_eq path (codes "/debug")
        || str_eq path (codes "/metrics")
        || str_eq path (codes "/mgmt")
    then moved (path ++ codes "/")
    else not_found

-- The answer of the routes that are not the repository's code is `none`.
unfoldable pub mgmt_routed :
    Library → Config → World → MgmtRequest → Replies → Route → Option Answer × World
mgmt_routed lib cfg w req env (mgmt path) =
    let (a, w') = mgmt_handler lib cfg w (record req { path = path }) env in (some a, w')
mgmt_routed lib cfg w req env r = (none, w)

-- `httpHandler` of the management server.
unfoldable pub mgmt_serve : Library → Config → World → MgmtRequest → Replies → Option Answer × World
mgmt_serve lib cfg w req env = mgmt_routed lib cfg w req env (route req.path)

-- What `httpHandler` of the HTTP server makes of the handler's call: a panic is recovered and logged
-- as fatal, which ends the process.
pub data Handled {ℓ} (A : Type ℓ) : Type ℓ where
  handled : A → Handled A
  fatal : Handled A

unfoldable pub recovered {ℓ} : {A : Type ℓ} → Option A → Handled A
recovered none = fatal
recovered (some a) = handled a
