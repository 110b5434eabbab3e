-- ===== src/Apps/Servers/Settled.antt =====
-- Which calls of a server panic.
use oscdn.Base.{
  if◌then◌else◌, ◌||◌, ◌≡◌, refl, Bool, true, false, not, ◌&&◌, Option, none, some, List, [], ◌∷◌,
  arith, All, Bool-cases, inl, inr,
}
use oscdn.Apps.Servers.{
  went, waits, panics, Went, plain, run_mgmt, terminate_mgmt, stop_mgmt, call_request, http_app,
  mgmt_app, start_mgmt, go_on, Listen, listening, Kind, App, new_app, HttpServer, listen_of,
  server_of, Call, start, run, terminate, stop, request_in, request_out, start_app, run_app,
  terminate_app, stop_app, call_app, call_all,
}

-- The calls that use the server of net/http.
unfoldable pub uses_server : Call → Bool
uses_server (run serves) = true
uses_server (terminate in_time) = true
uses_server c = false

unfoldable pub any_uses : List Call → Bool
any_uses [] = false
any_uses (c ∷ cs) = let rest = any_uses cs in uses_server c || rest

unfoldable pub is_start : Call → Bool
is_start (start listens) = true
is_start c = false

-- Whether there is a server to use.
unfoldable pub has_server : App → Bool
has_server a = elim (a.server) [ none ↦ false | some s ↦ true ]

unfoldable pub panicked : Option App → Bool
panicked none = true
panicked (some a) = false

-- What a call that is no `Start` leaves: a panic only where there is no server for it, and a server
-- only where there was one.
leaves : App → Call → Went → Bool
leaves a c (went a') =
    (if has_server a' then has_server a else not (has_server a))
    && (has_server a || not (uses_server c))
leaves a c waits = not (uses_server c)
leaves a c panics = not (has_server a) && uses_server c

call_app-leaves :
    (kind : Kind) (a : App) (c : Call) (s : Option HttpServer)
    → a.server ≡ s
    → is_start c ≡ false
    → leaves a c (call_app kind a c) ≡ true
unfolding leaves call_app is_start uses_server has_server run_app run_mgmt terminate_app
    terminate_mgmt stop_app stop_mgmt call_request
call_app-leaves kind a (start listens) s e n = cc
call_app-leaves (http_app backlog h2c tls) a (run serves) s e n = ground arith
call_app-leaves mgmt_app a (run serves) s e n = ground arith
call_app-leaves (http_app backlog h2c tls) a (terminate in_time) s e n = ground arith
call_app-leaves mgmt_app a (terminate in_time) s e n = ground arith
call_app-leaves (http_app backlog h2c tls) a stop s e n = ground arith
call_app-leaves mgmt_app a stop s e n = ground arith
call_app-leaves kind a request_in s e n = ground arith
call_app-leaves kind a request_out s e n = ground arith

module _ (kind : Kind) where
  -- The calls that follow panic exactly where one of them uses a server that is not there.
  go_on-panicked :
      (a : App) (c : Call) (cs : List Call) (w : Went)
      → leaves a c w ≡ true
      → ((a' : App) → panicked (call_all kind a' cs) ≡ (not (has_server a') && any_uses cs))
      → panicked (go_on w a (λ a'. call_all kind a' cs))
        ≡ (not (has_server a) && (uses_server c || any_uses cs))
  unfolding leaves go_on panicked
  go_on-panicked a c cs (went a') l ih = ground (arith, ih a')
  go_on-panicked a c cs waits l ih = ground (arith, ih a)
  go_on-panicked a c cs panics l ih = ground arith

  call_all-panicked :
      (a : App) (cs : List Call)
      → All (λ c. is_start c ≡ false) cs
      → panicked (call_all kind a cs) ≡ (not (has_server a) && any_uses cs)
  unfolding panicked call_all any_uses
  call_all-panicked a [] n = ground arith
  call_all-panicked a (c ∷ cs) (n, ns) =
      go_on-panicked a c cs (call_app kind a c) (call_app-leaves kind a c a.server refl n)
        (λ a'. call_all-panicked a' cs ns)

-- Behind the Start of a new server, whatever its requests and the system do, its other calls panic
-- exactly where it could not listen and Run or Terminate is among them: Stop never does.
pub start-panicked :
    (kind : Kind) (listens : Listen → Bool) (cs : List Call)
    → All (λ c. is_start c ≡ false) cs
    → panicked (call_all kind new_app (start listens ∷ cs))
      ≡ (not (listens (listen_of kind)) && any_uses cs)
unfolding call_all go_on call_app start_app start_mgmt has_server listen_of
start-panicked mgmt_app listens cs ns = elim (Bool-cases (listens plain)) [
  | inl e ↦ simp e (
      call_all-panicked mgmt_app
        (record new_app {
          listener = listening;
          server = some (record { h2c = false; tls = false; shut = false });
        })
        cs ns)
  | inr e ↦ simp e (call_all-panicked mgmt_app (record new_app { cancelled = true }) cs ns)
]
start-panicked (http_app backlog h2c tls) listens cs ns =
    let kind = http_app backlog h2c tls in
    elim (Bool-cases (listens (listen_of kind))) [
      | inl e ↦ simp e (
          call_all-panicked kind
            (record new_app { listener = listening; server = some (server_of kind) }) cs ns)
      | inr e ↦ simp e (call_all-panicked kind (record new_app { cancelled = true }) cs ns)
    ]
