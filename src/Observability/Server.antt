-- ===== src/Observability/Server.antt =====
-- pkg/observability/metrics.go, `StartMetricsServer`: the server from its start to its shutdown, with main's
-- two calls at the end of cmd/ztre-agent/main.go. The HTTP library and the page of the metrics are parameters.
pub mod Health
use ztre.Base.{
  ℕ, ◌+◌, ◌*◌, GoString, lit, text_eq, Bool, true, false, not, ◌&&◌, Option, none, some, ◌≡◌,
  if◌then◌else◌,
}

abbrev pub second : ℕ
second = 1000000000

-- http.Server: `addr` is the bound address once the listener exists; a goroutine serves while `serving`;
-- after `closed`, Serve has ended with ErrServerClosed. `watching` is the goroutine that waits for the context.
pub record Server : Type 0 where
  pub addr : GoString
  pub read_timeout : ℕ
  pub write_timeout : ℕ
  pub serving : Bool
  pub watching : Bool
  pub closed : Bool
  pub errors_logged : ℕ

pub record Response : Type 0 where
  pub status : ℕ
  pub body : GoString

abbrev new_server : GoString → Server
new_server addr = record {
  addr = addr;
  read_timeout = 5 * second;
  write_timeout = 10 * second;
  serving = false;
  watching = false;
  closed = false;
  errors_logged = 0;
}

-- From the address to the server, with net.Listen's answer: the address that it bound, or an error, which
-- is logged.
unfoldable pub start_metrics_server : GoString → Option GoString → Server
start_metrics_server addr none = record (new_server addr) { errors_logged = 1 }
start_metrics_server addr (some bound) = record (new_server addr) {
  addr = bound;
  serving = true;
  watching = true;
}

-- The two handlers; the mux answers any other path with 404.
unfoldable pub handle : GoString → GoString → Response
handle page path =
    if text_eq path (lit "/metrics")
    then record { status = 200; body = page }
    else if text_eq path (lit "/healthz")
    then record { status = 200; body = lit "ok\n" }
    else record { status = 404; body = lit "404 page not found\n" }

-- A request to the server; none is a refused connection.
abbrev pub request : Server → GoString → GoString → Option Response
request s page path = if s.serving then some (handle page path) else none

-- srv.Shutdown, which closes the listener: Serve returns ErrServerClosed, which is not logged.
abbrev pub shutdown : Server → Server
shutdown s = record s { serving = false; closed = true }

-- What can happen to the server: the watcher shuts it down when the context is done, main shuts it down at its
-- end, or Serve fails.
pub data Step (s : Server) : Server → Type 0 where
  watcher_stops : s.watching ≡ true → Step s (record (shutdown s) { watching = false })
  main_stops : Step s (shutdown s)
  serve_fails :
      s.serving ≡ true → Step s (record s { serving = false; errors_logged = s.errors_logged + 1 })

pub data Reach (s : Server) : Server → Type 0 where
  here : Reach s s
  next : {t v : Server} → Reach s t → Step t v → Reach s v
