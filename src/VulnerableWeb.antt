-- ===== src/VulnerableWeb.antt =====
-- deploy/workloads/vulnerable-web/main.go: the handlers of the demonstration target. The shell and the text of
-- an exit error are parameters; a command runs for twenty seconds at most.
pub mod Commands
use ztre.Base.{
  ℕ, ◌*◌, GoString, lit, text_eq, is_empty, Bool, true, false, Option, none, some, List, [], ◌∷◌,
  ◌++◌, if◌then◌else◌,
}

pub record Response : Type 0 where
  pub status : ℕ
  pub content_type : GoString
  pub body : GoString

-- exec.CommandContext(ctx, "/bin/sh", "-c", cmd) under a time limit in nanoseconds: the combined output, and
-- the text of the error if there was one.
pub record Shell : Type 0 where
  pub combined_output : ℕ → List GoString → GoString × Option GoString

abbrev pub time_limit : ℕ
time_limit = 20000000000

-- A response, and the commands that the handler ran.
abbrev pub Handled : Type 0
Handled = Response × List (List GoString)

abbrev pub plain_text : GoString → Response
plain_text body = record { status = 200; content_type = lit "text/plain"; body = body }

abbrev exit_text : Option GoString → GoString
exit_text none = []
exit_text (some err) = lit "\n[exit: " ++ (err ++ lit "]\n")

abbrev pub command : GoString → List GoString
command cmd = lit "/bin/sh" ∷ lit "-c" ∷ cmd ∷ []

unfoldable pub exec : Shell → GoString → Handled
exec shell cmd =
    let (out, err) = shell.combined_output time_limit (command cmd) in
    if is_empty cmd
    then (plain_text (lit "ready\n"), [])
    else (plain_text (out ++ exit_text err), command cmd ∷ [])

-- The mux: a path, and the value of `cmd` in the query, empty where there is none.
unfoldable pub handle : Shell → GoString → GoString → Handled
unfolding exec
handle shell path cmd =
    if text_eq path (lit "/healthz")
    then (plain_text (lit "ok\n"), [])
    else if text_eq path (lit "/exec")
    then exec shell cmd
    else (
      record {
        status = 404;
        content_type = lit "text/plain; charset=utf-8";
        body = lit "404 page not found\n";
      },
      [],
    )
