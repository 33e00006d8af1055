-- ===== src/VulnerableWeb/Commands.antt =====
-- What a request to the demonstration target runs (deploy/workloads/vulnerable-web/main.go).
use ztre.Base.{
  GoString, lit, text_eq, text_eq_iff, is_empty, not, ◌&&◌, [], ◌∷◌, ◌≡◌, arith, if◌then◌else◌,
}
use ztre.VulnerableWeb.{Shell, command, handle, exec}

-- A request runs a command exactly if it is for /exec with a command, and then the one command "/bin/sh -c" of
-- it; and the response is 404 exactly for the paths other than /healthz and /exec.
pub handle_runs :
    (shell : Shell) (path cmd : GoString)
    → ((handle shell path cmd).1
        ≡ (if text_eq path (lit "/exec") && not (is_empty cmd) then command cmd ∷ [] else []))
      × ((handle shell path cmd).0.status ≡ (
          if text_eq path (lit "/healthz")
          then 200
          else if text_eq path (lit "/exec")
          then 200
          else 404))
unfolding handle exec
handle_runs shell path cmd =
    ground (arith, text_eq_iff path (lit "/healthz"), text_eq_iff path (lit "/exec"))
