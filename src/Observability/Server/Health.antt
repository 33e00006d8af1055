-- ===== src/Observability/Server/Health.antt =====
-- What the health endpoint says of the agent's metrics server (pkg/observability/metrics.go).
use ztre.Base.{GoString, lit, text_eq, false, Option, none, some, ◌≡◌, refl, ◌⊎◌, inl, inr}
use ztre.Observability.Server.{
  Server, start_metrics_server, handle, request, Step, watcher_stops, main_stops, serve_fails,
  Reach, here, next,
}

-- A step never brings a server back.
Step-serving : {s t : Server} → Step s t → t.serving ≡ false
Step-serving (watcher_stops watching) = refl
Step-serving main_stops = refl
Step-serving (serve_fails serving) = refl

Reach-serving : {s t : Server} → Reach s t → (t ≡ s) ⊎ (t.serving ≡ false)
Reach-serving here = inl refl
Reach-serving (next r st) = inr (Step-serving st)

healthy :
    (addr page : GoString) (bound : Option GoString)
    → request (start_metrics_server addr bound) page (lit "/healthz")
      ≡ (elim bound [ none ↦ none | some b ↦ some (record { status = 200; body = lit "ok\n" }) ])
unfolding start_metrics_server handle text_eq
healthy addr page none = refl
healthy addr page (some b) = refl

-- The health check of a started server, at any later time: it answers 200 with "ok" as long as nothing has stopped
-- the server, and after any stop (the context, main, or a failure) no request is answered again. Where the address
-- could not be bound it is refused from the start, while the agent goes on.
pub health_until_stopped :
    (addr page : GoString) (bound : Option GoString) (t : Server)
    → Reach (start_metrics_server addr bound) t
    → ((t ≡ start_metrics_server addr bound)
        × (request t page (lit "/healthz") ≡ (elim bound [
          | none ↦ none
          | some b ↦ some (record { status = 200; body = lit "ok\n" })
        ])))
      ⊎ ((path : GoString) → request t page path ≡ none)
health_until_stopped addr page bound t run = elim (Reach-serving run) [
  | inl same ↦ inl (same, rw same (healthy addr page bound))
  | inr stopped ↦ inr (λ path. rw stopped refl)
]
