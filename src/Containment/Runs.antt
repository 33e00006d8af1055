-- ===== src/Containment/Runs.antt =====
-- Sequences of calls of `Quarantine` (pkg/containment/executor.go), with no reset between them.
use ztre.Base.{
  ℕ, ◌+◌, GoString, true, Option, List, [], ◌∷◌, ◌≡◌, arith, if◌then◌else◌, is_some, length,
}
use ztre.Base.Dict
use ztre.Containment.{ApiError, Executor, Retry, pod_key, quarantine, is_quarantined}

pub record Request : Type 0 where
  pub namespace : GoString
  pub pod : GoString
  pub answers : ℕ → Option ApiError

-- The state after the requests, and how many of them returned an error.
unfoldable pub run : Retry → Executor → ℕ → List Request → Executor × ℕ
run retry e failed [] = (e, failed)
run retry e failed (r ∷ rest) =
    let (e', err) = quarantine retry e r.namespace r.pod r.answers in
    run retry e' (if is_some err then failed + 1 else failed) rest

-- Every recorded pod stands for one containment action, and every error returned was counted.
pub record IsAccounted (e : Executor) (failed : ℕ) : Type 0 where
  pub actions : e.containment_actions ≡ length e.quarantined
  pub errors : e.api_errors ≡ failed

quarantine-IsAccounted :
    (retry : Retry) (e : Executor) (failed : ℕ) (r : Request)
    → IsAccounted e failed
    → IsAccounted
        (quarantine retry e r.namespace r.pod r.answers).0
        (if is_some (quarantine retry e r.namespace r.pod r.answers).1 then failed + 1 else failed)
unfolding quarantine
quarantine-IsAccounted retry e failed r h =
    let key = pod_key r.namespace r.pod in
    ground
      (arith, Dict.length-put_new e.quarantined key tt, Dict.remove-put_new e.quarantined key tt)

-- After any sequence of calls from accounted counters, failures and repetitions among them, the
-- containment counter is the number of pods recorded, and the error counter the number of calls
-- that returned an error: no pod is counted twice.
pub run-IsAccounted :
    (retry : Retry) (e : Executor) (failed : ℕ) (requests : List Request)
    → IsAccounted e failed
    → IsAccounted (run retry e failed requests).0 (run retry e failed requests).1
unfolding run
run-IsAccounted retry e failed [] h = h
run-IsAccounted retry e failed (r ∷ rest) h =
    run-IsAccounted retry (quarantine retry e r.namespace r.pod r.answers).0
      (if is_some (quarantine retry e r.namespace r.pod r.answers).1 then failed + 1 else failed)
      rest (quarantine-IsAccounted retry e failed r h)

quarantine_keeps :
    (retry : Retry) (e : Executor) (n p m q : GoString) (answers : ℕ → Option ApiError)
    → is_quarantined e m q ≡ true
    → is_quarantined (quarantine retry e n p answers).0 m q ≡ true
unfolding quarantine is_quarantined
quarantine_keeps retry e n p m q answers h =
    let key = pod_key n p in
    ground (
      arith,
      Dict.get-put e.quarantined key (pod_key m q) tt,
      Dict.remove-put_new e.quarantined key tt,
    )

-- A pod once recorded stays recorded through any later calls, for whichever pods and with whichever
-- answers.
pub run_keeps :
    (retry : Retry) (e : Executor) (failed : ℕ) (requests : List Request) (namespace pod : GoString)
    → is_quarantined e namespace pod ≡ true
    → is_quarantined (run retry e failed requests).0 namespace pod ≡ true
unfolding run
run_keeps retry e failed [] namespace pod h = h
run_keeps retry e failed (r ∷ rest) namespace pod h =
    run_keeps retry (quarantine retry e r.namespace r.pod r.answers).0
      (if is_some (quarantine retry e r.namespace r.pod r.answers).1 then failed + 1 else failed)
      rest namespace pod (quarantine_keeps retry e r.namespace r.pod namespace pod r.answers h)
