-- ===== src/Containment.antt =====
-- pkg/containment/executor.go: the quarantine of a pod by a label patch, with a cache that reserves a
-- pod for one worker. The Kubernetes client and client-go's retry loop are parameters: the answers
-- of successive patch calls, and `Retry`.
pub mod Retrying
pub mod Once
pub mod Runs
pub mod Workers
pub mod Cluster
mod Examples
use ztre.Base.{
  ℕ, suc, ◌+◌, ◌<◌, GoString, lit, text_eq, Bool, true, false, Option, none, some, List, [], ◌∷◌,
  ◌++◌, ◌≡◌, is_some, if◌then◌else◌,
}
use ztre.Base.Dict
use ztre.Base.Dict.{Dict}

-- The classes of API errors that the code tells apart.
pub data ApiError : Type 0 where
  not_found invalid conflict transient : ApiError

-- `Executor`, with the calls that it has made to the API and the two counters that it moves.
pub record Executor : Type 0 where
  pub quarantined : Dict (Unit {0})
  pub patches : ℕ
  pub containment_actions : ℕ
  pub api_errors : ℕ

abbrev pub new_executor : Executor
new_executor = record { quarantined = []; patches = 0; containment_actions = 0; api_errors = 0 }

-- fmt.Sprintf("%s/%s", namespace, podName)
unfoldable pub pod_key : GoString → GoString → GoString
pod_key namespace pod_name = namespace ++ (lit "/" ++ pod_name)

unfoldable pub is_retryable : ApiError → Bool
is_retryable not_found = false
is_retryable invalid = false
is_retryable conflict = true
is_retryable transient = true

-- retry.OnError: from the number of steps, the test and the answer of each call (none is success) to
-- the error returned and the number of calls made.
pub record Retry : Type 0 where
  pub on_error : ℕ → (ApiError → Bool) → (ℕ → Option ApiError) → Option ApiError × ℕ

abbrev pub backoff_steps : ℕ
backoff_steps = 3

-- LoadOrStore: the new cache, and whether the key was there.
unfoldable pub load_or_store : Executor → GoString → Executor × Bool
load_or_store e key =
    if is_some (Dict.get e.quarantined key)
    then (e, true)
    else (record e { quarantined = Dict.put e.quarantined key tt }, false)

-- What follows the retry loop: a failure gives the reservation back.
unfoldable pub settle : Executor → GoString → Option ApiError → Executor
settle e key none = record e { containment_actions = e.containment_actions + 1 }
settle e key (some err) = record e {
  quarantined = Dict.remove e.quarantined key;
  api_errors = e.api_errors + 1;
}

unfoldable pub quarantine :
    Retry → Executor → GoString → GoString → (ℕ → Option ApiError) → Executor × Option ApiError
unfolding load_or_store settle pod_key
quarantine retry e namespace pod_name answers =
    let key = pod_key namespace pod_name in
    let (reserved, already) = load_or_store e key in
    let (err, calls) = retry.on_error backoff_steps is_retryable answers in
    if already
    then (e, none)
    else (settle (record reserved { patches = reserved.patches + calls }) key err, err)

unfoldable pub is_quarantined : Executor → GoString → GoString → Bool
unfolding pod_key
is_quarantined e namespace pod_name = is_some (Dict.get e.quarantined (pod_key namespace pod_name))

unfoldable pub reset_cache : Executor → Executor
reset_cache e = record e { quarantined = [] }
