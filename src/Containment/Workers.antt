-- ===== src/Containment/Workers.antt =====
-- Workers that call `Quarantine` at the same time (pkg/containment/executor.go): the steps of the
-- calls interleave at the accesses to the shared cache.
pub mod Settled
use ztre.Base.{
  ℕ, Bool, not, List, [], ◌∷◌, GoString, text_eq_iff, true, Option, ◌≡◌, ◌==◌, ==_iff, arith,
  if◌then◌else◌, is_some,
}
use ztre.Base.Dict
use ztre.Containment.{ApiError, Executor, load_or_store, settle, reset_cache, new_executor}

-- Where a worker stands: outside, or between its reservation of a pod's key and the end of its
-- retry loop.
pub data Stage : Type 0 where
  idle : Stage
  patching : GoString → Stage

-- `ended` are the retry loops that have come to an end, the newest first, each with whether it ended well.
pub record Shared : Type 0 where
  pub executor : Executor
  pub stages : ℕ → Stage
  pub ended : List (GoString × Bool)

abbrev pub update : (ℕ → Stage) → ℕ → Stage → ℕ → Stage
update stages w stage v = if v == w then stage else stages v

-- `enter` is the call of LoadOrStore with its two outcomes, and `leave` what follows the retry loop.
abbrev pub enter : Shared → ℕ → GoString → Shared
enter s w key =
    let (e, already) = load_or_store s.executor key in
    record s {
      executor = e;
      stages = if already then s.stages else update s.stages w (patching key);
    }

abbrev pub leave : Shared → ℕ → GoString → Option ApiError → Shared
leave s w key err = record {
  executor = settle s.executor key err;
  stages = update s.stages w idle;
  ended = (key, not (is_some err)) ∷ s.ended;
}

pub data Step (s : Shared) : Shared → Type 0 where
  enters : (w : ℕ) (key : GoString) → s.stages w ≡ idle → Step s (enter s w key)
  leaves :
      (w : ℕ) (key : GoString) (err : Option ApiError)
      → s.stages w ≡ patching key
      → Step s (leave s w key err)

pub data Reach (s : Shared) : Shared → Type 0 where
  here : Reach s s
  next : {t u : Shared} → Reach s t → Step t u → Reach s u

-- A pod that is being patched is reserved, and by one worker only.
pub record IsExclusive (s : Shared) : Type 0 where
  pub reserved :
      (w : ℕ) (k : GoString)
      → s.stages w ≡ patching k
      → is_some (Dict.get s.executor.quarantined k) ≡ true
  pub alone : (w v : ℕ) (k : GoString) → s.stages w ≡ patching k → s.stages v ≡ patching k → w ≡ v

enter-IsExclusive :
    (s : Shared) (w : ℕ) (key : GoString) → IsExclusive s → IsExclusive (enter s w key)
unfolding load_or_store
enter-IsExclusive s w key h = record {
  reserved = λ v k e.
      ground
        (arith, h.reserved v k, Dict.get-put s.executor.quarantined key k tt, text_eq_iff key k);
  alone = λ v u k e d.
      ground (arith, h.alone v u k, h.reserved v k, h.reserved u k, ==_iff v w, ==_iff u w);
}

leave-IsExclusive :
    (s : Shared) (w : ℕ) (key : GoString) (err : Option ApiError)
    → s.stages w ≡ patching key
    → IsExclusive s
    → IsExclusive (leave s w key err)
unfolding settle
leave-IsExclusive s w key err at h = record {
  reserved = λ v k e. ground (
    arith,
    h.reserved v k,
    h.alone v w k,
    Dict.get-remove s.executor.quarantined key k,
    text_eq_iff key k,
    ==_iff v w,
  );
  alone = λ v u k e d. ground (arith, h.alone v u k);
}

Step-IsExclusive : {s t : Shared} → Step s t → IsExclusive s → IsExclusive t
Step-IsExclusive {s} (enters w key at) h = enter-IsExclusive s w key h
Step-IsExclusive {s} (leaves w key err at) h = leave-IsExclusive s w key err at h

-- However the calls of any number of workers interleave, a pod is patched by at most one worker at a
-- time, and while it is patched it is reserved in the cache.
pub Reach-IsExclusive : {s t : Shared} → IsExclusive s → Reach s t → IsExclusive t
Reach-IsExclusive h here = h
Reach-IsExclusive h (next r st) = Step-IsExclusive st (Reach-IsExclusive h r)

abbrev pub start : Shared
start = record { executor = new_executor; stages = λ _. idle; ended = [] }

pub start-IsExclusive : IsExclusive start
start-IsExclusive = record { reserved = λ w k e. cc; alone = λ w v k e d. cc }

-- `ResetCache` during a patch takes the guarantee away: another worker that then asks for the same pod
-- patches it too, at the same time.
pub reset_breaks :
    (s : Shared) (w v : ℕ) (key : GoString)
    → s.stages w ≡ patching key
    → s.stages v ≡ idle
    → let t = enter (record s { executor = reset_cache s.executor }) v key in
      (t.stages w ≡ patching key) × (t.stages v ≡ patching key)
unfolding load_or_store reset_cache Dict.get
reset_breaks s w v key busy free = ground (arith, ==_iff w v, ==_iff v v)
