-- ===== src/Containment/Workers/Settled.antt =====
-- What the cache of quarantined pods says while workers come between each other
-- (pkg/containment/executor.go).
use ztre.Base.{
  ℕ, suc, GoString, text_eq, text_eq_iff, Bool, true, false, ◌&&◌, Option, none, some, List, [],
  ◌∷◌, ◌≡◌, ◌≢◌, ◌⊎◌, inl, inr, arith, if◌then◌else◌, is_some, ◌==◌, ==_iff, Bool-cases, ap, sym,
  ◌∙◌,
}
use ztre.Base.Dict
use ztre.Containment.{ApiError, load_or_store, settle}
use ztre.Containment.Workers.{
  Stage, idle, patching, Shared, update, enter, leave, enters, leaves, Reach, here, next,
  IsExclusive, Reach-IsExclusive,
}

-- The number of patches of a pod that ended well.
abbrev pub successes : List (GoString × Bool) → GoString → ℕ
successes [] k = 0
successes ((j, ok) ∷ ended) k =
    if text_eq j k && ok then suc (successes ended k) else successes ended k

abbrev pub is_recorded : Shared → GoString → Bool
is_recorded s k = is_some (Dict.get s.executor.quarantined k)

-- A pod is recorded without a worker that patches it exactly if a patch of it ended well, and one at most did.
pub record IsSettled (s : Shared) : Type 0 where
  pub kept : (k : GoString) → successes s.ended k ≢ 0 → is_recorded s k ≡ true
  pub done : (k : GoString) (w : ℕ) → successes s.ended k ≢ 0 → s.stages w ≢ patching k
  pub owed :
      (k : GoString)
      → is_recorded s k ≡ true
      → (successes s.ended k ≡ 1) ⊎ ((w : ℕ) × (s.stages w ≡ patching k))

stays :
    (s : Shared) (w v : ℕ) (k : GoString) (stage : Stage)
    → s.stages v ≡ patching k
    → s.stages w ≢ patching k
    → update s.stages w stage v ≡ patching k
stays s w v k stage at other = elim (Bool-cases (v == w)) [
  | inr differs ↦ rw differs at
  | inl same ↦ absurd (other (ap s.stages (sym ((==_iff v w).0 same)) ∙ at))
]

-- Where a step leaves the pod alone, a worker that was patching it still is.
owed_still :
    (s : Shared) (w : ℕ) (k : GoString) (stage : Stage) (n : ℕ)
    → s.stages w ≢ patching k
    → (n ≡ 1) ⊎ ((v : ℕ) × (s.stages v ≡ patching k))
    → (n ≡ 1) ⊎ ((v : ℕ) × (update s.stages w stage v ≡ patching k))
owed_still s w k stage n other (inl one) = inl one
owed_still s w k stage n other (inr (v, at)) = inr (v, stays s w v k stage at other)

reserve-IsSettled :
    (s : Shared) (w : ℕ) (key : GoString)
    → s.stages w ≡ idle
    → is_recorded s key ≡ false
    → IsSettled s
    → IsSettled (record s {
      executor = record (s.executor) { quarantined = Dict.put s.executor.quarantined key tt };
      stages = update s.stages w (patching key);
    })
reserve-IsSettled s w key at free h = record {
  kept =
      λ k some_ok. ground (arith, h.kept k some_ok, Dict.get-put s.executor.quarantined key k tt);
  done = λ k v some_ok there. ground (arith, h.kept k some_ok, h.done k v some_ok, ==_iff v w);
  owed = λ k recorded. elim (Bool-cases (text_eq key k)) [
    | inl same ↦ inr (w, ground (arith, (text_eq_iff key k).0 same, ==_iff w w))
    | inr other ↦
        owed_still s w k (patching key) (successes s.ended k) (λ there. cc (at, there))
          (h.owed k (ground (arith, Dict.get-put s.executor.quarantined key k tt)))
  ];
}

enter-IsSettled :
    (s : Shared) (w : ℕ) (key : GoString)
    → s.stages w ≡ idle
    → IsSettled s
    → IsSettled (enter s w key)
unfolding load_or_store
enter-IsSettled s w key at h = elim (Bool-cases (is_recorded s key)) [
  | inl already ↦ rw already h
  | inr free ↦ rw free (reserve-IsSettled s w key at free h)
]

leave-IsSettled :
    (s : Shared) (w : ℕ) (key : GoString) (err : Option ApiError)
    → s.stages w ≡ patching key
    → IsExclusive s
    → IsSettled s
    → IsSettled (leave s w key err)
unfolding settle
leave-IsSettled s w key none at only h = record {
  kept = λ k some_ok. elim (Bool-cases (text_eq key k)) [
    | inl same ↦ ground (arith, only.reserved w key at, (text_eq_iff key k).0 same)
    | inr other ↦ h.kept k (rw other at some_ok)
  ];
  done = λ k v some_ok there.
      ground (arith, only.alone v w k, h.done k v, text_eq_iff key k, ==_iff v w);
  owed = λ k recorded. elim (Bool-cases (text_eq key k)) [
    | inl same ↦ inl (ground (arith, h.done k w, (text_eq_iff key k).0 same))
    | inr other ↦ rw other (
        owed_still s w k idle (successes s.ended k) (λ there. ground (arith, text_eq_iff key k))
          (h.owed k recorded))
  ];
}
leave-IsSettled s w key (some e) at only h = record {
  kept = λ k some_ok. ground (
    arith,
    h.kept k,
    h.done k w,
    Dict.get-remove s.executor.quarantined key k,
    text_eq_iff key k,
  );
  done = λ k v some_ok there. ground (arith, h.done k v, ==_iff v w);
  owed = λ k recorded. elim (Bool-cases (text_eq key k)) [
    | inl same ↦ ground (arith, Dict.get-remove s.executor.quarantined key k)
    | inr other ↦ rw other (
        owed_still s w k idle (successes s.ended k) (λ there. ground (arith, text_eq_iff key k))
          (h.owed k (ground (arith, Dict.get-remove s.executor.quarantined key k))))
  ];
}

-- However the calls of `Quarantine` of any number of workers interleave, without a `ResetCache`: the pods with a
-- successful patch are recorded, no worker patches them again, and they had that one success; and every other
-- pod that is recorded is being patched by some worker.
pub Reach-IsSettled : {s t : Shared} → IsExclusive s → IsSettled s → Reach s t → IsSettled t
Reach-IsSettled only h here = h
Reach-IsSettled only h (next {t} r (enters w key at)) =
    enter-IsSettled t w key at (Reach-IsSettled only h r)
Reach-IsSettled only h (next {t} r (leaves w key err at)) =
    leave-IsSettled t w key err at (Reach-IsExclusive only r) (Reach-IsSettled only h r)
