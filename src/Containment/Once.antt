-- ===== src/Containment/Once.antt =====
-- One call of `Quarantine` (pkg/containment/executor.go).
use ztre.Base.{
  ℕ, suc, ◌+◌, GoString, text_eq, text_eq_refl, true, false, Option, none, some, ◌≡◌, refl, inl,
  inr, ◌↔◌, ◌∙◌, arith, if◌then◌else◌, Bool-cases,
}
use ztre.Base.Dict
use ztre.Base.FilePath.{slash, has_char, append_char_inj}
use ztre.Containment.{
  ApiError, Executor, Retry, is_retryable, backoff_steps, pod_key, settle, quarantine,
  is_quarantined,
}
use ztre.Containment.Retrying.{IsOnError, is_retried}

-- Distinct pods have distinct keys, provided their namespaces hold no slash.
pub pod_key_inj :
    (n m p q : GoString)
    → has_char slash n ≡ false
    → has_char slash m ≡ false
    → pod_key n p ≡ pod_key m q
    → (n ≡ m) × (p ≡ q)
unfolding pod_key
pod_key_inj n m p q hn hm e = append_char_inj slash n m p q hn hm e

module _ (retry : Retry) (e : Executor) (namespace pod : GoString)
    (answers : ℕ → Option ApiError) where
  abbrev after : Executor
  after = (quarantine retry e namespace pod answers).0

  abbrev returned : Option ApiError
  returned = (quarantine retry e namespace pod answers).1

  -- `Quarantine` returns no error exactly when the pod is recorded as quarantined afterwards.
  pub quarantine_exact : (is_quarantined after namespace pod ≡ true) ↔ (returned ≡ none)
  unfolding quarantine is_quarantined
  quarantine_exact =
      let key = pod_key namespace pod in
      ground (
        arith,
        Dict.get-put e.quarantined key key tt,
        text_eq_refl key,
        Dict.get-remove (Dict.put e.quarantined key tt) key key,
      )

  -- A pod that is recorded already is left alone: no call of the API, no error, nothing changed.
  pub quarantine_skip :
      is_quarantined e namespace pod ≡ true → quarantine retry e namespace pod answers ≡ (e, none)
  unfolding quarantine is_quarantined
  quarantine_skip h = ground arith

  -- A call that returns an error leaves the cache as it found it, and moves the error counter only.
  pub quarantine_failure :
      (err : ApiError)
      → returned ≡ some err
      → (after.quarantined ≡ e.quarantined)
        × (after.api_errors ≡ e.api_errors + 1)
        × (after.containment_actions ≡ e.containment_actions)
  unfolding quarantine
  quarantine_failure err h =
      let key = pod_key namespace pod in ground (arith, Dict.remove-put_new e.quarantined key tt)

  -- The record of another pod is never touched.
  pub quarantine_other :
      (other_namespace other_pod : GoString)
      → text_eq (pod_key namespace pod) (pod_key other_namespace other_pod) ≡ false
      → is_quarantined after other_namespace other_pod ≡ is_quarantined e other_namespace other_pod
  unfolding quarantine is_quarantined
  quarantine_other other_namespace other_pod h =
      let key = pod_key namespace pod in
      let other = pod_key other_namespace other_pod in
      ground (
        arith,
        Dict.get-put e.quarantined key other tt,
        Dict.get-remove (Dict.put e.quarantined key tt) key other,
      )

-- The answer that decides: the first that is no retryable error, of at most three.
abbrev pub outcome : (ℕ → Option ApiError) → Option ApiError × ℕ
outcome answers =
    if is_retried is_retryable (answers 0)
    then (if is_retried is_retryable (answers 1) then (answers 2, 3) else (answers 1, 2))
    else (answers 0, 1)

on_error_three :
    (retry : Retry) (laws : IsOnError retry) (answers : ℕ → Option ApiError)
    → retry.on_error backoff_steps is_retryable answers ≡ outcome answers
on_error_three retry laws answers =
    let later : ℕ → Option ApiError = λ i. answers (suc i) in
    let last : ℕ → Option ApiError = λ i. answers (suc (suc i)) in
    elim (Bool-cases (is_retried is_retryable (answers 0))) [
      | inr over ↦ rw over (laws.stop 2 is_retryable answers over)
      | inl again ↦ elim (Bool-cases (is_retried is_retryable (answers 1))) [
        | inr over ↦
            rw (again, over)
              (laws.one_more 1 is_retryable answers again
                ∙ rw (laws.stop 1 is_retryable later over))
        | inl more ↦
            rw (again, more)
              (laws.one_more 1 is_retryable answers again
                ∙ rw (laws.one_more 0 is_retryable later more)
                    (rw (laws.last_call is_retryable last)))
      ]
    ]

-- For a pod that is not recorded, a call returns the first answer of the API that is no retryable
-- error, of at most three, and makes as many calls as it takes to get there. Errors that cannot be
-- mended by another call (not found, invalid) are not retried.
pub quarantine-outcome :
    (retry : Retry) (laws : IsOnError retry) (e : Executor) (namespace pod : GoString)
    (answers : ℕ → Option ApiError)
    → is_quarantined e namespace pod ≡ false
    → ((quarantine retry e namespace pod answers).1 ≡ (outcome answers).0)
      × ((quarantine retry e namespace pod answers).0.patches ≡ e.patches + (outcome answers).1)
unfolding quarantine is_quarantined
quarantine-outcome retry laws e namespace pod answers h =
    rw (h, on_error_three retry laws answers) (settled (outcome answers).0)
  where
    settled :
        (o : Option ApiError)
        → (o ≡ o)
          × ((settle
                (record e {
                  quarantined = Dict.put e.quarantined (pod_key namespace pod) tt;
                  patches = e.patches + (outcome answers).1;
                })
                (pod_key namespace pod)
                o).patches
              ≡ e.patches + (outcome answers).1)
    settled none = (refl, refl)
    settled (some err) = (refl, refl)
