-- ===== src/Containment/Retrying.antt =====
-- What client-go documents of retry.OnError, and a loop that does it.
use ztre.Base.{
  ℕ, zero, suc, ◌≤◌, Bool, true, false, Option, none, some, ◌≡◌, refl, inl, inr, arith, Bool-cases,
}
use ztre.Containment.{ApiError, Retry}

-- The call fails with an error that is worth another call.
abbrev pub is_retried : (ApiError → Bool) → Option ApiError → Bool
is_retried retriable none = false
is_retried retriable (some e) = retriable e

-- Calls are made while each returns an error that the test accepts, up to the number of steps; the
-- result is that of the last call.
pub record IsOnError (retry : Retry) : Type 0 where
  pub one_more :
      (steps : ℕ) (retriable : ApiError → Bool) (answers : ℕ → Option ApiError)
      → is_retried retriable (answers 0) ≡ true
      → retry.on_error (suc (suc steps)) retriable answers ≡ (
        (retry.on_error (suc steps) retriable (λ i. answers (suc i))).0,
        suc (retry.on_error (suc steps) retriable (λ i. answers (suc i))).1,
      )
  pub last_call :
      (retriable : ApiError → Bool) (answers : ℕ → Option ApiError)
      → retry.on_error 1 retriable answers ≡ (answers 0, 1)
  pub stop :
      (steps : ℕ) (retriable : ApiError → Bool) (answers : ℕ → Option ApiError)
      → is_retried retriable (answers 0) ≡ false
      → retry.on_error (suc steps) retriable answers ≡ (answers 0, 1)

abbrev loop_step : Bool → Option ApiError → Option ApiError × ℕ → Option ApiError × ℕ
loop_step true answer rest = (rest.0, suc rest.1)
loop_step false answer rest = (answer, 1)

retry_loop : ℕ → (ApiError → Bool) → (ℕ → Option ApiError) → Option ApiError × ℕ
retry_loop zero retriable answers = (answers 0, 0)
retry_loop (suc zero) retriable answers = (answers 0, 1)
retry_loop (suc (suc steps)) retriable answers =
    loop_step (is_retried retriable (answers 0)) (answers 0)
      (retry_loop (suc steps) retriable (λ i. answers (suc i)))

-- A retry loop that runs, for the examples.
unfoldable pub looping : Retry
unfolding retry_loop
looping = record { on_error = retry_loop }

looping_stop :
    (steps : ℕ) (retriable : ApiError → Bool) (answers : ℕ → Option ApiError)
    → is_retried retriable (answers 0) ≡ false
    → retry_loop (suc steps) retriable answers ≡ (answers 0, 1)
unfolding retry_loop
looping_stop zero retriable answers h = refl
looping_stop (suc steps) retriable answers h = rw h

pub looping-IsOnError : IsOnError looping
unfolding looping
looping-IsOnError = record {
  one_more = λ steps retriable answers h. rw h;
  last_call = λ retriable answers. refl;
  stop = looping_stop;
}

module _ (retry : Retry) (laws : IsOnError retry) where
  -- No more calls than steps, and at least one.
  pub calls_bounded :
      (steps : ℕ) (retriable : ApiError → Bool) (answers : ℕ → Option ApiError)
      → (1 ≤ (retry.on_error (suc steps) retriable answers).1)
        × ((retry.on_error (suc steps) retriable answers).1 ≤ suc steps)
  calls_bounded zero retriable answers = rw (laws.last_call retriable answers) (omega arith)
  calls_bounded (suc steps) retriable answers =
      let later = calls_bounded steps retriable (λ i. answers (suc i)) in
      elim (Bool-cases (is_retried retriable (answers 0))) [
        | inl again ↦ rw (laws.one_more steps retriable answers again) (omega (arith, later))
        | inr over ↦ rw (laws.stop (suc steps) retriable answers over) (omega arith)
      ]
