-- ===== src/Discovery/Baseline/Stability.antt =====
-- The stability of a baseline over time (pkg/discovery/baseline.go, `GetStabilityStatus`).
use ztre.Base.{
  ℕ, ℤ, pos, int64_max, ◌+◌, ◌/◌, ◌↔◌, ◌≢◌, leb_ℤ, ◌≤ℤ◌, ◌≤◌, ◌==◌, Bool, true, false, ◌≡◌, arith,
  if◌then◌else◌, Bool-cases, if_cases, inl, inr,
}
use ztre.Discovery.Tracker.{BehaviorTracker, unique_pattern_count}
use ztre.Discovery.Baseline.{
  StabilityStatus, learning, stabilizing, stable, since, half, shorter, quiet_time, grade,
  stability,
}

-- How far a baseline has come.
abbrev pub progress : StabilityStatus → ℕ
progress learning = 0
progress stabilizing = 1
progress stable = 2

since_mono : (t now later : ℕ) → now ≤ later → since now t ≤ℤ since later t
unfolding since
since_mono t now later h = ground arith

shorter_mono : (a b c d : ℤ) → a ≤ℤ b → c ≤ℤ d → shorter a c ≤ℤ shorter b d
shorter_mono a b c d h k = ground arith

quiet_time_mono :
    (bt : BehaviorTracker) (now later : ℕ) → now ≤ later → quiet_time bt now ≤ℤ quiet_time bt later
unfolding quiet_time
quiet_time_mono bt now later h =
    shorter_mono (since now bt.session_started) (since later bt.session_started)
      (since now bt.last_new_pattern) (since later bt.last_new_pattern)
      (since_mono bt.session_started now later h) (since_mono bt.last_new_pattern now later h)

reaches_later : (t q r : ℤ) → q ≤ℤ r → leb_ℤ t q ≡ true → leb_ℤ t r ≡ true
reaches_later t q r h e = ground arith

grade_mono :
    (threshold q r : ℤ) → q ≤ℤ r → progress (grade threshold q) ≤ progress (grade threshold r)
unfolding grade
grade_mono threshold q r h =
    if_cases (λ s. progress s ≤ progress (grade threshold r)) (leb_ℤ threshold q)
      (λ e. rw (reaches_later threshold q r h e) (omega arith))
      (λ _.
        if_cases (λ s. progress s ≤ progress (grade threshold r)) (leb_ℤ (half threshold) q)
          (λ e.
            if_cases (λ s. 1 ≤ progress s) (leb_ℤ threshold r) (λ _. omega arith)
              (λ _. rw (reaches_later (half threshold) q r h e) (omega arith)))
          (λ _. omega arith))

-- While the tracker stays as it is, the status never goes back as time passes: with no new pattern and
-- no restart a baseline goes from LEARNING over STABILIZING to STABLE.
pub stability_mono :
    (threshold : ℤ) (bt : BehaviorTracker) (now later : ℕ)
    → now ≤ later
    → progress (stability threshold bt now) ≤ progress (stability threshold bt later)
unfolding stability
stability_mono threshold bt now later h = elim (Bool-cases (unique_pattern_count bt == 0)) [
  | inl empty ↦ rw empty (omega arith)
  | inr some_pattern ↦ rw some_pattern (
      grade_mono threshold (quiet_time bt now) (quiet_time bt later)
        (quiet_time_mono bt now later h))
]

grade_stable : (threshold q : ℤ) → grade threshold q ≡ stable → threshold ≤ℤ q
unfolding grade
grade_stable threshold q h = elim (Bool-cases (leb_ℤ threshold q)) [
  | inl over ↦ ground (arith, over)
  | inr under ↦ absurd (unstable (leb_ℤ (half threshold) q) (rw under at h))
]
  where
    unstable : (b : Bool) → (if b then stabilizing else learning) ≡ stable → ⊥
    unstable true e = cc
    unstable false e = cc

shorter_both : (threshold a b : ℤ) → threshold ≤ℤ shorter a b → (threshold ≤ℤ a) × (threshold ≤ℤ b)
shorter_both threshold a b h = (ground arith, ground arith)

-- A STABLE baseline has a pattern, and the process has been running for the threshold, with no new
-- pattern for as long: restoring an old snapshot never makes a baseline stable at once.
pub stable_quiet :
    (threshold : ℤ) (bt : BehaviorTracker) (now : ℕ)
    → stability threshold bt now ≡ stable
    → (1 ≤ unique_pattern_count bt)
      × (threshold ≤ℤ since now bt.last_new_pattern)
      × (threshold ≤ℤ since now bt.session_started)
unfolding stability quiet_time
stable_quiet threshold bt now h = elim (Bool-cases (unique_pattern_count bt == 0)) [
  | inl empty ↦ absurd (learning-stable (rw empty at h))
  | inr some_pattern ↦
      let graded : grade threshold (quiet_time bt now) ≡ stable = rw some_pattern at h in
      let both =
        shorter_both threshold (since now bt.session_started) (since now bt.last_new_pattern)
          (grade_stable threshold (quiet_time bt now) graded) in
      (ground (arith, some_pattern), both.1, both.0)
]
  where
    learning-stable : learning ≡ stable → ⊥
    learning-stable e = cc

-- It was at least `t` before now.
since_at_least :
    (t since_when now : ℕ)
    → t ≤ int64_max
    → (pos t ≤ℤ since now since_when) ↔ (since_when + t ≤ now)
unfolding since
since_at_least t since_when now top = ground arith

progress_of_grade :
    (t : ℕ) (q : ℤ)
    → ((2 ≤ progress (grade (pos t) q)) ↔ (pos t ≤ℤ q))
      × ((1 ≤ progress (grade (pos t) q)) ↔ (pos (t / 2) ≤ℤ q))
unfolding grade
progress_of_grade t q = ground arith

stable_progress : (s : StabilityStatus) → (s ≡ stable) ↔ (2 ≤ progress s)
stable_progress learning = ground arith
stable_progress stabilizing = ground arith
stable_progress stable = ground arith

learning_progress : (s : StabilityStatus) → (s ≢ learning) ↔ (1 ≤ progress s)
learning_progress learning = ground arith
learning_progress stabilizing = ground arith
learning_progress stable = ground arith

-- The tracker has a pattern, and both its last new pattern and the start of the process are `t` old.
abbrev pub IsQuietFor : ℕ → BehaviorTracker → ℕ → Type 0
IsQuietFor t bt now =
    (1 ≤ unique_pattern_count bt) × (bt.last_new_pattern + t ≤ now) × (bt.session_started + t ≤ now)

progress_of_stability :
    (t : ℕ) (bt : BehaviorTracker) (now : ℕ)
    → t ≤ int64_max
    → ((2 ≤ progress (stability (pos t) bt now)) ↔ IsQuietFor t bt now)
      × ((1 ≤ progress (stability (pos t) bt now)) ↔ IsQuietFor (t / 2) bt now)
unfolding stability quiet_time
progress_of_stability t bt now top = ground (
  arith,
  progress_of_grade t (quiet_time bt now),
  since_at_least t bt.last_new_pattern now top,
  since_at_least t bt.session_started now top,
  since_at_least (t / 2) bt.last_new_pattern now (omega arith),
  since_at_least (t / 2) bt.session_started now (omega arith),
)

-- A baseline is STABLE exactly if it has a pattern and both its last new pattern and the start of the process
-- lie the threshold back; it has left LEARNING exactly if it has a pattern and both lie half the threshold, rounded
-- down, back; and while the tracker stays as it is the status never goes back as time passes. The threshold is a
-- Duration that is not negative.
pub stability_exact :
    (t : ℕ) (bt : BehaviorTracker) (now later : ℕ)
    → t ≤ int64_max
    → now ≤ later
    → let status = stability (pos t) bt now in
      ((status ≡ stable) ↔ IsQuietFor t bt now)
      × ((status ≢ learning) ↔ IsQuietFor (t / 2) bt now)
      × (progress status ≤ progress (stability (pos t) bt later))
stability_exact t bt now later top h =
    let status = stability (pos t) bt now in
    let exact = progress_of_stability t bt now top in
    (
      (
        λ is. exact.0.0 ((stable_progress status).0 is),
        λ q. (stable_progress status).1 (exact.0.1 q),
      ),
      (
        λ is. exact.1.0 ((learning_progress status).0 is),
        λ q. (learning_progress status).1 (exact.1.1 q),
      ),
      stability_mono (pos t) bt now later h,
    )
