-- ===== src/Containment/Examples.antt =====
-- Runs of pkg/containment and instances of its theorems.
use ztre.Base.{ℕ, zero, suc, lit, true, Option, none, some, List, [], ◌∷◌, ◌≡◌, refl, ◌↔◌}
use ztre.Base.Dict
use ztre.Containment.{
  ApiError, not_found, conflict, transient, Executor, new_executor, quarantine, is_quarantined,
  reset_cache, is_retryable, load_or_store,
}
use ztre.Containment.Retrying.{looping, looping-IsOnError}
use ztre.Containment.Once.{quarantine_exact, quarantine-outcome}
use ztre.Containment.Runs.{Request, run, IsAccounted, run-IsAccounted}
use ztre.Containment.Workers.Settled.{IsSettled, Reach-IsSettled}
use ztre.Containment.Workers.{
  Shared, idle, patching, enter, enters, Reach, here, next, IsExclusive, start, start-IsExclusive,
  Reach-IsExclusive, reset_breaks,
}

abbrev always : Option ApiError → ℕ → Option ApiError
always answer i = answer

-- Two conflicts, then success.
abbrev recovers : ℕ → Option ApiError
recovers zero = some conflict
recovers (suc zero) = some transient
recovers (suc (suc i)) = none

abbrev web : Executor
web = (quarantine looping new_executor (lit "shop") (lit "web-0") recovers).0

web_patched : web.patches ≡ 3
unfolding quarantine looping is_retryable Dict.get Dict.put
web_patched = refl

web_recorded : is_quarantined web (lit "shop") (lit "web-0") ≡ true
unfolding quarantine looping is_retryable is_quarantined Dict.get Dict.put
web_recorded = refl

web_again : (quarantine looping web (lit "shop") (lit "web-0") recovers).0.patches ≡ 3
unfolding quarantine looping is_retryable Dict.get Dict.put
web_again = refl

gone_fails :
    (quarantine looping web (lit "shop") (lit "db-0") (always (some not_found))).1 ≡ some not_found
unfolding quarantine looping is_retryable Dict.get Dict.put
gone_fails = refl

quarantine_exact_example :
    (is_quarantined web (lit "shop") (lit "web-0") ≡ true)
    ↔ ((quarantine looping new_executor (lit "shop") (lit "web-0") recovers).1 ≡ none)
quarantine_exact_example = quarantine_exact looping new_executor (lit "shop") (lit "web-0") recovers

quarantine-outcome_example :
    ((quarantine looping new_executor (lit "shop") (lit "web-0") recovers).1 ≡ none)
    × ((quarantine looping new_executor (lit "shop") (lit "web-0") recovers).0.patches ≡ 3)
unfolding is_quarantined is_retryable Dict.get
quarantine-outcome_example =
    quarantine-outcome looping looping-IsOnError new_executor (lit "shop") (lit "web-0") recovers
      refl

abbrev requests : List Request
requests =
    record { namespace = lit "shop"; pod = lit "web-0"; answers = recovers }
    ∷ record { namespace = lit "shop"; pod = lit "web-0"; answers = recovers }
    ∷ record { namespace = lit "shop"; pod = lit "db-0"; answers = always (some not_found) }
    ∷ []

run-IsAccounted_example :
    IsAccounted (run looping new_executor 0 requests).0 (run looping new_executor 0 requests).1
run-IsAccounted_example =
    run-IsAccounted looping new_executor 0 requests (record { actions = refl; errors = refl })

abbrev one_in : Shared
one_in = enter start 0 (lit "shop/web-0")

abbrev two_in : Shared
two_in = enter one_in 1 (lit "shop/web-0")

two_in_reached : Reach start two_in
two_in_reached =
    next (next here (enters 0 (lit "shop/web-0") refl)) (enters 1 (lit "shop/web-0") first)
  where
    first : one_in.stages 1 ≡ idle
    first = unfold load_or_store Dict.get in refl

start-IsSettled : IsSettled start
unfolding Dict.get
start-IsSettled = record {
  kept = λ k some_ok. absurd (some_ok refl);
  done = λ k w some_ok. absurd (some_ok refl);
  owed = λ k recorded. cc recorded;
}

Reach-IsSettled_example : IsSettled two_in
Reach-IsSettled_example =
    Reach-IsSettled {s = start} {t = two_in} start-IsExclusive start-IsSettled two_in_reached

Reach-IsExclusive_example : IsExclusive two_in
Reach-IsExclusive_example =
    Reach-IsExclusive {s = start} {t = two_in} start-IsExclusive two_in_reached

reset_breaks_example :
    let t = enter (record one_in { executor = reset_cache one_in.executor }) 1 (lit "shop/web-0") in
    (t.stages 0 ≡ patching (lit "shop/web-0")) × (t.stages 1 ≡ patching (lit "shop/web-0"))
unfolding load_or_store Dict.get
reset_breaks_example = reset_breaks one_in 0 1 (lit "shop/web-0") refl refl
