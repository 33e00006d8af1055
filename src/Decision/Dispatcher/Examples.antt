-- ===== src/Decision/Dispatcher/Examples.antt =====
-- Runs of pkg/decision/dispatcher.go and instances of its theorems.
use ztre.Base.{pos, ◌+◌, lit, List, [], ◌∷◌, ◌≡◌, refl}
use mathlib.Core.List.{Perm, Permᴰ}
use ztre.Float64.{fixed}
use ztre.Validator.{anomalous}
use ztre.Decision.{auto_containment}
use ztre.Decision.Alert.{Alert, new_alert}
use ztre.Decision.Dispatcher.{
  panicked, AlertSink, stdout_sink, status, webhook_send, webhook_sink, Dispatcher, new_dispatcher,
  dispatch,
}
use ztre.Decision.Dispatcher.Broadcast.{count, sent_by, not_sent, dispatch_exact}

abbrev critical : Alert fixed
critical =
    new_alert fixed 9 (lit "web-0-7") (lit "shop") (lit "web-0") (lit "nginx") (lit "sh") []
      anomalous
      (record {
        severity_score = pos 1;
        context_score = pos 1;
        asset_score = pos 1;
        total_score = pos 90000;
      })
      auto_containment

abbrev broken : AlertSink fixed
broken = record { name = lit "siem"; send = λ _. panicked }

abbrev three : Dispatcher fixed
three =
    new_dispatcher fixed (broken ∷ stdout_sink fixed ∷ webhook_sink fixed (λ _. status 503) ∷ [])

three_counts : (dispatch fixed three critical).dispatched ≡ lit "stdout" ∷ []
unfolding dispatch new_dispatcher webhook_send
three_counts = refl

dispatch_exact_example :
    (count (lit "stdout") (dispatch fixed three critical).dispatched
      ≡ count (lit "stdout") three.dispatched + sent_by fixed (lit "stdout") three.sinks critical)
    × ((dispatch fixed three critical).errors_logged
        ≡ three.errors_logged + not_sent fixed three.sinks critical)
dispatch_exact_example = dispatch_exact fixed critical three (lit "stdout")

abbrev swapped : List (AlertSink fixed)
swapped = stdout_sink fixed ∷ broken ∷ webhook_sink fixed (λ _. status 503) ∷ []

swapped-perm : Perm swapped three.sinks
unfolding new_dispatcher
swapped-perm = ∣ Permᴰ.swap refl refl ∣₁
