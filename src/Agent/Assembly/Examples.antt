-- ===== src/Agent/Assembly/Examples.antt =====
-- Instances of the theorems on starts and runs of the agent (cmd/ztre-agent/main.go).
use ztre.Base.{◌%◌, ◌^◌, has_prefix, lit, text_eq, none, some, [], ◌∷◌, ◌≡◌, refl}
use ztre.Base.Dict
use ztre.Base.FilePath.{base}
use ztre.Float64.{fixed}
use ztre.Files.{malformed}
use ztre.Validator.{new_whitelist}
use ztre.Containment.Retrying.{looping}
use ztre.Collector.Buffer.{new_event_buffer, push}
use ztre.Discovery.Tracker.{load_patterns}
use ztre.Discovery.WhitelistFile.Documents.{documents}
use ztre.Agent.Examples.{ascii, engine}
use ztre.Agent.Startup.{mode_of, resolve}
use ztre.Config.{is_namespace_excluded}
use ztre.Discovery.Tracker.{pattern_key, is_nameless}
use ztre.Agent.Shutdown.{save}
use ztre.Agent.Assembly.Soundness.{IsSafe, assembled-IsSafe}
use ztre.Agent.Assembly.Lifecycle.{baseline_count, Lives, born, lived, Lives-count}
use ztre.Agent.Shutdown.Places.{times, codec, event}
use ztre.Agent.Assembly.{World, restored}
use ztre.Agent.Assembly.Exits.{exit_code, assemble_exits}
use ztre.Agent.Assembly.FirstRun.{
  Bytes, Doc, bare, begin, key, first, node0, node6, started_first, first_run,
}

-- An agent that is to classify does not start on a whitelist that does not decode.
abbrev corrupt : World fixed Bytes Doc
corrupt = record (bare (lit "enforcement")) { whitelist = malformed }

assemble_exits_example : exit_code (begin corrupt) ≡ some 1
unfolding resolve mode_of text_eq new_whitelist
assemble_exits_example =
    assemble_exits looping ascii fixed codec times documents (λ z. []) (λ r. none) engine corrupt
      refl

assembled-IsSafe_example :
    IsSafe looping ascii fixed codec times documents (λ z. []) (λ r. none) engine first node0 node6
assembled-IsSafe_example =
    assembled-IsSafe looping ascii fixed codec times documents (λ z. []) (λ r. none) engine first
      node0 node6 started_first first_run

-- The start after it.
abbrev second : World fixed Bytes Doc
second = record first {
  disk = (save looping ascii fixed codec times node6 first.io 80 81 82).store.disk;
}

one_life :
    Lives looping ascii fixed codec times documents
      (λ z. [])
      (λ r. none)
      engine
      first
      second
      (record { excluded = []; taken = event ∷ [] } ∷ [])
unfolding resolve push new_event_buffer mode_of text_eq
one_life =
    lived node6 first.io 80 81 82 born
      (record {
        first = node0;
        starts = started_first;
        learns = refl;
        reaches = first_run;
        ends = refl;
        made = refl;
        wrote = refl;
        latest = refl;
      })
      refl

Lives-count_example :
    baseline_count looping ascii fixed codec times documents (λ z. []) (λ r. none) engine second key
      % 2 ^ 64
    ≡ 10
unfolding restored base pattern_key is_nameless is_namespace_excluded has_prefix text_eq Dict.get
    Dict.put load_patterns
Lives-count_example =
    Lives-count looping ascii fixed codec times documents (λ z. []) (λ r. none) engine
      (record { round_trip = λ s. refl }) key refl one_life
