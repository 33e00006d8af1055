-- ===== src/Agent/Assembly/Learning/Examples.antt =====
-- A discovery run on an earlier baseline, and the shadow agent that starts on its whitelist
-- (cmd/ztre-agent/main.go).
use ztre.Base.{has_prefix, lit, text_eq, true, none, [], ◌≡◌, refl, arith, All}
use ztre.Base.Dict
use ztre.Base.FilePath.{base}
use ztre.Float64.{fixed}
use ztre.Containment.Retrying.{looping}
use ztre.Config.{is_namespace_excluded}
use ztre.Collector.Buffer.{new_event_buffer, push}
use ztre.Validator.{normal, load, classify}
use ztre.Discovery.Tracker.{load_patterns, pattern_key, is_nameless, see_again, track}
use ztre.Discovery.Reporter.{stats_of}
use ztre.Discovery.Tracker.Entries.{IsEntry}
use ztre.Discovery.Snapshots.{temp_name}
use ztre.Discovery.Tracker.Counts.{track_all}
use ztre.Discovery.WhitelistFile.{read_entries_of}
use ztre.Discovery.WhitelistFile.Documents.{documents, documents-IsYaml}
use ztre.Agent.Examples.{ascii, engine}
use ztre.Agent.{process, observe}
use ztre.Agent.Startup.{mode_of, resolve}
use ztre.Agent.Shutdown.Places.{times, codec}
use ztre.Agent.Shutdown.Reports.{last_reports}
use ztre.Agent.Assembly.{World, running, restored, engines, assemble}
use ztre.Agent.Assembly.Soundness.{assembled, node_with}
use ztre.Agent.Assembly.Lifecycle.{baseline, born}
use ztre.Agent.Assembly.Learning.{Lives-classify}
use ztre.Agent.Assembly.FirstRun.{
  Bytes, Doc, Place, bare, first, node0, node6, started_first, first_run,
}

abbrev left : World fixed Bytes Doc
left = record (bare (lit "shadow")) {
  whitelist =
      read_entries_of documents
        (last_reports fixed (λ z. []) documents (λ r. none) node6 true [] (lit "wl.yaml")
          first.answers).1
        (lit "wl.yaml");
}

abbrev shadow_node : Place
shadow_node =
    node_with looping ascii fixed codec times documents (λ z. []) (λ r. none) engine left
      (record { whitelist = (load [] left.whitelist).0; engine = engine; executor = none })

started_left :
    assembled looping ascii fixed codec times documents (λ z. []) (λ r. none) engine left
    ≡ running shadow_node
unfolding assemble engines resolve mode_of text_eq read_entries_of Dict.get last_reports process
    is_namespace_excluded push observe Dict.put Dict.remove temp_name track is_nameless base
    load_patterns
started_left = refl

known_entries :
    All IsEntry
      (baseline looping ascii fixed codec times documents (λ z. []) (λ r. none) engine first)
unfolding restored load_patterns Dict.get Dict.put base pattern_key is_nameless text_eq
known_entries = (
  record {
    keyed = refl;
    parent_base = refl;
    child_base = refl;
    parent_named = refl;
    child_named = refl;
    in_time = omega arith;
    nodes_distinct = refl;
  },
  tt,
)

Lives-classify_example :
    classify shadow_node.agent.whitelist (lit "/usr/sbin/nginx") (lit "/bin/nc") ≡ normal
unfolding resolve push new_event_buffer mode_of text_eq base pattern_key is_nameless restored
    is_namespace_excluded has_prefix load_patterns track_all track Dict.get Dict.put process observe
    see_again stats_of
Lives-classify_example =
    Lives-classify looping ascii fixed codec times documents (λ z. []) (λ r. none) engine
      (record { round_trip = λ s. refl }) documents-IsYaml left node0 node6 shadow_node
      (lit "/usr/sbin/nginx") (lit "/bin/nc") refl known_entries born started_first refl first_run
      refl refl refl refl refl started_left (λ same. cc same)
