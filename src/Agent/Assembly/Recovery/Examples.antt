-- ===== src/Agent/Assembly/Recovery/Examples.antt =====
-- A crash while a snapshot is written (cmd/ztre-agent/main.go).
use ztre.Base.{text_eq, false, none, [], refl, arith}
use ztre.Float64.{fixed}
use ztre.Containment.Retrying.{looping}
use ztre.Discovery.Snapshots.{Io, partial_temp, no_temp}
use ztre.Discovery.Baseline.{tick}
use ztre.Discovery.Baseline.Readable.{IsTimeText, dots-temp_name}
use ztre.Discovery.WhitelistFile.Documents.{documents}
use ztre.Agent.Examples.{ascii, engine}
use ztre.Agent.Startup.{mode_of, resolve}
use ztre.Agent.Shutdown.{Reach, here, next, ticks}
use ztre.Agent.Shutdown.Places.{times, codec}
use ztre.Agent.Assembly.{World, restored}
use ztre.Agent.Assembly.Recovery.{IsRecovered, crash_recovers}
use ztre.Agent.Assembly.FirstRun.{Bytes, Doc, Place, first, node0, started_first}

times-IsTimeText : IsTimeText times
times-IsTimeText = record { temp = λ path nano. ground (arith, dots-temp_name path nano) }

-- The write of the snapshot ends with a part of the temporary file.
abbrev torn : Io Bytes
torn = record (first.io) { write = partial_temp none; write_latest = no_temp; list_ok = false }

abbrev crashed : Place
crashed = record node0 { store = tick codec times torn node0.store node0.agent.tracker 5 6 7 }

abbrev after : World fixed Bytes Doc
after = record first { disk = crashed.store.disk }

to_crash : Reach looping ascii fixed codec times node0 crashed
unfolding resolve mode_of text_eq
to_crash = next here (ticks torn 5 6 7 refl)

crash_recovers_example :
    IsRecovered looping ascii fixed codec times
      (restored looping ascii fixed codec times documents (λ z. []) (λ r. none) engine first).1
      []
      node0
      crashed
      (restored looping ascii fixed codec times documents (λ z. []) (λ r. none) engine after).1
unfolding resolve mode_of text_eq
crash_recovers_example =
    crash_recovers looping ascii fixed codec times documents (λ z. []) (λ r. none) engine
      (record { round_trip = λ s. refl }) times-IsTimeText first after node0 crashed started_first
      refl to_crash refl
