-- ===== src/Discovery/WhitelistFile.antt =====
-- pkg/discovery/reporter.go: the generated whitelist as a file, and its reading. The YAML library and the
-- text of a time are parameters.
pub mod Comments
pub mod Reading
pub mod Documents
mod Examples
use ztre.Base.{
  ℕ, ◌==◌, GoString, lit, ◌++◌, Bool, true, false, not, Option, none, some, List, [], ◌∷◌,
  if◌then◌else◌,
}
use ztre.Base.Decimal.{digits}
use ztre.Base.Dict
use ztre.Base.Dict.{Dict}
use ztre.Files.{FileRead, not_exist, unreadable, malformed, decoded}
use ztre.Validator
use ztre.Discovery.Tracker.{BehaviorTracker}
use ztre.Discovery.Snapshots.{Node, folder, locked, file, temp_name, write_file_atomic}
use ztre.Discovery.Reporter.{WhitelistEntry, generate_whitelist}
use ztre.Discovery.Report.{TimeWindow, Saving}

pub record WhitelistConfig : Type 0 where
  pub generated_at : ℕ
  pub learning_window : TimeWindow
  pub total_events_observed : ℕ
  pub whitelisted_lineages : List WhitelistEntry

-- `GenerateWhitelist`, with its two readings of the clock.
unfoldable pub generate_config : BehaviorTracker → ℕ → ℕ → WhitelistConfig
unfolding generate_whitelist
generate_config bt generated end = record {
  generated_at = generated;
  learning_window = record { start = bt.started; end = end };
  total_events_observed = bt.total_events;
  whitelisted_lineages = generate_whitelist bt;
}

-- yaml.Marshal, yaml.Unmarshal into the two structs that read the file, and the RFC 3339 text of a time.
-- `under` is the concatenation of a text and a document.
pub record Yaml : Type 1 where
  pub Doc : Type 0
  pub marshal : WhitelistConfig → Option Doc
  pub under : GoString → Doc → Doc
  pub unmarshal_config : Doc → Option WhitelistConfig
  pub unmarshal_entries : Doc → Option (List Validator.WhitelistEntry)
  pub rfc3339 : ℕ → GoString

module _ (yaml : Yaml) where
  abbrev pub header : WhitelistConfig → GoString
  header wl =
      lit "# AUTO-GENERATED by ZTRE Discovery Engine\n# Learning window: "
      ++ (yaml.rfc3339 wl.learning_window.start
          ++ (lit " → "
              ++ (yaml.rfc3339 wl.learning_window.end
                  ++ (lit "\n# Total events observed: "
                      ++ (digits 20 wl.total_events_observed []
                          ++ (lit "\n# Generated at: "
                              ++ (yaml.rfc3339 wl.generated_at
                                  ++ lit
                                      "\n#\n# Entries with review_flag: true should be reviewed by an operator.\n\n")))))))

  abbrev pub save_text :
      Dict (Node yaml.Doc)
      → GoString
      → Saving yaml.Doc
      → GoString
      → Option yaml.Doc
      → ℕ
      → Dict (Node yaml.Doc) × Bool
  save_text dir path io comments none nano = (dir, false)
  save_text dir path io comments (some doc) nano =
      write_file_atomic dir (temp_name path nano) path (yaml.under comments doc) io.write

  -- `WriteWhitelist` to a name of a directory, and whether there was no error.
  unfoldable pub write_whitelist :
      Dict (Node yaml.Doc)
      → GoString
      → BehaviorTracker
      → Saving yaml.Doc
      → ℕ
      → ℕ
      → ℕ
      → Dict (Node yaml.Doc) × Bool
  unfolding generate_config write_file_atomic
  write_whitelist dir path bt io generated end nano =
      let wl = generate_config bt generated end in
      if not io.mkdir_ok
      then (dir, false)
      else save_text dir path io (header wl) (yaml.marshal wl) nano

  abbrev pub or_malformed {ℓ} : {A : Type ℓ} → Option A → FileRead A
  or_malformed none = malformed
  or_malformed (some a) = decoded a

  -- os.ReadFile followed by yaml.Unmarshal.
  abbrev pub read_as {ℓ} :
      {A : Type ℓ} → (yaml.Doc → Option A) → Option (Node yaml.Doc) → FileRead A
  read_as unmarshal none = not_exist
  read_as unmarshal (some folder) = unreadable
  read_as unmarshal (some locked) = unreadable
  read_as unmarshal (some (file doc)) = or_malformed (unmarshal doc)

  -- `LoadWhitelist` of pkg/discovery.
  unfoldable pub load_whitelist : Dict (Node yaml.Doc) → GoString → FileRead WhitelistConfig
  load_whitelist dir path = read_as yaml.unmarshal_config (Dict.get dir path)

  -- The same file as pkg/validator reads it.
  unfoldable pub read_entries_of :
      Dict (Node yaml.Doc) → GoString → FileRead (List Validator.WhitelistEntry)
  read_entries_of dir path = read_as yaml.unmarshal_entries (Dict.get dir path)
