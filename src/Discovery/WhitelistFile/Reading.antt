-- ===== src/Discovery/WhitelistFile/Reading.antt =====
-- The file of the generated whitelist, read back (pkg/discovery/reporter.go and pkg/validator/validator.go).
use ztre.Base.{
  ℕ, GoString, text_eq_refl, true, false, some, [], ◌≡◌, refl, ap, ◌∙◌, if◌then◌else◌, All,
}
use ztre.Base.Dict
use ztre.Base.Dict.{Dict}
use ztre.Base.FilePath.{base}
use ztre.Files.{decoded}
use ztre.Validator.{Allow, normal, anomalous, suspicious, new_whitelist, classify, load}
use ztre.Base.Dict.Keys.{IsMap}
use ztre.Discovery.Tracker.{BehaviorTracker}
use ztre.Discovery.Tracker.Entries.{IsEntry}
use ztre.Discovery.Snapshots.{Node, file, written, write_file_atomic}
use ztre.Discovery.Snapshots.Atomic.{temp_name_differs, get-write_file_atomic}
use ztre.Discovery.Reporter.{generate_whitelist}
use ztre.Discovery.Reporter.Entries.{read_entries}
use ztre.Discovery.Reporter.Baselines.{starts, learned, classify-learned}
use ztre.Discovery.Report.{Saving}
use ztre.Discovery.WhitelistFile.{
  WhitelistConfig, generate_config, Yaml, header, save_text, write_whitelist, or_malformed,
  load_whitelist, read_entries_of,
}
use ztre.Discovery.WhitelistFile.Comments.{IsComments, has_newline, header-IsComments}

-- The YAML library writes every whitelist, skips comment lines, and reads back what it wrote, each struct
-- the keys that it has; a time is text on one line.
pub record IsYaml (yaml : Yaml) : Type 0 where
  pub marshals : (wl : WhitelistConfig) → (doc : yaml.Doc) × (yaml.marshal wl ≡ some doc)
  pub config_back :
      (wl : WhitelistConfig) (doc : yaml.Doc) (comments : GoString)
      → yaml.marshal wl ≡ some doc
      → IsComments comments
      → yaml.unmarshal_config (yaml.under comments doc) ≡ some wl
  pub entries_back :
      (wl : WhitelistConfig) (doc : yaml.Doc) (comments : GoString)
      → yaml.marshal wl ≡ some doc
      → IsComments comments
      → yaml.unmarshal_entries (yaml.under comments doc)
        ≡ some (read_entries wl.whitelisted_lineages)
  pub one_line : (t : ℕ) → has_newline (yaml.rfc3339 t) ≡ false

module _ (yaml : Yaml) (laws : IsYaml yaml) where
  saved_text :
      (dir : Dict (Node yaml.Doc)) (path : GoString) (io : Saving yaml.Doc) (comments : GoString)
      (doc : yaml.Doc) (nano : ℕ)
      → io.write ≡ written
      → (Dict.get (save_text yaml dir path io comments (some doc) nano).0 path
          ≡ some (file (yaml.under comments doc)))
        × ((save_text yaml dir path io comments (some doc) nano).1 ≡ true)
  saved_text dir path io comments doc nano w = rw w (
    get-write_file_atomic yaml.Doc dir path nano (yaml.under comments doc) written path
          (temp_name_differs path nano)
        ∙ unfold write_file_atomic in rw (text_eq_refl path) refl,
    unfold write_file_atomic in refl,
  )

  wrote_config :
      (dir : Dict (Node yaml.Doc)) (path : GoString) (bt : BehaviorTracker) (io : Saving yaml.Doc)
      (generated end nano : ℕ)
      → io.mkdir_ok ≡ true
      → io.write ≡ written
      → let wl = generate_config bt generated end in
        let (dir', ok) = write_whitelist yaml dir path bt io generated end nano in
        (Dict.get dir' path ≡ some (file (yaml.under (header yaml wl) (laws.marshals wl).0)))
        × (ok ≡ true)
  unfolding write_whitelist
  wrote_config dir path bt io generated end nano made w =
      let wl = generate_config bt generated end in
      let (doc, e) = laws.marshals wl in
      rw (made, e) (saved_text dir path io (header yaml wl) doc nano w)

  -- `LoadWhitelist` reads back, comments and all, exactly what a working `WriteWhitelist` generated.
  pub load_whitelist-write_whitelist :
      (dir : Dict (Node yaml.Doc)) (path : GoString) (bt : BehaviorTracker) (io : Saving yaml.Doc)
      (generated end nano : ℕ)
      → io.mkdir_ok ≡ true
      → io.write ≡ written
      → load_whitelist yaml (write_whitelist yaml dir path bt io generated end nano).0 path
        ≡ decoded (generate_config bt generated end)
  unfolding load_whitelist
  load_whitelist-write_whitelist dir path bt io generated end nano made w =
      let wl = generate_config bt generated end in
      let (doc, e) = laws.marshals wl in
      rw (wrote_config dir path bt io generated end nano made w).0 (
        ap (or_malformed yaml)
          (laws.config_back wl doc (header yaml wl) e (header-IsComments yaml wl laws.one_line)))

  entries_read :
      (dir : Dict (Node yaml.Doc)) (path : GoString) (bt : BehaviorTracker) (io : Saving yaml.Doc)
      (generated end nano : ℕ)
      → io.mkdir_ok ≡ true
      → io.write ≡ written
      → read_entries_of yaml (write_whitelist yaml dir path bt io generated end nano).0 path
        ≡ decoded (read_entries (generate_whitelist bt))
  unfolding read_entries_of generate_config
  entries_read dir path bt io generated end nano made w =
      let wl = generate_config bt generated end in
      let (doc, e) = laws.marshals wl in
      rw (wrote_config dir path bt io generated end nano made w).0 (
        ap (or_malformed yaml)
          (laws.entries_back wl doc (header yaml wl) e (header-IsComments yaml wl laws.one_line)))

  -- From the tracker to the classification of the next start: if no key of the tracker stands twice and its
  -- entries are well formed, then after a working `WriteWhitelist`, `NewWhitelist` on that file succeeds, and
  -- its whitelist calls a lineage SUSPICIOUS if no pattern has the parent's base name, NORMAL if a pattern of the
  -- two base names reached the confidence that is asked for, and ANOMALOUS otherwise.
  pub new_whitelist-learned :
      (bt : BehaviorTracker) (dir : Dict (Node yaml.Doc)) (path : GoString) (io : Saving yaml.Doc)
      (generated end nano : ℕ) (parent child : GoString)
      → IsMap bt.patterns
      → All IsEntry bt.patterns
      → io.mkdir_ok ≡ true
      → io.write ≡ written
      → let dir' = (write_whitelist yaml dir path bt io generated end nano).0 in
        (allow : Allow) × (new_whitelist (read_entries_of yaml dir' path) ≡ some allow)
        × (classify allow parent child ≡ (
            if starts bt.patterns (base parent)
            then (if learned bt.patterns (base parent) (base child) then normal else anomalous)
            else suspicious))
  unfolding new_whitelist
  new_whitelist-learned bt dir path io generated end nano parent child keys entries made w =
      let es = read_entries (generate_whitelist bt) in
      (
        (load [] (decoded es)).0,
        rw (entries_read dir path bt io generated end nano made w) (unfold load in refl),
        classify-learned bt [] parent child keys entries,
      )
