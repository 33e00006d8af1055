-- ===== src/Discovery/WhitelistFile/Examples.antt =====
-- Instances of the theorems on the whitelist's file (pkg/discovery/reporter.go).
use ztre.Base.{lit, [], ◌≡◌, refl}
use ztre.Files.{decoded}
use ztre.Discovery.Tracker.{new_tracker}
use ztre.Discovery.WhitelistFile.{generate_config, write_whitelist, load_whitelist}
use ztre.Discovery.WhitelistFile.Reading.{load_whitelist-write_whitelist}
use ztre.Discovery.WhitelistFile.Documents.{documents, documents-IsYaml, working}

load_whitelist-write_whitelist_example :
    load_whitelist documents
      (write_whitelist documents [] (lit "auto_whitelist.yaml") (new_tracker 5) working 60 61 7).0
      (lit "auto_whitelist.yaml")
    ≡ decoded (generate_config (new_tracker 5) 60 61)
load_whitelist-write_whitelist_example =
    load_whitelist-write_whitelist documents documents-IsYaml [] (lit "auto_whitelist.yaml")
      (new_tracker 5) working 60 61 7 refl refl
