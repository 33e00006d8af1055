-- ===== src/Agent/Reload/Restart.antt =====
-- What the whitelist is after a SIGHUP, and between its two steps (cmd/ztre-agent/main.go).
use ztre.Base.{
  Bool, true, false, Option, none, some, List, [], ◌∷◌, ◌≡◌, refl, GoString, arith, if_both, ◌∙◌,
  ap, sym,
}
use ztre.Base.FilePath.{base}
use ztre.Float64.{Float64}
use ztre.Files.{FileRead, not_exist, unreadable, malformed, decoded}
use ztre.Validator.{
  normal, suspicious, WhitelistEntry, Allow, load, load_multi, new_whitelist, classify,
}
use ztre.Config.{AgentConfig}
use ztre.Validator.Lineage.{last_entry, classify-load}
use ztre.Validator.Overrides.{names, grants, classify-merge_entries}
use ztre.Agent.{Agent}
use ztre.Agent.Reload.{
  has_whitelist, reload_thresholds, reload_whitelist, reload_overrides, hot_reload,
}

-- What a start makes of the two whitelist files: the first must not fail, the second may.
abbrev pub fresh_whitelist :
    FileRead (List WhitelistEntry) → FileRead (List WhitelistEntry) → Option Allow
fresh_whitelist file manual = with_overrides (new_whitelist file)
  where
    with_overrides : Option Allow → Option Allow
    with_overrides none = none
    with_overrides (some allow) = some (load_multi allow (manual ∷ [])).0

abbrev pub is_decoded : FileRead (List WhitelistEntry) → Bool
is_decoded not_exist = false
is_decoded unreadable = false
is_decoded malformed = false
is_decoded (decoded es) = true

last_entry_absent :
    (es : List WhitelistEntry) (p : GoString) → names es p ≡ false → last_entry es p ≡ none
last_entry_absent [] p h = refl
last_entry_absent (e ∷ es) p h = ground (arith, last_entry_absent es p)

grants→names :
    (es : List WhitelistEntry) (p c : GoString) → grants es p c ≡ true → names es p ≡ true
grants→names [] p c h = ground arith
grants→names (e ∷ es) p c h = ground (arith, grants→names es p c)

-- A child that the overrides list is normal, whatever they are merged into.
granted_normal :
    (allow : Allow) (ms : List WhitelistEntry) (p c : GoString)
    → grants ms (base p) (base c) ≡ true
    → classify (load_multi allow (decoded ms ∷ [])).0 p c ≡ normal
unfolding load_multi
granted_normal allow ms p c granted =
    ground (arith, classify-merge_entries allow ms p c, grants→names ms (base p) (base c) granted)

module _ (f : Float64) where
  -- After a SIGHUP whose whitelist file decodes, in shadow and enforcement mode, the whitelist is the one
  -- that an agent started now on the same two files would have: nothing of the old one is left.
  pub hot_reload_as_started :
      (a : Agent f) (config : FileRead (AgentConfig → AgentConfig))
      (file manual : FileRead (List WhitelistEntry))
      → has_whitelist a.mode ≡ true
      → is_decoded file ≡ true
      → fresh_whitelist file manual ≡ some (hot_reload f a config file manual).whitelist
  unfolding hot_reload reload_thresholds reload_whitelist reload_overrides new_whitelist load
  hot_reload_as_started a config not_exist manual h d = ground arith
  hot_reload_as_started a config unreadable manual h d = ground arith
  hot_reload_as_started a config malformed manual h d = ground arith
  hot_reload_as_started a config (decoded es) manual h d = rw h refl

  -- A whitelist file that is missing, unreadable or malformed leaves the whitelist, with the overrides
  -- merged before, as it was, and the override file is not read: the SIGHUP changes the thresholds at most.
  pub hot_reload_failure :
      (a : Agent f) (config : FileRead (AgentConfig → AgentConfig))
      (file manual : FileRead (List WhitelistEntry))
      → is_decoded file ≡ false
      → hot_reload f a config file manual ≡ reload_thresholds f a config
  unfolding hot_reload reload_whitelist load
  hot_reload_failure a config not_exist manual d =
      if_both (λ (b : Agent f). b ≡ reload_thresholds f a config) (has_whitelist a.mode) refl refl
  hot_reload_failure a config unreadable manual d =
      if_both (λ (b : Agent f). b ≡ reload_thresholds f a config) (has_whitelist a.mode) refl refl
  hot_reload_failure a config malformed manual d =
      if_both (λ (b : Agent f). b ≡ reload_thresholds f a config) (has_whitelist a.mode) refl refl
  hot_reload_failure a config (decoded es) manual d = ground arith

  -- Between the two steps of a SIGHUP the overrides are gone. Take an agent with the whitelist that a start or a
  -- SIGHUP made of the two files, and a lineage whose parent only the override file names and whose child it lists.
  -- The lineage is NORMAL before a SIGHUP with the same files, SUSPICIOUS for an event that is handled between its
  -- two steps, and NORMAL after them.
  pub reload_window :
      (a : Agent f) (es ms : List WhitelistEntry) (p c : GoString)
      → fresh_whitelist (decoded es) (decoded ms) ≡ some a.whitelist
      → names es (base p) ≡ false
      → grants ms (base p) (base c) ≡ true
      → let during = (reload_whitelist f a (decoded es)).0 in
        (classify a.whitelist p c ≡ normal)
        × (classify during.whitelist p c ≡ suspicious)
        × (classify (reload_overrides f during (decoded ms)).whitelist p c ≡ normal)
  unfolding reload_whitelist reload_overrides load_multi new_whitelist
  reload_window a es ms p c made absent granted =
      let before : (load_multi (load [] (decoded es)).0 (decoded ms ∷ [])).0 ≡ a.whitelist =
        unfold load in cc made in
      (
        ap (λ w. classify w p c) (sym before)
            ∙ granted_normal (load [] (decoded es)).0 ms p c granted,
        classify-load a.whitelist es p c ∙ rw (last_entry_absent es (base p) absent) refl,
        granted_normal (load a.whitelist (decoded es)).0 ms p c granted,
      )
