-- ===== src/Agent/Reload.antt =====
-- cmd/ztre-agent/main.go: the SIGHUP handler. It runs beside the workers, so it is three steps, one for
-- each lock that it takes: the thresholds, `Load` and `LoadMulti` of the whitelist. The parse of the
-- whitelist by `discovery.LoadWhitelist` at its end only logs.
pub mod Interleaving
pub mod Restart
use ztre.Base.{
  ℕ, pos, ltb_ℤ, Bool, true, false, ◌&&◌, Option, none, some, List, [], ◌∷◌, if◌then◌else◌,
}
use ztre.Float64.{Float64}
use ztre.Files.{FileRead, FileError}
use ztre.Validator.{WhitelistEntry, Allow, load, load_multi}
use ztre.Decision.{ThresholdConfig, update_thresholds}
use ztre.Config.{AgentConfig, load_agent_config}
use ztre.Agent.{AgentMode, discovery, shadow, enforcement, Agent}

-- `whitelist != nil`
abbrev pub has_whitelist : AgentMode → Bool
has_whitelist discovery = false
has_whitelist shadow = true
has_whitelist enforcement = true

abbrev pub has_bounds : AgentConfig → Bool
has_bounds cfg = ltb_ℤ (pos 0) cfg.green_max && ltb_ℤ (pos 0) cfg.yellow_max

abbrev pub bounds : AgentConfig → ThresholdConfig
bounds cfg = record { green_max = cfg.green_max; yellow_max = cfg.yellow_max }

module _ (f : Float64) where
  -- The thresholds of a configuration, where both are positive.
  abbrev pub adopt : Agent f → Option AgentConfig → Agent f
  adopt a none = a
  adopt a (some cfg) =
      if has_bounds cfg
      then record a { thresholds = (update_thresholds a.thresholds (bounds cfg)).0 }
      else a

  unfoldable pub reload_thresholds : Agent f → FileRead (AgentConfig → AgentConfig) → Agent f
  reload_thresholds a file = adopt a (load_agent_config file)

  -- `whitelist.Load()`, on the path that the agent started with.
  unfoldable pub reload_whitelist :
      Agent f → FileRead (List WhitelistEntry) → Agent f × Option FileError
  reload_whitelist a file =
      let (allow, err) = load a.whitelist file in (record a { whitelist = allow }, err)

  -- `whitelist.LoadMulti(manualWlPath)`
  unfoldable pub reload_overrides : Agent f → FileRead (List WhitelistEntry) → Agent f
  reload_overrides a manual = record a { whitelist = (load_multi a.whitelist (manual ∷ [])).0 }

  -- The overrides are merged after a whitelist that loaded.
  abbrev pub finish : Agent f × Option FileError → FileRead (List WhitelistEntry) → Agent f
  finish (a, none) manual = reload_overrides a manual
  finish (a, some e) manual = a

  unfoldable pub hot_reload :
      Agent f
      → FileRead (AgentConfig → AgentConfig)
      → FileRead (List WhitelistEntry)
      → FileRead (List WhitelistEntry)
      → Agent f
  unfolding reload_thresholds reload_whitelist reload_overrides
  hot_reload a config file manual =
      let a1 = reload_thresholds a config in
      if has_whitelist a.mode then finish (reload_whitelist a1 file) manual else a1
