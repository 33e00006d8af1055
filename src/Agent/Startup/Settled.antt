-- ===== src/Agent/Startup/Settled.antt =====
-- What the settings guarantee, whatever the flags and the file (cmd/ztre-agent/main.go).
use ztre.Base.{
  ℤ, pos, ◌≤ℤ◌, ◌<ℤ◌, eqb_ℤ, GoString, lit, text_eq_iff, is_empty, Bool, true, false, ◌&&◌, Option,
  some, [], ◌≡◌, refl, inl, inr, arith, if◌then◌else◌, Bool-cases, if_cases,
}
use ztre.Base.FilePath.{join_not_empty}
use ztre.Files.{FileRead}
use ztre.Decision.{ThresholdConfig}
use ztre.Decision.Thresholds.{new_engine_id}
use ztre.Config.{AgentConfig, load_agent_config, is_mode}
use ztre.Config.Usable.{load-IsUsable}
use ztre.Agent.{AgentMode, discovery, shadow, enforcement}
use ztre.Collector.Client.Backoff.{IsPaced}
use ztre.Agent.Startup.{
  Settings, client_config, Flags, config_or_fallback, pick_text, pick_workers, pick_whitelist,
  mode_of, initial_thresholds, resolve,
}

abbrev pub mode_name : AgentMode → GoString
mode_name discovery = lit "discovery"
mode_name shadow = lit "shadow"
mode_name enforcement = lit "enforcement"

mode_name-mode_of : (text : GoString) → is_mode text ≡ true → mode_name (mode_of text) ≡ text
unfolding mode_of
mode_name-mode_of text h = ground (
  arith,
  text_eq_iff text (lit "discovery"),
  text_eq_iff text (lit "shadow"),
  text_eq_iff text (lit "enforcement"),
)

mode_of_unknown :
    (text : GoString) → is_mode text ≡ false → mode_name (mode_of text) ≡ lit "discovery"
unfolding mode_of
mode_of_unknown text h = ground arith

workers_positive : (set : Bool) (flag configured : ℤ) → pos 1 ≤ℤ pick_workers set flag configured
unfolding pick_workers
workers_positive set flag configured = ground arith

path_not_empty : (flags : Flags) (cfg : AgentConfig) → is_empty (pick_whitelist flags cfg) ≡ false
unfolding pick_whitelist
path_not_empty flags cfg =
    let path = pick_text flags.whitelist_path_set flags.whitelist_path cfg.whitelist_path in
    if_cases (λ p. is_empty p ≡ false) (is_empty path)
      (λ _. join_not_empty cfg.output_dir (lit "auto_whitelist.yaml") refl) (λ h. h)

mode_name_any :
    (text : GoString) → mode_name (mode_of text) ≡ (if is_mode text then text else lit "discovery")
mode_name_any text = elim (Bool-cases (is_mode text)) [
  | inl good ↦ rw good (mode_name-mode_of text good)
  | inr bad ↦ rw bad (mode_of_unknown text bad)
]

-- A start always has workers and a whitelist path, and runs in the mode that the flag names or else the
-- configuration, or in discovery mode if that text is none of the three modes.
pub resolve-HasMode :
    (flags : Flags) (loaded : Option AgentConfig)
    → let text = if is_empty flags.mode then (config_or_fallback loaded).mode else flags.mode in
      (pos 1 ≤ℤ (resolve flags loaded).worker_count)
      × (is_empty (resolve flags loaded).whitelist_path ≡ false)
      × (mode_name (resolve flags loaded).mode ≡ (if is_mode text then text else lit "discovery"))
unfolding resolve
resolve-HasMode flags loaded =
    let cfg = config_or_fallback loaded in
    (
      workers_positive flags.worker_count_set flags.worker_count cfg.worker_count,
      path_not_empty flags cfg,
      mode_name_any (if is_empty flags.mode then cfg.mode else flags.mode),
    )

-- With a configuration file that loads and no mode flag, the agent runs in the file's mode, and with
-- thresholds that are the file's where these are in order with a positive green bound.
pub resolve_loaded :
    (flags : Flags) (file : FileRead (AgentConfig → AgentConfig)) (cfg : AgentConfig)
    → load_agent_config file ≡ some cfg
    → flags.mode ≡ []
    → pos 1 ≤ℤ cfg.green_max
    → cfg.green_max <ℤ cfg.yellow_max
    → (mode_name (resolve flags (some cfg)).mode ≡ cfg.mode)
      × ((resolve flags (some cfg)).thresholds
          ≡ record { green_max = cfg.green_max; yellow_max = cfg.yellow_max })
unfolding resolve initial_thresholds
resolve_loaded flags file cfg loaded unset positive ordered =
    let usable = load-IsUsable file cfg loaded in
    let given : ThresholdConfig = record {
      green_max = cfg.green_max;
      yellow_max = cfg.yellow_max;
    } in
    let set : (eqb_ℤ cfg.green_max (pos 0) && eqb_ℤ cfg.yellow_max (pos 0)) ≡ false =
      ground arith in
    (
      rw unset (mode_name-mode_of cfg.mode usable.mode),
      rw set (new_engine_id given positive ordered),
    )

-- The intervals of main's client are in order.
client_config-IsPaced : (s : Settings) → IsPaced (client_config s)
client_config-IsPaced s = record {
  positive = omega arith;
  ordered = omega arith;
  doubles = omega arith;
}
