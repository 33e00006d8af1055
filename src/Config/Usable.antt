-- ===== src/Config/Usable.antt =====
-- What a loaded configuration guarantees (pkg/config/config.go).
use ztre.Base.{
  ℕ, ℤ, pos, ◌≤ℤ◌, ◌*◌, GoString, lit, text_eq, is_empty, true, false, ◌||◌, Bool-cases, inl, inr,
  ap, ◌<◌, some, [], ◌∷◌, ◌≡◌, refl, arith,
}
use mathlib.Core.Path.{subst}
use ztre.Base.FilePath.{join, join_not_empty}
use ztre.Files.{FileRead, not_exist, unreadable, malformed, decoded}
use ztre.Config.{
  AgentConfig, hour, defaults, is_mode, or_default, or_text, fill, check, load_agent_config,
}

pub record IsUsable (cfg : AgentConfig) : Type 0 where
  pub mode : is_mode cfg.mode ≡ true
  pub workers : pos 1 ≤ℤ cfg.worker_count
  pub window : pos 1 ≤ℤ cfg.learning_window
  pub interval : pos 1 ≤ℤ cfg.snapshot_interval
  pub threshold : pos 1 ≤ℤ cfg.stability_threshold
  pub snapshots : pos 1 ≤ℤ cfg.max_snapshots
  pub output : is_empty cfg.output_dir ≡ false
  pub whitelist : is_empty cfg.whitelist_path ≡ false

positive : (n : ℤ) (d : ℕ) → 0 < d → pos 1 ≤ℤ or_default n (pos d)
positive n d h = ground arith

not_empty : (s d : GoString) → is_empty d ≡ false → is_empty (or_text s d) ≡ false
not_empty [] d h = h
not_empty (c ∷ s) d h = refl

mode_kept :
    (m : GoString)
    → (is_mode m || text_eq m []) ≡ true
    → is_mode (or_text m (lit "discovery")) ≡ true
unfolding text_eq
mode_kept [] h = refl
mode_kept (c ∷ m) h = ground arith

fill-IsUsable :
    (cfg : AgentConfig) → (is_mode cfg.mode || text_eq cfg.mode []) ≡ true → IsUsable (fill cfg)
unfolding fill
fill-IsUsable cfg h =
    let dir = or_text cfg.output_dir (lit "data/discovery") in
    record {
      mode = mode_kept cfg.mode h;
      workers = positive cfg.worker_count 4 (omega arith);
      window = positive cfg.learning_window (72 * hour) (omega arith);
      interval = positive cfg.snapshot_interval hour (omega arith);
      threshold = positive cfg.stability_threshold (4 * hour) (omega arith);
      snapshots = positive cfg.max_snapshots 24 (omega arith);
      output = not_empty cfg.output_dir (lit "data/discovery") refl;
      whitelist =
          not_empty cfg.whitelist_path (join dir (lit "auto_whitelist.yaml"))
            (join_not_empty dir (lit "auto_whitelist.yaml") refl);
    }

check-IsUsable : (cfg : AgentConfig) {out : AgentConfig} → check cfg ≡ some out → IsUsable out
unfolding check
check-IsUsable cfg {out} h = elim (Bool-cases (is_mode cfg.mode || text_eq cfg.mode [])) [
  | inl good ↦
      let filled : some (fill cfg) ≡ some out = rw good at h in
      let same : fill cfg ≡ out = cc filled in subst IsUsable same (fill-IsUsable cfg good)
  | inr bad ↦ cc (rw bad at h)
]

-- Whatever the file holds, a configuration that loads has one of the three modes, at least one worker and one kept
-- snapshot, a positive learning window, snapshot interval and stability threshold, and an output directory and
-- a whitelist path that are not empty.
pub load-IsUsable :
    (file : FileRead (AgentConfig → AgentConfig)) (cfg : AgentConfig)
    → load_agent_config file ≡ some cfg
    → IsUsable cfg
unfolding load_agent_config
load-IsUsable not_exist cfg h = cc
load-IsUsable unreadable cfg h = cc
load-IsUsable malformed cfg h = cc
load-IsUsable (decoded overlay) cfg h = check-IsUsable (overlay defaults) h

or_default_id : (n d : ℤ) → pos 1 ≤ℤ n → or_default n d ≡ n
or_default_id n d h = ground arith

or_text_id : (s d : GoString) → is_empty s ≡ false → or_text s d ≡ s
or_text_id [] d h = cc
or_text_id (c ∷ s) d h = refl

fill_id : (cfg : AgentConfig) → IsUsable cfg → is_empty cfg.mode ≡ false → fill cfg ≡ cfg
unfolding fill
fill_id cfg h named =
    let dir = or_text cfg.output_dir (lit "data/discovery") in
    λ i. record cfg {
      mode = or_text_id cfg.mode (lit "discovery") named i;
      worker_count = or_default_id cfg.worker_count (pos 4) h.workers i;
      learning_window = or_default_id cfg.learning_window (pos (72 * hour)) h.window i;
      snapshot_interval = or_default_id cfg.snapshot_interval (pos hour) h.interval i;
      stability_threshold = or_default_id cfg.stability_threshold (pos (4 * hour)) h.threshold i;
      max_snapshots = or_default_id cfg.max_snapshots (pos 24) h.snapshots i;
      output_dir = or_text_id cfg.output_dir (lit "data/discovery") h.output i;
      whitelist_path =
          or_text_id cfg.whitelist_path (join dir (lit "auto_whitelist.yaml")) h.whitelist i;
    }

mode_named : (m : GoString) → is_mode m ≡ true → is_empty m ≡ false
unfolding text_eq
mode_named [] h = cc
mode_named (c ∷ m) h = refl

-- Checking a configuration that is usable accepts it and changes nothing, so a loaded configuration
-- that is written out in full loads as itself.
pub check_id : (cfg : AgentConfig) → IsUsable cfg → check cfg ≡ some cfg
unfolding check
check_id cfg h = rw h.mode (ap some (fill_id cfg h (mode_named cfg.mode h.mode)))
