-- ===== src/Agent/Reload/Interleaving.antt =====
-- Workers and SIGHUPs in any order: the steps of cmd/ztre-agent/main.go that take a lock each.
use ztre.Base.{
  ℕ, GoString, Option, none, some, List, [], ◌∷◌, ◌≡◌, ◌≢◌, refl, ◌∙◌, sym, if_both, not,
}
use ztre.Float64.{Float64}
use ztre.Files.{FileRead}
use ztre.Validator.{WhitelistEntry}
use ztre.Containment.{Retry}
use ztre.Decision.{update_thresholds}
use ztre.Decision.Thresholds.{IsOrdered, update-IsOrdered}
use ztre.Config.{AgentConfig, load_agent_config}
use ztre.Decision.{Action, allow_and_log, log_and_alert, auto_containment}
use ztre.Decision.Alert.{Alert}
use ztre.Containment.{Executor}
use ztre.Config.{is_namespace_excluded}
use ztre.Agent.{
  AgentMode, discovery, shadow, enforcement, Agent, Input, observe, rehearse, enforce,
  is_classified, is_routine, class_of, contain, respond, in_mode, process,
}
use ztre.Agent.Modes.{IsPassive, process-IsPassive, passive, after-IsPassive}
use ztre.Agent.Exempt.{IsExempting, process-IsExempting}
use ztre.Agent.Reload.{
  has_bounds, bounds, adopt, reload_thresholds, reload_whitelist, reload_overrides,
}

pub data Move : Type 0 where
  handle : Input → Move
  adopt_config : FileRead (AgentConfig → AgentConfig) → Move
  load_whitelist : FileRead (List WhitelistEntry) → Move
  merge_overrides : FileRead (List WhitelistEntry) → Move

module _ (retry : Retry) (u : ℕ → ℕ) (f : Float64) where
  abbrev pub move : Agent f → Move → Agent f
  move a (handle i) = process retry u f a i
  move a (adopt_config file) = reload_thresholds f a file
  move a (load_whitelist file) = (reload_whitelist f a file).0
  move a (merge_overrides file) = reload_overrides f a file

  unfoldable pub moves : Agent f → List Move → Agent f
  moves a [] = a
  moves a (m ∷ rest) = moves (move a m) rest

  adopt-IsPassive : (a : Agent f) (o : Option AgentConfig) → IsPassive a (adopt f a o)
  adopt-IsPassive a none = passive retry u f a
  adopt-IsPassive a (some cfg) =
      if_both (IsPassive a) (has_bounds cfg)
        (record { mode = refl; executor = refl; dispatcher = refl; effects = refl })
        (passive retry u f a)

  move-IsPassive : (a : Agent f) (m : Move) → a.mode ≢ enforcement → IsPassive a (move a m)
  unfolding reload_thresholds reload_whitelist reload_overrides
  move-IsPassive a (handle i) h = process-IsPassive retry u f a i h
  move-IsPassive a (adopt_config file) h = adopt-IsPassive a (load_agent_config file)
  move-IsPassive a (load_whitelist file) h = record {
    mode = refl;
    executor = refl;
    dispatcher = refl;
    effects = refl;
  }
  move-IsPassive a (merge_overrides file) h = record {
    mode = refl;
    executor = refl;
    dispatcher = refl;
    effects = refl;
  }

  -- Outside enforcement mode no sequence of events and SIGHUP steps makes the agent act: it alerts
  -- nobody, quarantines no pod, and stays in its mode.
  pub moves-IsPassive :
      (a : Agent f) (ms : List Move) → a.mode ≢ enforcement → IsPassive a (moves a ms)
  unfolding moves
  moves-IsPassive a [] h = passive retry u f a
  moves-IsPassive a (m ∷ rest) h =
      let first = move-IsPassive a m h in
      after-IsPassive retry u f first
        (moves-IsPassive (move a m) rest (λ e. h (sym first.mode ∙ e)))

  adopt-IsExempting :
      (excluded : List GoString) (a : Agent f) (o : Option AgentConfig)
      → IsExempting f excluded a
      → IsExempting f excluded (adopt f a o)
  adopt-IsExempting excluded a none h = h
  adopt-IsExempting excluded a (some cfg) h =
      if_both (IsExempting f excluded) (has_bounds cfg)
        (record { same = h.same; spared = h.spared }) h

  move-IsExempting :
      (excluded : List GoString) (a : Agent f) (m : Move)
      → IsExempting f excluded a
      → IsExempting f excluded (move a m)
  unfolding reload_thresholds reload_whitelist reload_overrides
  move-IsExempting excluded a (handle i) h = process-IsExempting retry u f excluded a i h
  move-IsExempting excluded a (adopt_config file) h =
      adopt-IsExempting excluded a (load_agent_config file) h
  move-IsExempting excluded a (load_whitelist file) h = record { same = h.same; spared = h.spared }
  move-IsExempting excluded a (merge_overrides file) h = record { same = h.same; spared = h.spared }

  -- In every mode, over any sequence of events and SIGHUP steps: no alert is sent for and no pod is
  -- quarantined in a namespace that is excluded, one of the control plane's or one of the list that the
  -- agent started with.
  pub moves-IsExempting :
      (excluded : List GoString) (a : Agent f) (ms : List Move)
      → IsExempting f excluded a
      → IsExempting f excluded (moves a ms)
  unfolding moves
  moves-IsExempting excluded a [] h = h
  moves-IsExempting excluded a (m ∷ rest) h =
      moves-IsExempting excluded (move a m) rest (move-IsExempting excluded a m h)

  -- An event leaves the thresholds alone.
  abbrev Keeps : Agent f → Agent f → Type 0
  Keeps a b = b.thresholds ≡ a.thresholds

  contain-thresholds :
      (a b : Agent f) (o : Option Executor) (i : Input) (total : f.Num)
      → Keeps a b
      → Keeps a (contain retry u f b o i total)
  contain-thresholds a b none i total h = h
  contain-thresholds a b (some e) i total h = h

  respond-thresholds :
      (a b : Agent f) (action : Action) (alert : Alert f) (i : Input) (total : f.Num)
      → Keeps a b
      → Keeps a (respond retry u f b action alert i total)
  respond-thresholds a b allow_and_log alert i total h = h
  respond-thresholds a b log_and_alert alert i total h = h
  respond-thresholds a b auto_containment alert i total h =
      contain-thresholds a _ b.executor i total h

  in_mode-thresholds : (m : AgentMode) (a : Agent f) (i : Input) → Keeps a (in_mode retry u f m a i)
  unfolding observe rehearse enforce
  in_mode-thresholds discovery a i = refl
  in_mode-thresholds shadow a i = if_both (Keeps a) (not (is_classified i.event.event_type)) refl (
      if_both (Keeps a)
        (is_routine (class_of retry u f (observe retry u f a i) i) i.event.event_type) refl refl)
  in_mode-thresholds enforcement a i =
      if_both (Keeps a) (not (is_classified i.event.event_type)) refl (
        if_both (Keeps a) (is_routine (class_of retry u f a i) i.event.event_type) refl
          (respond-thresholds a _ _ _ i _ refl))

  process-thresholds : (a : Agent f) (i : Input) → Keeps a (process retry u f a i)
  unfolding process
  process-thresholds a i =
      if_both (Keeps a) (is_namespace_excluded a.exclude_namespaces i.event.namespace) refl
        (in_mode-thresholds a.mode a i)

  adopt-IsOrdered :
      (a : Agent f) (o : Option AgentConfig)
      → IsOrdered a.thresholds
      → IsOrdered (adopt f a o).thresholds
  adopt-IsOrdered a none h = h
  adopt-IsOrdered a (some cfg) h =
      if_both (λ (b : Agent f). IsOrdered b.thresholds) (has_bounds cfg)
        {x = record a { thresholds = (update_thresholds a.thresholds (bounds cfg)).0 }} {y = a}
        (update-IsOrdered a.thresholds (bounds cfg) h) h

  move-IsOrdered :
      (a : Agent f) (m : Move) → IsOrdered a.thresholds → IsOrdered (move a m).thresholds
  unfolding reload_thresholds reload_whitelist reload_overrides
  move-IsOrdered a (handle i) h = rw (process-thresholds a i) h
  move-IsOrdered a (adopt_config file) h = adopt-IsOrdered a (load_agent_config file) h
  move-IsOrdered a (load_whitelist file) h = h
  move-IsOrdered a (merge_overrides file) h = h

  -- Thresholds that are in order stay in order over any sequence of events and SIGHUP steps, whatever
  -- the configuration files hold.
  pub moves-IsOrdered :
      (a : Agent f) (ms : List Move) → IsOrdered a.thresholds → IsOrdered (moves a ms).thresholds
  unfolding moves
  moves-IsOrdered a [] h = h
  moves-IsOrdered a (m ∷ rest) h = moves-IsOrdered (move a m) rest (move-IsOrdered a m h)
