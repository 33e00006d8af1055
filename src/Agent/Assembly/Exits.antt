-- ===== src/Agent/Assembly/Exits.antt =====
-- When a start gives up (cmd/ztre-agent/main.go).
use ztre.Base.{
  ℕ, Bool, true, false, ◌&&◌, Option, none, some, ◌≡◌, refl, is_some, if◌then◌else◌, GoString,
  arith, ◌∙◌, ap, pos, not, ◌||◌, lit, is_empty, List,
}
use ztre.Base.FilePath.{join}
use ztre.Float64.{Float64}
use ztre.Containment.{Retry}
use ztre.Containment.Cluster.{Cluster, new_in_cluster_executor}
use ztre.Files.{FileRead, not_exist, unreadable, malformed, decoded}
use ztre.Validator.{WhitelistEntry, load, new_whitelist}
use ztre.Risk
use ztre.Risk.{PolicyConfig, valid_weights, new_engine}
use ztre.Discovery.Snapshots.{TimeText}
use ztre.Discovery.Tracker.{BehaviorTracker}
use ztre.Discovery.Baseline.{Codec, BaselineStore}
use ztre.Discovery.Report.{BaselineReport}
use ztre.Discovery.WhitelistFile.{Yaml}
use ztre.Agent.{AgentMode, discovery, shadow, enforcement}
use ztre.Agent.Assembly.{
  World, Start, exited, running, Engines, settings_of, engines, launch, restored, assemble,
}

-- None for an agent that runs.
abbrev pub exit_code : {f : Float64} {Bytes : Type 0} → Start f Bytes → Option ℕ
exit_code (exited n) = some n
exit_code (running n) = none

-- A file that is there and decodes.
abbrev pub decodes : {A : Type 0} → FileRead A → Bool
decodes not_exist = false
decodes unreadable = false
decodes malformed = false
decodes (decoded a) = true

abbrev pub is_missing : {A : Type 0} → FileRead A → Bool
is_missing not_exist = true
is_missing unreadable = false
is_missing malformed = false
is_missing (decoded a) = false

-- The distance of the weights' sum from one is not over a thousandth.
abbrev pub has_weights : (f : Float64) → FileRead (PolicyConfig f) → Bool
has_weights f not_exist = false
has_weights f unreadable = false
has_weights f malformed = false
has_weights f (decoded p) =
    let sum = f.add (f.add p.weight_severity p.weight_context) p.weight_asset in
    not (f.lt (f.thousandths (pos 1)) (f.abs (f.sub sum (f.thousandths (pos 1000)))))

-- A client of the cluster can be made: with the configuration of a pod, or with the local file that KUBECONFIG
-- names or else stands in the home directory.
abbrev pub is_reachable : Cluster → Bool
is_reachable k =
    let path =
      if is_empty k.kubeconfig
      then join (join k.home (lit ".kube")) (lit "config")
      else k.kubeconfig in
    (k.in_cluster || k.builds path) && k.connects

-- What a mode needs: nothing to observe, a whitelist and a policy to classify, and a client of the
-- cluster to contain.
abbrev pub is_ready : {f : Float64} {Bytes Doc : Type 0} → World f Bytes Doc → AgentMode → Bool
is_ready w discovery = true
is_ready {f} w shadow = (is_missing w.whitelist || decodes w.whitelist) && has_weights f w.policy
is_ready {f} w enforcement =
    ((is_missing w.whitelist || decodes w.whitelist) && has_weights f w.policy)
    && is_reachable w.cluster

new_whitelist-decodes :
    (file : FileRead (List WhitelistEntry))
    → is_some (new_whitelist file) ≡ (is_missing file || decodes file)
unfolding new_whitelist load
new_whitelist-decodes not_exist = refl
new_whitelist-decodes unreadable = refl
new_whitelist-decodes malformed = refl
new_whitelist-decodes (decoded es) = refl

new_engine-has_weights :
    (f : Float64) (file : FileRead (PolicyConfig f))
    → is_some (new_engine f file) ≡ has_weights f file
unfolding new_engine valid_weights
new_engine-has_weights f not_exist = refl
new_engine-has_weights f unreadable = refl
new_engine-has_weights f malformed = refl
new_engine-has_weights f (decoded p) = ground arith

new_in_cluster_executor-is_reachable :
    (k : Cluster) → is_some (new_in_cluster_executor k) ≡ is_reachable k
unfolding new_in_cluster_executor
new_in_cluster_executor-is_reachable k = ground arith

module _ (retry : Retry) (u : ℕ → ℕ) (f : Float64) (c : Codec) (times : TimeText) (yaml : Yaml)
    (two_decimals : f.Num → GoString) (marshal : BaselineReport f → Option c.Bytes)
    (no_engine : Risk.Engine f) where
  engines-is_ready :
      (w : World f c.Bytes yaml.Doc) (mode : AgentMode)
      → is_some (engines retry u f c times yaml two_decimals marshal no_engine w mode)
        ≡ is_ready w mode
  unfolding engines
  engines-is_ready w discovery = refl
  engines-is_ready w shadow =
      ground (arith, new_whitelist-decodes w.whitelist, new_engine-has_weights f w.policy)
  engines-is_ready w enforcement = ground (
    arith,
    new_whitelist-decodes w.whitelist,
    new_engine-has_weights f w.policy,
    new_in_cluster_executor-is_reachable w.cluster,
  )

  launch-exit_code :
      (w : World f c.Bytes yaml.Doc) (st : BaselineStore c.Bytes × BehaviorTracker)
      (o : Option (Engines f))
      → exit_code (launch retry u f c times yaml two_decimals marshal no_engine w st o)
        ≡ (if is_some o then none else some 1)
  launch-exit_code w st none = refl
  launch-exit_code w st (some e) = refl

  -- A start without `--generate-report` goes on to a running agent in discovery mode always, in shadow mode
  -- exactly if the whitelist file decodes or is missing and the risk policy decodes, with weights whose sum is not
  -- more than a thousandth off one, and in enforcement mode exactly if besides a client can be made from the
  -- configuration of the pod, or else from the local file, and it connects; in every other case it exits with code 1.
  pub assemble_exits :
      (w : World f c.Bytes yaml.Doc)
      → w.gen_report ≡ false
      → exit_code (assemble retry u f c times yaml two_decimals marshal no_engine w)
        ≡ (if is_ready w (settings_of w).mode then none else some 1)
  unfolding assemble
  assemble_exits w plain =
      let mode = (settings_of w).mode in
      let st = restored retry u f c times yaml two_decimals marshal no_engine w in
      rw plain (
        launch-exit_code w st (engines retry u f c times yaml two_decimals marshal no_engine w mode)
        ∙ ap (λ b. if b then none else some 1) (engines-is_ready w mode))
