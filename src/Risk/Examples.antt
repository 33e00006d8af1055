-- ===== src/Risk/Examples.antt =====
-- Runs of pkg/risk on fixed-point numbers, and instances of its theorems.
use ztre.Base.{ℕ, pos, lit, false, [], ◌∷◌, ◌≡◌, refl, some, text_eq, contains}
use ztre.Base.Dict
use ztre.Base.FilePath.{base, after_slash}
use ztre.Float64.{fixed}
use ztre.Collector.Event.{SecurityEvent, execve}
use ztre.Validator.{anomalous}
use ztre.Risk.{
  PolicyConfig, Engine, new_engine_from_policy, build_namespace_cache, calculate, is_reverse_shell,
}
use ztre.Risk.Assets.{tier_score}
use ztre.Risk.Shells.{is_reverse_shell-one_of}

abbrev pub policy : PolicyConfig fixed
policy = record {
  weight_severity = pos 400;
  weight_context = pos 300;
  weight_asset = pos 300;
  severity_scores = (lit "reverse_shell", pos 100000) ∷ (lit "default", pos 20000) ∷ [];
  context_scores = (lit "NORMAL", pos 0) ∷ (lit "ANOMALOUS", pos 100000) ∷ [];
  critical = record { namespaces = lit "payments" ∷ lit "shop" ∷ []; score = pos 100000 };
  high = record { namespaces = []; score = pos 80000 };
  medium = record { namespaces = []; score = pos 50000 };
  low = record { namespaces = lit "shop" ∷ []; score = pos 10000 };
  default_score = pos 40000;
}

abbrev pub engine : Engine fixed
engine = record { policy = policy; ns_score_cache = build_namespace_cache fixed policy }

pub engine_made : new_engine_from_policy fixed policy ≡ some engine
unfolding new_engine_from_policy
engine_made = refl

abbrev pub ascii : ℕ → ℕ
ascii c = c

abbrev pub attack : SecurityEvent
attack = record {
  timestamp = 5;
  event_type = execve;
  pid = 7;
  binary = lit "/usr/bin/NC";
  arguments = lit "-e /bin/sh";
  parent_pid = 1;
  parent_binary = lit "/usr/sbin/nginx";
  namespace = lit "payments";
  pod_name = lit "web-0";
  container_id = lit "c";
  node_name = lit "n";
  workload_kind = lit "Deployment";
  workload_name = lit "web";
}

attack_total : (calculate ascii fixed engine attack anomalous).total_score ≡ pos 100000
unfolding calculate build_namespace_cache Dict.get Dict.put
attack_total = refl

shop_is_low : tier_score fixed policy (lit "shop") ≡ pos 10000
unfolding text_eq
shop_is_low = refl

is_reverse_shell-one_of_example : is_reverse_shell (lit "/opt/sync_tool") (lit "-c x") ≡ false
unfolding base after_slash text_eq contains
is_reverse_shell-one_of_example = is_reverse_shell-one_of (lit "/opt/sync_tool") (lit "-c x")
