-- ===== src/Risk.antt =====
-- pkg/risk/engine.go: the scoring policy, the severity of a command line and the weighted score.
-- Numbers are those of `Float64`; the YAML file enters as a decoded policy.
pub mod Assets
pub mod Shells
pub mod Order
mod Examples
use ztre.Base.{
  ℕ, ℤ, pos, GoString, lit, text_eq, contains, has_suffix, to_lower, inc_int64, Bool, true, false,
  ◌&&◌, ◌||◌, Option, none, some, List, [], ◌∷◌, ◌++◌, if◌then◌else◌,
}
use ztre.Base.Dict
use ztre.Base.Dict.{Dict}
use ztre.Base.FilePath.{base}
use ztre.Float64.{Float64, zero_of}
use ztre.Files.{FileRead, not_exist, unreadable, malformed, decoded}
use ztre.Collector.Event.{SecurityEvent, EventType, execve, exit, file_access, kprobe, unknown}
use ztre.Validator.{Classification, class_name}

pub record RiskScore (f : Float64) : Type 0 where
  pub severity_score : f.Num
  pub context_score : f.Num
  pub asset_score : f.Num
  pub total_score : f.Num

pub data Zone : Type 0 where
  green yellow red : Zone

-- `RiskScore.Zone`, on the total score.
unfoldable pub zone : (f : Float64) → RiskScore f → ℤ → ℤ → Zone
unfolding inc_int64
zone f r green_max yellow_max =
    if f.lt r.total_score (f.of_int (inc_int64 green_max))
    then green
    else if f.lt r.total_score (f.of_int (inc_int64 yellow_max))
    then yellow
    else red

pub record AssetTier (f : Float64) : Type 0 where
  pub namespaces : List GoString
  pub score : f.Num

pub record PolicyConfig (f : Float64) : Type 0 where
  pub weight_severity : f.Num
  pub weight_context : f.Num
  pub weight_asset : f.Num
  pub severity_scores : Dict f.Num
  pub context_scores : Dict f.Num
  pub critical : AssetTier f
  pub high : AssetTier f
  pub medium : AssetTier f
  pub low : AssetTier f
  pub default_score : f.Num

pub record Engine (f : Float64) : Type 0 where
  pub policy : PolicyConfig f
  pub ns_score_cache : Dict f.Num

-- The weights must sum to 1 within a thousandth.
unfoldable pub valid_weights : (f : Float64) → PolicyConfig f → Bool
valid_weights f p =
    let sum = f.add (f.add p.weight_severity p.weight_context) p.weight_asset in
    if f.lt (f.thousandths (pos 1)) (f.abs (f.sub sum (f.thousandths (pos 1000))))
    then false
    else true

-- One loop of `buildNamespaceCache`.
unfoldable pub cache_tier {ℓ} : {V : Type ℓ} → Dict V → List GoString → V → Dict V
cache_tier cache [] score = cache
cache_tier cache (ns ∷ rest) score = cache_tier (Dict.put cache ns score) rest score

unfoldable pub build_namespace_cache : (f : Float64) → PolicyConfig f → Dict f.Num
unfolding cache_tier
build_namespace_cache f p =
    let critical = cache_tier [] p.critical.namespaces p.critical.score in
    let high = cache_tier critical p.high.namespaces p.high.score in
    let medium = cache_tier high p.medium.namespaces p.medium.score in
    cache_tier medium p.low.namespaces p.low.score

-- `none` is the error of `validateWeights`.
unfoldable pub new_engine_from_policy : (f : Float64) → PolicyConfig f → Option (Engine f)
unfolding valid_weights build_namespace_cache
new_engine_from_policy f p =
    if valid_weights f p
    then some (record { policy = p; ns_score_cache = build_namespace_cache f p })
    else none

unfoldable pub new_engine : (f : Float64) → FileRead (PolicyConfig f) → Option (Engine f)
unfolding new_engine_from_policy
new_engine f not_exist = none
new_engine f unreadable = none
new_engine f malformed = none
new_engine f (decoded p) = new_engine_from_policy f p

abbrev pub shells : List GoString
shells = lit "bash" ∷ lit "sh" ∷ lit "dash" ∷ lit "zsh" ∷ lit "ksh" ∷ lit "csh" ∷ []

-- `strings.HasSuffix(bin, "/"+s) || bin == s` for some `s` of the list.
unfoldable pub matches_shell : List GoString → GoString → Bool
unfolding has_suffix
matches_shell [] bin = false
matches_shell (s ∷ rest) bin =
    has_suffix bin (lit "/" ++ s) || text_eq bin s || matches_shell rest bin

unfoldable pub is_suspicious_shell : GoString → Bool
unfolding matches_shell
is_suspicious_shell bin = matches_shell shells bin

unfoldable pub is_reverse_shell : GoString → GoString → Bool
unfolding is_suspicious_shell contains base
is_reverse_shell bin args =
    let bin_base = base bin in
    if (text_eq bin_base (lit "nc")
        || text_eq bin_base (lit "ncat")
        || text_eq bin_base (lit "netcat"))
      && (contains args (lit "-e") || contains args (lit "-c"))
    then true
    else is_suspicious_shell bin && contains args (lit "/dev/tcp")

abbrev pub touches_file : EventType → Bool
touches_file kprobe = true
touches_file file_access = true
touches_file execve = false
touches_file exit = false
touches_file unknown = false

-- The table `checks` of `severityScore`, each test evaluated on the lower-case binary and arguments.
unfoldable pub checks : EventType → GoString → GoString → List (GoString × Bool)
unfolding is_suspicious_shell contains
checks kind bin args =
    (lit "chmod_suid", contains bin (lit "chmod") && contains args (lit "+s"))
    ∷ (lit "curl_download", contains bin (lit "curl") || contains bin (lit "wget"))
    ∷ (lit "bash_spawn", is_suspicious_shell bin)
    ∷ (lit "nmap_scan", contains bin (lit "nmap"))
    ∷ (lit "file_write_etc", touches_file kind && contains args (lit "/etc/"))
    ∷ []

-- The first check that matches and has a score in the policy.
unfoldable pub first_score {ℓ} : {V : Type ℓ} → Dict V → List (GoString × Bool) → Option V
first_score scores [] = none
first_score scores ((key, matched) ∷ rest) =
    let later = first_score scores rest in
    if matched then elim (Dict.get scores key) [ some v ↦ some v | none ↦ later ] else later

-- A missing key of a Go map reads as zero.
abbrev pub or_zero : (f : Float64) → Option f.Num → f.Num
or_zero f none = zero_of f
or_zero f (some v) = v

abbrev pub or_else {ℓ} : {V : Type ℓ} → Option V → V → V
or_else none d = d
or_else (some v) d = v

module _ (unicode_lower : ℕ → ℕ) (f : Float64) where
  unfoldable pub severity_score : Engine f → SecurityEvent → f.Num
  unfolding to_lower is_reverse_shell checks first_score
  severity_score e event =
      let bin = to_lower unicode_lower event.binary in
      let args = to_lower unicode_lower event.arguments in
      let scores = e.policy.severity_scores in
      let shell =
        if is_reverse_shell bin args then Dict.get scores (lit "reverse_shell") else none in
      or_else shell (
        or_else (first_score scores (checks event.event_type bin args))
          (or_zero f (Dict.get scores (lit "default"))))

  unfoldable pub context_score : Engine f → Classification → f.Num
  context_score e class = or_zero f (Dict.get e.policy.context_scores (class_name class))

  unfoldable pub asset_score : Engine f → GoString → f.Num
  asset_score e namespace = or_else (Dict.get e.ns_score_cache namespace) e.policy.default_score

  -- Risk = ws*S + wc*C + wa*A
  unfoldable pub calculate : Engine f → SecurityEvent → Classification → RiskScore f
  unfolding severity_score context_score asset_score
  calculate e event class =
      let s = severity_score e event in
      let c = context_score e class in
      let a = asset_score e event.namespace in
      record {
        severity_score = s;
        context_score = c;
        asset_score = a;
        total_score =
            f.add (f.add (f.mul e.policy.weight_severity s) (f.mul e.policy.weight_context c))
              (f.mul e.policy.weight_asset a);
      }
