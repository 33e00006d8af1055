-- ===== src/Discovery/Statistics/Examples.antt =====
-- Statistics of three patterns in fixed-point numbers (pkg/discovery/tracker.go, `GetStats`).
use ztre.Base.{ℕ, pos, negsuc, ◌*◌, GoString, lit, some, [], ◌∷◌, ◌≡◌, refl, arith}
use ztre.Base.Dict
use ztre.Base.Dict.{Dict}
use ztre.Float64.{fixed}
use ztre.Config.{hour}
use ztre.Discovery.Tracker.{ExecutionPattern}
use ztre.Discovery.Baseline.{since}
use ztre.Discovery.Statistics.{
  frequency, mean_stddev, sort_nums, insert_num, search_over, percentile_of, get_measures,
}
use ztre.Discovery.Statistics.Percentiles.{IsLinear, percentile_of-count}

-- So many sightings in two hours.
abbrev seen : GoString → ℕ → ExecutionPattern
seen child count = record {
  parent_binary = lit "nginx";
  child_binary = child;
  namespace = lit "shop";
  workload_name = lit "web";
  count = count;
  first_seen = 0;
  last_seen = 2 * hour;
  nodes = [];
}

abbrev patterns : Dict ExecutionPattern
patterns =
    (lit "sh", seen (lit "sh") 2)
    ∷ (lit "php", seen (lit "php") 200)
    ∷ (lit "cat", seen (lit "cat") 200)
    ∷ []

-- One event per hour for the shell, which is the least frequent of the three, and below the mean of 67.
shell_measured :
    Dict.get (get_measures fixed (3 * hour) patterns) (lit "sh")
    ≡ some (record { frequency = pos 1000; z_score = negsuc 1413; percentile = pos 333 })
unfolding get_measures frequency mean_stddev sort_nums insert_num search_over percentile_of since
    Dict.get
shell_measured = refl

fixed-IsLinear : IsLinear fixed
fixed-IsLinear = record { asym = λ a b h. ground arith; cotrans = λ a b c h k. ground arith }

percentile_of-count_example :
    percentile_of fixed (sort_nums fixed (pos 3000 ∷ pos 1000 ∷ pos 2000 ∷ [])) (pos 2000) ≡ pos 666
percentile_of-count_example =
    percentile_of-count fixed fixed-IsLinear (pos 3000) (pos 1000 ∷ pos 2000 ∷ []) (pos 2000)
