-- ===== src/Discovery/Statistics.antt =====
-- pkg/discovery/tracker.go, `GetStats`: how often a pattern comes, its place among the others and its
-- distance from the mean. These numbers stand in the report only; the rest of `PatternStats` is in Reporter.
pub mod Percentiles
mod Examples
use ztre.Base.{
  ℕ, zero, suc, ℤ, pos, ltb_ℤ, pos_part, ◌/◌, ◌%◌, GoString, Bool, true, false, Option, none, some,
  List, [], ◌∷◌, map, length, if◌then◌else◌,
}
use ztre.Base.Dict.{Dict}
use ztre.Float64.{Float64, zero_of}
use ztre.Config.{hour}
use ztre.Discovery.Tracker.{ExecutionPattern}
use ztre.Discovery.Baseline.{since}
use ztre.Discovery.Reporter.{minute}

-- The numbers of a pattern: events per hour, standard deviations from the mean, and the share of the
-- patterns that are no more frequent.
pub record Measures (f : Float64) : Type 0 where
  pub frequency : f.Num
  pub z_score : f.Num
  pub percentile : f.Num

module _ (f : Float64) where
  -- Duration.Hours of a duration that is not negative: the whole hours, and the rest as a fraction.
  abbrev pub hours_of : ℤ → f.Num
  hours_of d =
      let n = pos_part d in
      f.add (f.of_int (pos (n / hour))) (f.div (f.of_int (pos (n % hour))) (f.of_int (pos hour)))

  -- A pattern that was seen for less than a minute is measured from its first sight to now.
  abbrev pub span : ℕ → ExecutionPattern → ℤ
  span now p =
      let seen = since p.last_seen p.first_seen in
      if ltb_ℤ seen (pos minute) then since now p.first_seen else seen

  -- Ten thousandths of an hour at least.
  unfoldable pub frequency : ℕ → ExecutionPattern → f.Num
  unfolding since
  frequency now p =
      let hours = hours_of (span now p) in
      let least = f.thousandths (pos 10) in
      f.div (f.of_int (pos p.count)) (if f.lt hours least then least else hours)

  abbrev pub sum_from : f.Num → List f.Num → f.Num
  sum_from sum [] = sum
  sum_from sum (v ∷ vs) = sum_from (f.add sum v) vs

  abbrev pub squares_from : f.Num → f.Num → List f.Num → f.Num
  squares_from mean sum [] = sum
  squares_from mean sum (v ∷ vs) =
      let d = f.sub v mean in squares_from mean (f.add sum (f.mul d d)) vs

  unfoldable pub mean_stddev : List f.Num → f.Num × f.Num
  mean_stddev [] = (zero_of f, zero_of f)
  mean_stddev (v ∷ vs) =
      let n = f.of_int (pos (length (v ∷ vs))) in
      let mean = f.div (sum_from (zero_of f) (v ∷ vs)) n in
      (mean, f.sqrt (f.div (squares_from mean (zero_of f) (v ∷ vs)) n))

  -- sort.Float64s
  unfoldable pub insert_num : f.Num → List f.Num → List f.Num
  insert_num v [] = v ∷ []
  insert_num v (w ∷ ws) = let rest = insert_num v ws in if f.lt w v then w ∷ rest else v ∷ (w ∷ ws)

  unfoldable pub sort_nums : List f.Num → List f.Num
  unfolding insert_num
  sort_nums [] = []
  sort_nums (v ∷ vs) = insert_num v (sort_nums vs)

  -- sort.Search on a sorted list: the first index whose value is over the given one.
  unfoldable pub search_over : List f.Num → f.Num → ℕ
  search_over [] val = 0
  search_over (w ∷ ws) val = let rest = search_over ws val in if f.lt val w then 0 else suc rest

  unfoldable pub percentile_of : List f.Num → f.Num → f.Num
  unfolding search_over
  percentile_of [] val = zero_of f
  percentile_of (w ∷ ws) val =
      f.div (f.of_int (pos (search_over (w ∷ ws) val))) (f.of_int (pos (length (w ∷ ws))))

  abbrev pub frequencies : ℕ → Dict ExecutionPattern → List f.Num
  frequencies now [] = []
  frequencies now ((key, p) ∷ rest) = frequency now p ∷ frequencies now rest

  abbrev pub measure : f.Num × f.Num → List f.Num → f.Num → Measures f
  measure (mean, stddev) sorted freq = record {
    frequency = freq;
    z_score = if f.lt (zero_of f) stddev then f.div (f.sub freq mean) stddev else zero_of f;
    percentile = percentile_of sorted freq;
  }

  abbrev pub measure_each :
      ℕ → f.Num × f.Num → List f.Num → Dict ExecutionPattern → Dict (Measures f)
  measure_each now mean_of sorted [] = []
  measure_each now mean_of sorted ((key, p) ∷ rest) =
      (key, measure mean_of sorted (frequency now p)) ∷ measure_each now mean_of sorted rest

  -- `GetStats`, for these numbers, under the keys of the patterns.
  unfoldable pub get_measures : ℕ → Dict ExecutionPattern → Dict (Measures f)
  unfolding frequency mean_stddev sort_nums percentile_of
  get_measures now patterns =
      let all = frequencies now patterns in
      measure_each now (mean_stddev all) (sort_nums all) patterns
