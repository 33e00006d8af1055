-- ===== src/Discovery/Statistics/Percentiles.antt =====
-- Where a percentile comes from (pkg/discovery/tracker.go, `percentileOf`).
use ztre.Base.{
  ℕ, suc, pos, ap, ◌∙◌, true, false, List, [], ◌∷◌, ◌≡◌, refl, inl, inr, arith, length, All,
  if◌then◌else◌, Bool-cases,
}
use ztre.Float64.{Float64}
use ztre.Discovery.Statistics.{insert_num, sort_nums, search_over, percentile_of}

-- The comparison of numbers without NaN: total and transitive.
pub record IsLinear (f : Float64) : Type 0 where
  pub asym : (a b : f.Num) → f.lt a b ≡ true → f.lt b a ≡ false
  pub cotrans : (a b c : f.Num) → f.lt b a ≡ false → f.lt c b ≡ false → f.lt c a ≡ false

module _ (f : Float64) where
  -- How many values are not over the given one.
  abbrev pub count_up_to : List f.Num → f.Num → ℕ
  count_up_to [] val = 0
  count_up_to (w ∷ ws) val = let rest = count_up_to ws val in if f.lt val w then rest else suc rest

  -- No value is below an earlier one.
  abbrev pub IsAscending : List f.Num → Type 0
  IsAscending [] = Unit
  IsAscending (v ∷ vs) = All (λ w. f.lt w v ≡ false) vs × IsAscending vs

  All-insert_num :
      (P : f.Num → Type 0) (v : f.Num) (ws : List f.Num)
      → P v
      → All P ws
      → All P (insert_num f v ws)
  unfolding insert_num
  All-insert_num P v [] p h = (p, tt)
  All-insert_num P v (w ∷ ws) p h = elim (Bool-cases (f.lt w v)) [
    | inl before ↦ rw before (h.0, All-insert_num P v ws p h.1)
    | inr after ↦ rw after (p, h)
  ]

  module _ (laws : IsLinear f) where
    above :
        (v w : f.Num) (ws : List f.Num)
        → f.lt w v ≡ false
        → All (λ x. f.lt x w ≡ false) ws
        → All (λ x. f.lt x v ≡ false) ws
    above v w [] k h = tt
    above v w (x ∷ ws) k h = (laws.cotrans v w x k h.0, above v w ws k h.1)

    insert_num-IsAscending :
        (v : f.Num) (ws : List f.Num) → IsAscending ws → IsAscending (insert_num f v ws)
    unfolding insert_num
    insert_num-IsAscending v [] h = (tt, tt)
    insert_num-IsAscending v (w ∷ ws) h = elim (Bool-cases (f.lt w v)) [
      | inl before ↦ rw before (
        All-insert_num (λ x. f.lt x w ≡ false) v ws (laws.asym w v before) h.0,
        insert_num-IsAscending v ws h.1,
      )
      | inr after ↦ rw after ((after, above v w ws after h.0), h)
    ]

    sort_nums-IsAscending : (vs : List f.Num) → IsAscending (sort_nums f vs)
    unfolding sort_nums
    sort_nums-IsAscending [] = tt
    sort_nums-IsAscending (v ∷ vs) =
        insert_num-IsAscending v (sort_nums f vs) (sort_nums-IsAscending vs)

    none_up_to :
        (val w : f.Num) (ws : List f.Num)
        → f.lt val w ≡ true
        → All (λ x. f.lt x w ≡ false) ws
        → count_up_to ws val ≡ 0
    none_up_to val w [] over h = refl
    none_up_to val w (x ∷ ws) over h =
        ground (arith, laws.cotrans w x val h.0, none_up_to val w ws over h.1)

    search-count :
        (ws : List f.Num) (val : f.Num) → IsAscending ws → search_over f ws val ≡ count_up_to ws val
    unfolding search_over
    search-count [] val h = refl
    search-count (w ∷ ws) val h = ground (arith, search-count ws val h.1, none_up_to val w ws)

    count-insert_num :
        (v : f.Num) (ws : List f.Num) (val : f.Num)
        → count_up_to (insert_num f v ws) val ≡ count_up_to (v ∷ ws) val
    unfolding insert_num
    count-insert_num v [] val = refl
    count-insert_num v (w ∷ ws) val = ground (arith, count-insert_num v ws val)

    count-sort_nums :
        (vs : List f.Num) (val : f.Num) → count_up_to (sort_nums f vs) val ≡ count_up_to vs val
    unfolding sort_nums
    count-sort_nums [] val = refl
    count-sort_nums (v ∷ vs) val =
        ground (arith, count-insert_num v (sort_nums f vs) val, count-sort_nums vs val)

    length-insert_num : (v : f.Num) (ws : List f.Num) → length (insert_num f v ws) ≡ suc (length ws)
    unfolding insert_num
    length-insert_num v [] = refl
    length-insert_num v (w ∷ ws) = ground (arith, length-insert_num v ws)

    length-sort_nums : (vs : List f.Num) → length (sort_nums f vs) ≡ length vs
    unfolding sort_nums
    length-sort_nums [] = refl
    length-sort_nums (v ∷ vs) =
        omega (arith, length-insert_num v (sort_nums f vs), length-sort_nums vs)

    percentile_nonempty :
        (ws : List f.Num) (val : f.Num) (n : ℕ)
        → length ws ≡ suc n
        → percentile_of f ws val
          ≡ f.div (f.of_int (pos (search_over f ws val))) (f.of_int (pos (length ws)))
    unfolding percentile_of
    percentile_nonempty [] val n h = absurd (omega arith)
    percentile_nonempty (w ∷ ws) val n h = refl

    -- The percentile of a value among at least one frequency, which the code finds by a search in the sorted
    -- list, is the share of the frequencies that are not over it, in whatever order they were collected,
    -- where the comparison is linear (no NaN).
    pub percentile_of-count :
        (v : f.Num) (vs : List f.Num) (val : f.Num)
        → percentile_of f (sort_nums f (v ∷ vs)) val
          ≡ f.div (f.of_int (pos (count_up_to (v ∷ vs) val))) (f.of_int (pos (length (v ∷ vs))))
    percentile_of-count v vs val =
        let ws = sort_nums f (v ∷ vs) in
        let found : search_over f ws val ≡ count_up_to (v ∷ vs) val =
          search-count ws val (sort_nums-IsAscending (v ∷ vs)) ∙ count-sort_nums (v ∷ vs) val in
        percentile_nonempty ws val (length vs) (length-sort_nums (v ∷ vs))
        ∙ ap (λ n. f.div (f.of_int (pos n)) (f.of_int (pos (length ws)))) found
        ∙ ap (λ n. f.div (f.of_int (pos (count_up_to (v ∷ vs) val))) (f.of_int (pos n)))
            (length-sort_nums (v ∷ vs))
