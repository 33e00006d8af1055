-- ===== src/Collector/Parser/Arguments.antt =====
-- The arguments of a kprobe event (pkg/collector/parser.go, the loop of `Parse`).
use ztre.Base.{
  GoString, lit, has_prefix, contains, is_empty, true, List, [], ◌∷◌, ◌++◌, ◌≡◌, refl, arith,
  if◌then◌else◌, Bool-cases, inl, inr, All,
}
use ztre.Collector.Parser.{add_args}

has_prefix_self : (s t : GoString) → has_prefix s (s ++ t) ≡ true
unfolding has_prefix
has_prefix_self [] t = refl
has_prefix_self (c ∷ s) t = ground (arith, has_prefix_self s t)

has_prefix-append : (p s t : GoString) → has_prefix p s ≡ true → has_prefix p (s ++ t) ≡ true
unfolding has_prefix
has_prefix-append [] s t h = refl
has_prefix-append (c ∷ p) [] t h = cc
has_prefix-append (c ∷ p) (d ∷ s) t h = ground (arith, has_prefix-append p s t)

contains_prefix : (s sub : GoString) → has_prefix sub s ≡ true → contains s sub ≡ true
unfolding contains
contains_prefix [] sub h = h
contains_prefix (c ∷ s) sub h = ground arith

-- What a string holds, every extension to the right or to the left holds.
contains-append_left : (s t sub : GoString) → contains s sub ≡ true → contains (s ++ t) sub ≡ true
unfolding contains
contains-append_left [] t sub h = contains_prefix t sub (has_prefix-append sub [] t h)
contains-append_left (c ∷ s) t sub h =
    ground (arith, has_prefix-append sub (c ∷ s) t, contains-append_left s t sub)

contains-append_right : (s t sub : GoString) → contains t sub ≡ true → contains (s ++ t) sub ≡ true
unfolding contains
contains-append_right [] t sub h = h
contains-append_right (c ∷ s) t sub h = ground (arith, contains-append_right s t sub h)

contains_self : (s : GoString) → contains s s ≡ true
unfolding has_prefix
contains_self s = contains_prefix s s (prefix_self s)
  where
    prefix_self : (s : GoString) → has_prefix s s ≡ true
    prefix_self [] = refl
    prefix_self (c ∷ s) = ground (arith, prefix_self s)

-- The arguments after one step of the loop.
abbrev added : GoString → GoString → GoString
added arguments s =
    if is_empty s
    then arguments
    else if is_empty arguments
    then s
    else if contains arguments s
    then arguments
    else arguments ++ (lit " " ++ s)

added_keeps :
    (arguments s sub : GoString)
    → contains arguments sub ≡ true
    → contains (added arguments s) sub ≡ true
unfolding contains has_prefix
added_keeps [] [] sub h = h
added_keeps [] (c ∷ s) [] h = refl
added_keeps [] (c ∷ s) (d ∷ sub) h = cc
added_keeps (c ∷ arguments) [] sub h = h
added_keeps (c ∷ arguments) (d ∷ s) sub h = elim (Bool-cases (contains (c ∷ arguments) (d ∷ s))) [
  | inl old ↦ rw old h
  | inr new ↦ rw new (contains-append_left (c ∷ arguments) (lit " " ++ (d ∷ s)) sub h)
]

added_holds : (arguments s : GoString) → contains (added arguments s) s ≡ true
added_holds [] [] = unfold contains has_prefix in refl
added_holds (c ∷ arguments) [] = unfold contains has_prefix in refl
added_holds [] (d ∷ s) = contains_self (d ∷ s)
added_holds (c ∷ arguments) (d ∷ s) = elim (Bool-cases (contains (c ∷ arguments) (d ∷ s))) [
  | inl old ↦ rw old old
  | inr new ↦ rw new (
      contains-append_right (c ∷ arguments) (lit " " ++ (d ∷ s)) (d ∷ s)
        (contains-append_right (lit " ") (d ∷ s) (d ∷ s) (contains_self (d ∷ s))))
]

add_args_keeps :
    (arguments : GoString) (args : List GoString) (sub : GoString)
    → contains arguments sub ≡ true
    → contains (add_args arguments args) sub ≡ true
unfolding add_args
add_args_keeps arguments [] sub h = h
add_args_keeps arguments (s ∷ rest) sub h =
    add_args_keeps (added arguments s) rest sub (added_keeps arguments s sub h)

each_held :
    (arguments : GoString) (args : List GoString)
    → All (λ s. contains (add_args arguments args) s ≡ true) args
unfolding add_args
each_held arguments [] = tt
each_held arguments (s ∷ rest) = (
  add_args_keeps (added arguments s) rest s (added_holds arguments s),
  each_held (added arguments s) rest,
)

-- The arguments of the event hold the arguments of the process and every argument of the probe, so a
-- scan of the event's arguments misses none of them.
pub add_args_hold :
    (arguments : GoString) (args : List GoString)
    → (contains (add_args arguments args) arguments ≡ true)
      × All (λ s. contains (add_args arguments args) s ≡ true) args
add_args_hold arguments args =
    (add_args_keeps arguments args arguments (contains_self arguments), each_held arguments args)
