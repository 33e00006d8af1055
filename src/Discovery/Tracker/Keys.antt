-- ===== src/Discovery/Tracker/Keys.antt =====
-- The keys of patterns (pkg/discovery/tracker.go, `patternKey`).
use ztre.Base.{ℕ, GoString, lit, false, ◌∷◌, ◌++◌, ◌≡◌, ap}
use mathlib.Core.List.{append_assoc}
use ztre.Base.FilePath.{slash, has_char, append_char_inj}
use ztre.Discovery.Tracker.{pattern_key}

abbrev pub arrow : ℕ
arrow = 8594

-- Lineages whose namespaces, workloads and parents hold no slash, and whose parents hold no arrow, have
-- the same key only if they are the same.
pub pattern_key_inj :
    (n m w v p q c d : GoString)
    → has_char slash n ≡ false
    → has_char slash m ≡ false
    → has_char slash w ≡ false
    → has_char slash v ≡ false
    → has_char arrow p ≡ false
    → has_char arrow q ≡ false
    → pattern_key n w p c ≡ pattern_key m v q d
    → (n ≡ m) × (w ≡ v) × (p ≡ q) × (c ≡ d)
unfolding pattern_key
pattern_key_inj n m w v p q c d hn hm hw hv hp hq e =
    let (e1, r1) =
      append_char_inj slash n m (w ++ (slash ∷ (p ++ (arrow ∷ c))))
        (v ++ (slash ∷ (q ++ (arrow ∷ d)))) hn hm e in
    let (e2, r2) = append_char_inj slash w v (p ++ (arrow ∷ c)) (q ++ (arrow ∷ d)) hw hv r1 in
    let (e3, r3) = append_char_inj arrow p q c d hp hq r2 in (e1, e2, e3, r3)

-- Without the condition on arrows two lineages share a key whenever a file name holds an arrow: the
-- parent "a→b" of "c" has the key of the parent "a" of "b→c".
pub pattern_key_collision :
    (n w a b c : GoString)
    → pattern_key n w (a ++ (lit "→" ++ b)) c ≡ pattern_key n w a (b ++ (lit "→" ++ c))
unfolding pattern_key
pattern_key_collision n w a b c =
    ap (λ s. n ++ (lit "/" ++ (w ++ (lit "/" ++ s)))) (append_assoc a (lit "→" ++ b) (lit "→" ++ c))
