-- ===== src/Risk/Shells.antt =====
-- Which binaries count as a shell or a reverse shell (pkg/risk/engine.go).
use ztre.Base.{
  GoString, lit, text_eq, text_eq_iff, has_suffix, contains, Bool, true, false, ◌&&◌, ◌||◌, List,
  [], ◌∷◌, ◌≡◌, refl, arith, if◌then◌else◌,
}
use ztre.Base.FilePath.{slash, has_char, after_slash, base}
use ztre.Risk.{shells, matches_shell, is_suspicious_shell, is_reverse_shell}

has_char_of_eq :
    (s t : GoString) → has_char slash s ≡ true → has_char slash t ≡ false → text_eq s t ≡ false
has_char_of_eq s t h k = ground (arith, text_eq_iff s t)

no_suffix : (b s : GoString) → has_char slash b ≡ false → has_suffix b (slash ∷ s) ≡ false
unfolding has_suffix has_char
no_suffix [] s h = refl
no_suffix (c ∷ b) s h = ground (arith, no_suffix b s)

-- The source's test for one shell name compares what follows the last slash.
suffix-after_slash :
    (b s : GoString)
    → has_char slash s ≡ false
    → (has_suffix b (slash ∷ s) || text_eq b s) ≡ text_eq (after_slash b) s
unfolding has_suffix after_slash
suffix-after_slash [] s h = ground arith
suffix-after_slash (c ∷ b) s h =
    ground
      (arith, suffix-after_slash b s h, no_suffix b s, has_char_of_eq b s, has_char_of_eq (c ∷ b) s)

-- The names of the list, one of which is the given one.
abbrev pub one_of : List GoString → GoString → Bool
one_of [] k = false
one_of (s ∷ rest) k = text_eq k s || one_of rest k

abbrev all_clean : List GoString → Bool
all_clean [] = true
all_clean (s ∷ rest) = if has_char slash s then false else all_clean rest

matches_shell-one_of :
    (names : List GoString) (bin : GoString)
    → all_clean names ≡ true
    → matches_shell names bin ≡ one_of names (after_slash bin)
unfolding matches_shell
matches_shell-one_of [] bin h = refl
matches_shell-one_of (s ∷ rest) bin h =
    ground (arith, suffix-after_slash bin s, matches_shell-one_of rest bin)

-- A binary counts as a shell exactly when what follows its last slash is the name of one of the six
-- shells: the suffix tests never take a longer name that ends like a shell's.
pub is_suspicious_shell-one_of :
    (bin : GoString) → is_suspicious_shell bin ≡ one_of shells (after_slash bin)
unfolding is_suspicious_shell has_char
is_suspicious_shell-one_of bin = matches_shell-one_of shells bin refl

abbrev pub connectors : List GoString
connectors = lit "nc" ∷ lit "ncat" ∷ lit "netcat" ∷ []

-- The reverse-shell test holds exactly when the base name is nc, ncat or netcat and the arguments
-- hold "-e" or "-c", or the binary is one of the six shells and the arguments hold "/dev/tcp".
pub is_reverse_shell-one_of :
    (bin args : GoString)
    → is_reverse_shell bin args ≡ (
        one_of connectors (base bin) && (contains args (lit "-e") || contains args (lit "-c"))
        || one_of shells (after_slash bin) && contains args (lit "/dev/tcp"))
unfolding is_reverse_shell
is_reverse_shell-one_of bin args = rw (is_suspicious_shell-one_of bin) (
    tests (text_eq (base bin) (lit "nc")) (text_eq (base bin) (lit "ncat"))
      (text_eq (base bin) (lit "netcat")) (contains args (lit "-e") || contains args (lit "-c"))
      (one_of shells (after_slash bin) && contains args (lit "/dev/tcp")))
  where
    tests :
        (a b c flag tcp : Bool)
        → (if (a || b || c) && flag then true else tcp)
          ≡ ((a || (b || (c || false))) && flag || tcp)
    tests a b c flag tcp = ground arith
