-- ===== src/Discovery/WhitelistFile/Comments.antt =====
-- The header of the whitelist's file is a YAML comment (pkg/discovery/reporter.go, `WriteWhitelist`).
use ztre.Base.{
  ℕ, zero, suc, ◌+◌, ◌/◌, ◌%◌, ◌==◌, ltb, GoString, ◌++◌, Bool, true, false, [], ◌∷◌, ◌≡◌, refl, ap,
  ◌∙◌, arith, if◌then◌else◌, if_both,
}
use ztre.Base.Decimal.{digits, zero_char}
use ztre.Discovery.WhitelistFile.{WhitelistConfig, Yaml, header}

-- Where a scan for comments stands: at the start of a line, in a comment, or past something else.
pub data Scan : Type 0 where
  line_start in_comment in_text : Scan

abbrev newline : ℕ
newline = b'\n'

abbrev hash : ℕ
hash = b'#'

abbrev advance : Scan → ℕ → Scan
advance line_start c =
    if c == newline then line_start else if c == hash then in_comment else in_text
advance in_comment c = if c == newline then line_start else in_comment
advance in_text c = in_text

abbrev pub scan : Scan → GoString → Scan
scan st [] = st
scan st (c ∷ s) = scan (advance st c) s

-- Whole lines, each of them empty or a comment.
abbrev pub IsComments : GoString → Type 0
IsComments s = scan line_start s ≡ line_start

abbrev pub has_newline : GoString → Bool
has_newline [] = false
has_newline (c ∷ s) = if c == newline then true else has_newline s

scan-append : (st : Scan) (s t : GoString) → scan st (s ++ t) ≡ scan (scan st s) t
scan-append st [] t = refl
scan-append st (c ∷ s) t = scan-append (advance st c) s t

scan_line : (s : GoString) → has_newline s ≡ false → scan in_comment s ≡ in_comment
scan_line [] h = refl
scan_line (c ∷ s) h = ground (arith, scan_line s)

-- A part of a line in a comment.
through : (s t : GoString) → has_newline s ≡ false → scan in_comment (s ++ t) ≡ scan in_comment t
through s t h = scan-append in_comment s t ∙ ap (λ st. scan st t) (scan_line s h)

digits_line :
    (fuel n : ℕ) (acc : GoString)
    → has_newline acc ≡ false
    → has_newline (digits fuel n acc) ≡ false
unfolding digits
digits_line zero n acc h = h
digits_line (suc fuel) n acc h =
    let one : has_newline ((zero_char + n % 10) ∷ acc) ≡ false = ground (arith, h) in
    if_both (λ s. has_newline s ≡ false) (ltb n 10) one (digits_line fuel (n / 10) _ one)

-- The header of every whitelist is comment lines, where the text of a time is on one line.
pub header-IsComments :
    (yaml : Yaml) (wl : WhitelistConfig)
    → ((t : ℕ) → has_newline (yaml.rfc3339 t) ≡ false)
    → IsComments (header yaml wl)
header-IsComments yaml wl one_line =
    through (yaml.rfc3339 wl.learning_window.start) _ (one_line wl.learning_window.start)
    ∙ through (yaml.rfc3339 wl.learning_window.end) _ (one_line wl.learning_window.end)
    ∙ through (digits 20 wl.total_events_observed []) _
        (digits_line 20 wl.total_events_observed [] refl)
    ∙ through (yaml.rfc3339 wl.generated_at) _ (one_line wl.generated_at)
