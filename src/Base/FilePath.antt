-- ===== src/Base/FilePath.antt =====
-- filepath.Base on Unix paths.
use Prim.Native.Nat.{ℕ}
use mathlib.Core.Path.{◌≡◌, refl}
use mathlib.Core.Logic.{◌⊎◌, inl, inr}
use mathlib.Core.Bool.{Bool, false, ◌&&◌, ◌||◌}
use mathlib.Core.List.{List, [], ◌∷◌, ◌++◌}
use native.Mathlib.Omega.{arith}
use ztre.Base.Tests.{◌==◌, if◌then◌else◌}
use ztre.Base.Text.{GoString, lit, is_empty, text_eq}

abbrev pub slash : ℕ
slash = b'/'

unfoldable pub has_char : ℕ → GoString → Bool
has_char k [] = false
has_char k (c ∷ s) = c == k || has_char k s

-- `for len(path) > 0 && path[len(path)-1] == '/'`: the string without its trailing slashes.
unfoldable pub strip_slashes : GoString → GoString
strip_slashes [] = []
strip_slashes (c ∷ s) =
    let rest = strip_slashes s in if c == slash && is_empty rest then [] else c ∷ rest

-- What follows the last slash, or the whole string.
unfoldable pub after_slash : GoString → GoString
unfolding has_char
after_slash [] = []
after_slash (c ∷ s) =
    let rest = after_slash s in if has_char slash s then rest else if c == slash then s else c ∷ s

-- filepath.Base
unfoldable pub base : GoString → GoString
unfolding strip_slashes after_slash
base path =
    if is_empty path
    then lit "."
    else let name = after_slash (strip_slashes path) in if is_empty name then lit "/" else name

after_slash_clean : (s : GoString) → has_char slash (after_slash s) ≡ false
unfolding after_slash
after_slash_clean [] = refl
after_slash_clean (c ∷ s) = ground (arith, after_slash_clean s)

strip_slashes_id : (s : GoString) → has_char slash s ≡ false → strip_slashes s ≡ s
unfolding strip_slashes has_char
strip_slashes_id [] h = refl
strip_slashes_id (c ∷ s) h = ground (arith, strip_slashes_id s)

after_slash_id : (s : GoString) → has_char slash s ≡ false → after_slash s ≡ s
unfolding after_slash
after_slash_id [] h = refl
after_slash_id (c ∷ s) h = ground arith

-- A base name is "/" or has no slash.
pub base_clean : (p : GoString) → (base p ≡ lit "/") ⊎ (has_char slash (base p) ≡ false)
unfolding base has_char
base_clean [] = inr refl
base_clean (c ∷ s) = ground (arith, after_slash_clean (strip_slashes (c ∷ s)))

base_of_clean : (s : GoString) → has_char slash s ≡ false → is_empty s ≡ false → base s ≡ s
unfolding base
base_of_clean [] h e = cc
base_of_clean (c ∷ s) h e = rw (strip_slashes_id (c ∷ s) h, after_slash_id (c ∷ s) h)

base_not_empty : (p : GoString) → is_empty (base p) ≡ false
unfolding base
base_not_empty [] = refl
base_not_empty (c ∷ s) = ground arith

-- The base of a base name is that name.
pub base_idem : (p : GoString) → base (base p) ≡ base p
base_idem p = elim (base_clean p) [
  | inl root ↦ rw root base_root
  | inr clean ↦ base_of_clean (base p) clean (base_not_empty p)
]
  where
    base_root : base (lit "/") ≡ lit "/"
    base_root = unfold base in refl

-- A text is cut in one way at the first place of a character.
pub append_char_inj :
    (k : ℕ) (n m p q : GoString)
    → has_char k n ≡ false
    → has_char k m ≡ false
    → n ++ (k ∷ p) ≡ m ++ (k ∷ q)
    → (n ≡ m) × (p ≡ q)
unfolding has_char
append_char_inj k [] [] p q hn hm e = (refl, cc)
append_char_inj k [] (c ∷ m) p q hn hm e = absurd (ground arith)
append_char_inj k (c ∷ n) [] p q hn hm e = absurd (ground arith)
append_char_inj k (c ∷ n) (d ∷ m) p q hn hm e =
    let (same, rest) = append_char_inj k n m p q (ground arith) (ground arith) (ground arith) in
    (ground (arith, same), rest)

pub has_char-append :
    (k : ℕ) (s t : GoString)
    → has_char k s ≡ false
    → has_char k t ≡ false
    → has_char k (s ++ t) ≡ false
unfolding has_char
has_char-append k [] t hs ht = ht
has_char-append k (c ∷ s) t hs ht = ground (arith, has_char-append k s t)

-- The parts between slashes.
unfoldable pub split_slash : GoString → List GoString
split_slash [] = [] ∷ []
split_slash (c ∷ s) = elim (split_slash s) [
  | [] ↦ []
  | part ∷ rest ↦ if c == slash then [] ∷ part ∷ rest else (c ∷ part) ∷ rest
]

-- One part on the parts kept so far, the last first: "" and "." are dropped, and ".." takes the part
-- before it away, stays at the front of a relative path and is dropped at the root.
unfoldable pub keep_part : Bool → List GoString → GoString → List GoString
keep_part rooted kept part =
    if is_empty part || text_eq part (lit ".")
    then kept
    else if text_eq part (lit "..")
    then elim kept [
      | [] ↦ if rooted then [] else part ∷ []
      | last ∷ rest ↦ if text_eq last (lit "..") then part ∷ last ∷ rest else rest
    ]
    else part ∷ kept

unfoldable pub keep_parts : Bool → List GoString → List GoString → List GoString
unfolding keep_part
keep_parts rooted kept [] = kept
keep_parts rooted kept (part ∷ rest) = keep_parts rooted (keep_part rooted kept part) rest

-- The kept parts, the last first, with slashes between them, in front of `tail`.
unfoldable pub join_kept : List GoString → GoString → GoString
join_kept [] tail = tail
join_kept (part ∷ []) tail = part ++ tail
join_kept (part ∷ before ∷ rest) tail = join_kept (before ∷ rest) (slash ∷ (part ++ tail))

-- filepath.Clean
unfoldable pub clean : GoString → GoString
unfolding split_slash keep_parts join_kept
clean path =
    let rooted = is_rooted path in
    let body = join_kept (keep_parts rooted [] (split_slash path)) [] in
    if rooted then slash ∷ body else if is_empty body then lit "." else body
  where
    is_rooted : GoString → Bool
    is_rooted [] = false
    is_rooted (c ∷ s) = c == slash

-- filepath.Join of two elements.
unfoldable pub join : GoString → GoString → GoString
unfolding clean
join a b =
    if is_empty a
    then (if is_empty b then [] else clean b)
    else if is_empty b
    then clean a
    else clean (a ++ (slash ∷ b))

clean_not_empty : (p : GoString) → is_empty (clean p) ≡ false
unfolding clean
clean_not_empty p = ground arith

pub join_not_empty : (a b : GoString) → is_empty b ≡ false → is_empty (join a b) ≡ false
unfolding join
join_not_empty [] b h = rw h (clean_not_empty b)
join_not_empty (c ∷ a) b h = rw h (clean_not_empty ((c ∷ a) ++ (slash ∷ b)))

join_dir : join (lit "/var/./data//x/../out/") (lit "auto.yaml") ≡ lit "/var/data/out/auto.yaml"
unfolding join text_eq
join_dir = refl

join_relative : join (lit "../a") (lit "b") ≡ lit "../a/b"
unfolding join text_eq
join_relative = refl
