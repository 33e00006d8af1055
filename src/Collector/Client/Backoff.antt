-- ===== src/Collector/Client/Backoff.antt =====
-- The waits between attempts to connect (pkg/collector/client.go).
use ztre.Base.{
  ℕ, ℤ, pos, negsuc, zero, suc, ◌+◌, ◌*◌, ◌^◌, ◌≤◌, ◌<◌, ◌≤ℤ◌, ◌<ℤ◌, double_int64, true, List, [],
  ◌∷◌, ◌≡◌, refl, ap, ltb, ltb→lt, ltb→le, ◌⊎◌, arith, All, if◌then◌else◌, has_prefix, contains,
  lit, GoString, Bool-cases, inl, inr,
}
use Prim.Native.Nat.{min}
use ztre.Collector.Client.{
  ClientConfig, new_client, Attempt, failed_early, failed_late, ended, wait_after, grow, waits_from,
  start, or_socket, with_scheme,
}

-- The intervals of the loop, in an order that `NewClient` does not check.
pub record IsPaced (config : ClientConfig) : Type 0 where
  pub positive : pos 1 ≤ℤ config.reconnect_interval
  pub ordered : config.reconnect_interval ≤ℤ config.max_reconnect_backoff
  pub doubles : config.max_reconnect_backoff <ℤ pos (2 ^ 62)

abbrev pub Between : ClientConfig → ℤ → Type 0
Between config w = (config.reconnect_interval ≤ℤ w) × (w ≤ℤ config.max_reconnect_backoff)

pub wait-Between :
    (config : ClientConfig) (b : ℤ) (a : Attempt)
    → IsPaced config
    → Between config b
    → Between config (wait_after config b a)
unfolding wait_after
wait-Between config b failed_early p h = h
wait-Between config b failed_late p h = omega arith
wait-Between config b ended p h = omega arith

double-pos : (n : ℕ) → n < 2 ^ 62 → double_int64 (pos n) ≡ pos (2 * n)
unfolding double_int64
double-pos n h = ground arith

pub grow-Between :
    (config : ClientConfig) (b : ℤ)
    → IsPaced config
    → Between config b
    → Between config (grow config b)
unfolding grow
grow-Between config (pos n) p h = rw (double-pos n (omega arith)) (ground arith)
grow-Between config (negsuc n) p h = absurd (omega arith)

waits-Between :
    (config : ClientConfig) (b : ℤ) (attempts : List Attempt)
    → IsPaced config
    → Between config b
    → All (Between config) (waits_from config b attempts)
unfolding waits_from
waits-Between config b [] p h = tt
waits-Between config b (a ∷ rest) p h =
    let w = wait-Between config b a p h in
    (
      w,
      waits-Between config (grow config (wait_after config b a)) rest p (grow-Between config _ p w),
    )

-- However the attempts end, every wait lies between the reconnect interval and the maximal backoff, so
-- the loop neither spins nor waits longer than the maximum.
pub start-Between :
    (config : ClientConfig) (attempts : List Attempt)
    → IsPaced config
    → All (Between config) (start config attempts)
unfolding start
start-Between config attempts p =
    waits-Between config config.reconnect_interval attempts p (omega arith)

abbrev pub early : ℕ → List Attempt
early zero = []
early (suc n) = failed_early ∷ early n

-- The waits that an exponential backoff promises: each twice the one before, up to the maximum.
abbrev pub doubling : ℕ → ℕ → ℕ → List ℤ
doubling m zero b = []
doubling m (suc n) b = pos b ∷ doubling m n (min m (2 * b))

grow-pos :
    (config : ClientConfig) (m b : ℕ)
    → config.max_reconnect_backoff ≡ pos m
    → m < 2 ^ 62
    → b ≤ m
    → grow config (pos b) ≡ pos (min m (2 * b))
unfolding grow
grow-pos config m b e h k = rw (double-pos b (omega arith), e) (capped (2 * b))
  where
    capped : (d : ℕ) → (if ltb (m + 0) (d + 0) then pos m else pos d) ≡ pos (min m d)
    capped d = elim (Bool-cases (ltb (m + 0) (d + 0))) [
      | inl over ↦ rw over (ap pos (omega (arith, ltb→lt (m + 0) (d + 0) over)))
      | inr fits ↦ rw fits (ap pos (omega (arith, ltb→le (m + 0) (d + 0) fits)))
    ]

waits-doubling :
    (config : ClientConfig) (m b : ℕ) (n : ℕ)
    → config.max_reconnect_backoff ≡ pos m
    → m < 2 ^ 62
    → b ≤ m
    → waits_from config (pos b) (early n) ≡ doubling m n b
unfolding waits_from wait_after
waits-doubling config m b zero e h k = refl
waits-doubling config m b (suc n) e h k =
    ap (λ rest. pos b ∷ rest)
      (rw (grow-pos config m b e h k) (waits-doubling config m (min m (2 * b)) n e h (omega arith)))

-- While attempts fail early, the waits double from the reconnect interval up to the maximum.
pub start-doubling :
    (config : ClientConfig) (m b : ℕ) (n : ℕ)
    → config.reconnect_interval ≡ pos b
    → config.max_reconnect_backoff ≡ pos m
    → m < 2 ^ 62
    → b ≤ m
    → start config (early n) ≡ doubling m n b
unfolding start
start-doubling config m b n f e h k = simp f (waits-doubling config m b n e h k)

abbrev HasAddress : GoString → Type 0
HasAddress path = (has_prefix (lit "unix://") path ≡ true) ⊎ (contains path (lit ":") ≡ true)

with_scheme-HasAddress : (path : GoString) → HasAddress (with_scheme path)
with_scheme-HasAddress path = elim (Bool-cases (has_prefix (lit "unix://") path)) [
  | inl unix ↦ rw unix (inl unix)
  | inr bare ↦ elim (Bool-cases (contains path (lit ":"))) [
    | inl address ↦ rw (bare, address) (inr address)
    | inr relative ↦ rw (bare, relative) (inl (unfold has_prefix in refl))
  ]
]

-- The configuration of a new client names a socket by a scheme or an address, and its intervals are
-- positive, whatever was given.
pub new_client_valid :
    (config : ClientConfig)
    → ((has_prefix (lit "unix://") (new_client config).socket_path ≡ true)
        ⊎ (contains (new_client config).socket_path (lit ":") ≡ true))
      × (pos 1 ≤ℤ (new_client config).reconnect_interval)
      × (pos 1 ≤ℤ (new_client config).max_reconnect_backoff)
unfolding new_client
new_client_valid config =
    (with_scheme-HasAddress (or_socket config.socket_path), ground arith, ground arith)
