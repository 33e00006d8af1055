-- ===== src/Collector/Client.antt =====
-- pkg/collector/client.go: the defaults of the Tetragon client and the waits between its attempts to
-- connect. The stream itself is gRPC's; an attempt enters as how it ended.
pub mod Backoff
mod Examples
use ztre.Base.{
  ℕ, ℤ, pos, leb_ℤ, ltb_ℤ, ◌*◌, double_int64, GoString, lit, has_prefix, contains, is_empty, Bool,
  true, false, not, ◌&&◌, List, [], ◌∷◌, ◌++◌, if◌then◌else◌,
}

-- A time.Duration in nanoseconds.
abbrev pub second : ℕ
second = 1000000000

pub record ClientConfig : Type 0 where
  pub socket_path : GoString
  pub reconnect_interval : ℤ
  pub max_reconnect_backoff : ℤ

abbrev pub or_socket : GoString → GoString
or_socket path = if is_empty path then lit "unix:///var/run/tetragon/tetragon.sock" else path

abbrev pub with_scheme : GoString → GoString
with_scheme path =
    if not (has_prefix (lit "unix://") path) && not (contains path (lit ":"))
    then lit "unix://" ++ path
    else path

-- The configuration that `NewClient` stores.
unfoldable pub new_client : ClientConfig → ClientConfig
new_client config = record {
  socket_path = with_scheme (or_socket config.socket_path);
  reconnect_interval =
      if leb_ℤ config.reconnect_interval (pos 0) then pos second else config.reconnect_interval;
  max_reconnect_backoff =
      if leb_ℤ config.max_reconnect_backoff (pos 0)
      then pos (10 * second)
      else config.max_reconnect_backoff;
}

-- How `streamEvents` ended: with an error after less than five seconds or after more, or without.
pub data Attempt : Type 0 where
  failed_early failed_late ended : Attempt

-- The wait after an attempt.
unfoldable pub wait_after : ClientConfig → ℤ → Attempt → ℤ
wait_after config backoff failed_early = backoff
wait_after config backoff failed_late = config.reconnect_interval
wait_after config backoff ended = config.reconnect_interval

-- `backoff *= 2`, up to the maximum.
unfoldable pub grow : ClientConfig → ℤ → ℤ
unfolding double_int64
grow config backoff =
    let doubled = double_int64 backoff in
    if ltb_ℤ config.max_reconnect_backoff doubled then config.max_reconnect_backoff else doubled

-- The waits of the loop of `Start` over a sequence of attempts, until the context is cancelled.
unfoldable pub waits_from : ClientConfig → ℤ → List Attempt → List ℤ
unfolding wait_after grow
waits_from config backoff [] = []
waits_from config backoff (a ∷ rest) =
    let wait = wait_after config backoff a in wait ∷ waits_from config (grow config wait) rest

unfoldable pub start : ClientConfig → List Attempt → List ℤ
unfolding waits_from
start config attempts = waits_from config config.reconnect_interval attempts
