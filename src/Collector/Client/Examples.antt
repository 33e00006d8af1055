-- ===== src/Collector/Client/Examples.antt =====
-- Runs of pkg/collector/client.go and instances of its theorems.
use ztre.Base.{pos, ◌*◌, lit, arith}
use ztre.Collector.Client.{ClientConfig, second}
use ztre.Collector.Client.Backoff.{IsPaced}

-- The configuration that the agent passes.
abbrev agent : ClientConfig
agent = record {
  socket_path = lit "/var/run/tetragon/tetragon.sock";
  reconnect_interval = pos second;
  max_reconnect_backoff = pos (10 * second);
}

agent-IsPaced : IsPaced agent
agent-IsPaced = omega arith
