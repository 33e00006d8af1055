-- ===== src/Collector/Event.antt =====
-- pkg/collector/types.go
use ztre.Base.{ℕ, GoString}

pub data EventType : Type 0 where
  execve exit file_access kprobe unknown : EventType

pub EventType-discrete : Discrete EventType
EventType-discrete = hlevel

-- A time is in nanoseconds since Go's zero time, which is 0. `pid` and `parent_pid` are uint32.
pub record SecurityEvent : Type 0 where
  pub timestamp : ℕ
  pub event_type : EventType
  pub pid : ℕ
  pub binary : GoString
  pub arguments : GoString
  pub parent_pid : ℕ
  pub parent_binary : GoString
  pub namespace : GoString
  pub pod_name : GoString
  pub container_id : GoString
  pub node_name : GoString
  pub workload_kind : GoString
  pub workload_name : GoString
