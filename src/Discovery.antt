-- ===== src/Discovery.antt =====
-- pkg/discovery: the behaviour tracker, the baseline store with its snapshots, and the reporter.
pub mod Tracker
pub mod Snapshots
pub mod Baseline
pub mod Reporter
pub mod Statistics
pub mod Profiles
pub mod Report
pub mod WhitelistFile
