-- ===== src/Statistics.antt =====
-- of1x_statistics.c, and of1x_get_flow_stats_loop of of1x_loop_match.c: the messages that report the
-- counters of flow entries and groups.
pub mod Copies
pub mod Messages
pub mod Flows
pub mod Reports
pub mod Answers
pub mod Groups
pub mod Aggregates
mod Tests
