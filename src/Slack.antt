-- ===== src/Slack.antt =====
-- slack.py: the Slack control plane.
pub mod Command
pub mod Quota
pub mod Parse
pub mod Fleet
pub mod Handle
pub mod Status
pub mod Home
