-- ===== src/Cmd.antt =====
-- cmd/zorkd and cmd/zorkplay, as far as they do more than wire the parts together and log.
pub mod Reaper
pub mod Policy
pub mod Play
