-- ===== src/Config.antt =====
-- internal/config: the scenario configuration, its validation and its decoded form.
pub mod Model
pub mod Stats
pub mod Delays
pub mod Thresholds
pub mod Scenario
pub mod Validate
pub mod Decoding
