-- ===== src/Settings.antt =====
-- The settings of the agent: internal/agentcore/sysconfig/settings_definitions.go and
-- settings_value_validation.go. Netip and url are parameters.
pub mod Definition
pub mod Keys
pub mod Discovery
pub mod Services
pub mod Remote
pub mod Values
pub mod Apply
pub mod Reported
