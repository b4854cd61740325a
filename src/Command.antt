-- ===== src/Command.antt =====
-- The command policy of pkg/securityruntime/command.go and command_parse.go: the settings that it
-- reads, the parser of command lines, and the checks before a process is started.
pub mod Defaults
pub mod Env
pub mod Parse
pub mod Policy
mod Tests
