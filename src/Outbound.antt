-- ===== src/Outbound.antt =====
-- The policy for connections that the agent opens: pkg/securityruntime/outbound.go, and the dialling of
-- outbound_http.go. Packages net and net/url and the name server are a parameter.
pub mod Network
pub mod Hosts
pub mod Policy
pub mod Requests
mod Tests
