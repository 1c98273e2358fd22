-- ===== src/Tests.antt =====
-- Runs of the model on concrete inputs, and each theorem that has hypotheses at one of them.
pub mod Server
pub mod Smtp
pub mod Relay
pub mod Session
pub mod Limits
pub mod Proxy
pub mod Upstream
pub mod Relaying
