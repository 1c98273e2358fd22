-- ===== src/Proxy.antt =====
-- src/proxy.rs: the handler that asks the API about a message and relays it to the upstream.
pub mod Headers
pub mod Handler
