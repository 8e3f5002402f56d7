-- ===== src/Proxy.antt =====
-- src/proxy: routing and forwarding.
pub mod Router
pub mod Handler
pub mod Server
