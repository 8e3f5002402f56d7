-- ===== src/Dns.antt =====
-- src/dns: the resolution of backend hosts.
pub mod Cache
pub mod WarmUp
