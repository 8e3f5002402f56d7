-- ===== src/Admin.antt =====
-- src/admin: the administration interface.
pub mod Api
pub mod Gate
pub mod Pagination
pub mod Proxies
pub mod Consumers
pub mod PluginConfigs
pub mod Routing
pub mod Frames
