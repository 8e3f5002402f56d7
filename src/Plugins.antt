-- ===== src/Plugins.antt =====
-- src/plugins: the plugins of the gateway.
pub mod RateLimiting
pub mod Pipeline
pub mod AccessControl
pub mod Authentication
pub mod RequestTransformer
pub mod Oauth2
