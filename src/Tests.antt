-- ===== src/Tests.antt =====
-- Concrete configurations and requests, and the theorems at them.
mod Samples
mod Config
mod Plugins
mod Limits
mod Dns
mod Polling
mod Router
mod Handler
mod Pagination
mod Interface
mod Codec
mod Grpc
mod Planes
mod Transformers
mod Oauth2
mod Files
mod Database
mod Postgres
