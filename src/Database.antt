-- ===== src/Database.antt =====
-- src/database: the clients of the databases that hold the configuration.
pub mod Sqlite
pub mod Postgres
