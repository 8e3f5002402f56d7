-- ===== src/Modes.antt =====
-- src/modes: the modes of operation, and how the configuration gets into the gateway.
pub mod Polling
pub mod DataPlane
pub mod ControlPlane
pub mod File

-- src/modes/mod.rs
pub data OperationMode : Type 0 where
  database file control_plane data_plane : OperationMode
