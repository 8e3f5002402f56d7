-- ===== src/Grpc.antt =====
-- src/grpc and src/modes/control_plane.rs: how a control plane passes its configuration on to data planes.
pub mod Messages
pub mod Conversions
pub mod ControlPlane
