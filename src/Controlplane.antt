-- ===== src/Controlplane.antt =====
-- internal/controlplane: the paths of proxied WebSocket requests and the reconnect loop.
pub mod RequestPath
pub mod Reconnect
pub mod Response
pub mod BinaryFrame
pub mod Messages
pub mod Streams
