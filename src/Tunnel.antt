-- ===== src/Tunnel.antt =====
-- internal/tunnel: the header of a tunnel stream and the watcher of the Gateway API.
pub mod StreamHeader
pub mod Gateway
pub mod GatewayWatcher
