-- ===== src/Agent.antt =====
-- internal/agent: the tunnels, the heartbeat, the registration and the service proxy of the agent.
pub mod UdpSessions
pub mod TunnelManager
pub mod TcpTunnel
pub mod UdpTunnel
pub mod Heartbeat
pub mod ServiceProxy
pub mod Registration
