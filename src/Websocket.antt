-- ===== src/Websocket.antt =====
-- internal/websocket: the binary frame envelope, backpressure and the heartbeat.
pub mod Frame
pub mod Flow
pub mod Heartbeat
