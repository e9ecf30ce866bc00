-- ===== src/Tests.antt =====
-- The theorems at concrete inputs, and runs of the model.
mod Websocket
mod Tunnel
mod Agent
mod Udp
mod Controlplane
mod Ingress
mod State
mod Heartbeat
mod Origin
mod Components
mod Response
mod Messages
mod Streams
mod Registration
