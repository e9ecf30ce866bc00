-- ===== src/Origin.antt =====
-- internal/origin: where a tunnelled request is forwarded to.
pub mod Dialer
