-- ===== src/Ingress.antt =====
-- internal/ingress/watcher.go: the routes of Ingress resources, and their report to the control plane.
pub mod Routes
pub mod Watcher
pub mod Retry
