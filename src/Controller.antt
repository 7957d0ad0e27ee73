-- ===== src/Controller.antt =====
-- internal/controller: the part of the reconciliation of an Agent that decides when a Pod is let go.
pub mod Cluster
pub mod Fence
