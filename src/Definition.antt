-- ===== src/Definition.antt =====
-- internal/definition/: the control service's domain. The types and the rules that hold for both of
-- its stores are in the children.
pub mod Errors
pub mod Types
pub mod Equalities
pub mod Revision
pub mod Placement
