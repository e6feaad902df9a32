-- ===== src/StatusProjection.antt =====
-- pkg/tools/statusprojection/statusprojection.go: values of expressions in the status of an object.
pub mod Normalize
pub mod Project
