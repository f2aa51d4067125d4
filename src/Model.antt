-- ===== src/Model.antt =====
-- The shared types of model.go and of schema.go: where clauses, queries, indexes, schemas.
pub mod Value
pub mod Query
pub mod Schema
