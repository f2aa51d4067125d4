-- ===== src/Results.antt =====
-- util.go, docsHaving of tx.go and Query.Validate of model.go: what a query does with the documents
-- that its scan has found.
pub mod Validation
pub mod Having
pub mod Ordering
pub mod Grouping
pub mod Aggregates
mod Tests
