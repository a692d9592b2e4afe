-- ===== src/Tests.antt =====
-- Runs of the model at concrete schemas, and the theorems applied to them.
mod Sample
mod Schemas
mod Joins
mod Measures
mod Resolvers
mod Filters
mod Formats
mod Clusters
mod Literals
