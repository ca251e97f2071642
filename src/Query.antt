-- ===== src/Query.antt =====
-- package query
pub mod Paths
pub mod Rank
pub mod Engine
pub mod Ancestors
