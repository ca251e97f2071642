-- ===== src/Model.antt =====
-- model/: the values of the graph and their validated constructors.
pub mod Gender
pub mod Certainty
pub mod Name
pub mod TimeRange
pub mod Continuity
pub mod Person
pub mod Relationship
pub mod Source
pub mod Proposal
pub mod Made
pub mod Ids
