-- ===== src/Lib.antt =====
-- Linea-core, the engine of a genealogical knowledge graph: persons, the relationships between
-- them, the sources, and the proposals by which alone the graph changes.
--
-- The parts of the program and where they are modelled:
--   * errors/errors.go is Errors. An error is a value of the type `Error`, a Go pair of a value and
--     an error is a `Result`. Errors/Ensures has the rules for statements on calls that may fail.
--   * model/*.go is Model, one file for each Go file of the same name (id.go is Model/Ids). A struct
--     is a record, a constructor `NewX` is `new_x`, and a slice that is copied is a list.
--   * store/store.go, the storage port, is Store/Port: the interfaces ReadTx, WriteTx and Store are
--     records of operations. Store/Contents says what the port promises of a write transaction, with
--     entities as functions of their ids.
--   * store/memory is Store/Memory: memory.go stands in Store/Memory, readtx.go and the type `state`
--     in Store/Memory/State, writetx.go in Store/Memory/WriteTx. A method that changes its receiver
--     returns the next one. The other files below Store/Memory hold proofs: Refines compares the
--     mutators with the port's promise, Writes has the transactions that calls of mutators reach,
--     Commit what a commit leaves, Terminal the proposals in a terminal state, Update one call of
--     Update, and Versions any number of them.
--   * store/badger is Store/Badger: badger.go stands in Store/Badger, codec.go in
--     Store/Badger/Codec, with its Go structs in Wire and the codes of their fields in Fields, keys.go
--     in Keys, readtx.go in ReadTx and writetx.go in WriteTx. Txn says what the adapter asks of
--     package badgerdb. The other files below Store/Badger hold proofs: Fields/Laws and the files
--     below Codec the round trips, Keys/Laws that keys of different entities differ, the files below
--     Represents what the mutators do to the contents that a transaction stands for, Indices what a
--     scan of an index yields, and Update one call of Update. Model/Made names what the constructors
--     of model make.
--   * governance/statemachine.go is Governance/StateMachine, with the documented life cycle as a
--     relation in Lifecycle and the audit history in History.
--   * governance/apply.go is Governance/Payload (the payloads), Governance/Cycle (the search for
--     cycles), Governance/Build (from a payload to an entity) and Governance/Apply (all else), over any
--     adapter that fills the port. Below Cycle, Scan has one round of the search,
--     Graph has descent as a relation, Search the correctness of the search, Acyclic what it is good
--     for. Below Apply, Sound reduces the operations to calls of the mutators, NoCycles follows the
--     ParentChild edges through Accept, Endpoints, Reroutes and Intact the persons at the ends of the
--     edges, Honest and Placeholders the placeholders for unknown ancestors, Merged what a merge leaves,
--     Creates and Retracts what accepting a new person or a retraction does, and Atomic what moving a
--     proposal changes.
--   * query/path.go is Query/Paths, where the type `Path` is `GraphPath`, and query/rank.go is
--     Query/Rank, with the order in Order and what computeAggregate computes in Aggregates. FindPaths of
--     query/engine.go is Query/Engine, with routes as a relation in Found, their shape in Simple, the
--     answers in Answers and their order in Ranked. ancestorPaths and NearestKnownCommonAncestor of
--     query/engine.go are Query/Ancestors, with the ways up as a relation in Climbs, what is left of
--     them in Best and the choice among common ancestors in Nearest.
--   * explain/types.go and explain/explain.go are Explain: Edges goes through the edges of a path,
--     Weakest compares the weakest link with them.
--   * Prelude has what the files share: tests, lists, maps as association lists, texts and 64-bit
--     integers. Examples has a small family on which the theorems are applied, and tests.
--
-- How they interact: governance works on the store by the port alone, so its definitions take the
-- port as a section parameter; Store/Memory fills the port (`writing`, `store`), and the theorems on
-- governance that speak of a concrete store take that one.
--
-- Bounds and fuel: uint8 constants are natural numbers, of which the code names the valid ones. A Go
-- int or int64 is an integer, and the sums that the code forms wrap around at 2 ^ 63
-- (Prelude/Int.add64); a version is a natural number, and its successor wraps around at 2 ^ 64. Two
-- loops are not bounded by their text and run on fuel, a round for each element popped from the
-- stack; a model that runs out returns the error `out_of_fuel`. For the search for cycles a round for
-- each ParentChild edge, one for the first person and one for the end are enough. For ancestorPaths
-- there is a number of rounds that is enough for a store, a person and a depth, since the depth
-- bounds the ways up. The search of FindPaths recurses on the number of edges that the depth still
-- allows, as the code does.
--
-- Parameters: package encoding/json is the record `Unmarshal` for payloads. For store/badger,
-- encoding/json, unicode/utf8 and encoding/binary are the record `Encoding` (Store/Badger/Wire), with
-- the law `IsFaithful` that what was written is read again, if its texts are valid UTF-8; a Go string
-- need not be, and encoding/json replaces what is invalid. Package badgerdb is the records `Txn` and
-- `Database` (Store/Badger/Txn), with the laws `IsKeyed` of a map with keys, whose Set and Delete may
-- refuse a write, and `IsTransactional` of transactions that commit whole or not at all. Package uuid is the id it would draw, strings.ToLower
-- is an argument of `parse_gender`. strings.TrimSpace is written out in Prelude/Text.
--
-- Not modelled: the test suite store/storetest, the options and the logger of Open of store/badger,
-- Close of a store and of a transaction, which only hand on, messages, String methods and contexts.
mod Prelude
pub mod Errors
pub mod Model
pub mod Store
pub mod Governance
pub mod Query
pub mod Explain
pub mod Examples
