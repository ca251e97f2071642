-- ===== src/Store/Port.antt =====
-- store/store.go: the storage port. An adapter fills these records; its clients take them as
-- parameters. Contexts, of which no code makes use, are left out.
use linea_core.Prelude.{ℕ, List, Option, none, some}
use linea_core.Errors.{Result, Error, ok, err}
use linea_core.Model.Ids.{EntityId}
use linea_core.Model.Person.{Person}
use linea_core.Model.Relationship.{Relationship}
use linea_core.Model.Source.{Source}
use linea_core.Model.Proposal.{Proposal}

-- A uint64.
abbrev pub Version : Type 0
Version = ℕ

-- What an iterator hands to its `yield`, in order, and the error that it returns if `yield` never
-- stops it.
pub record Scan (A : Type 0) : Type 0 where
  pub items : List A
  pub failure : Option Error

-- The error that `Iterate…` returns, if no `yield` stopped it.
abbrev pub finish {ℓ} : {A : Type ℓ} → Option Error → A → Result A
finish none a = ok a
finish (some e) a = err e

-- ReadTx. Close releases resources of the adapter and is not modelled.
pub record ReadTx : Type 1 where
  pub Tx : Type 0
  pub version : Tx → Version
  pub get_person : Tx → EntityId → Result Person
  pub get_relationship : Tx → EntityId → Result Relationship
  pub get_source : Tx → EntityId → Result Source
  pub get_proposal : Tx → EntityId → Result Proposal
  pub iterate_children : Tx → EntityId → Scan Relationship
  pub iterate_parents : Tx → EntityId → Scan Relationship
  pub iterate_marriages : Tx → EntityId → Scan Relationship
  pub iterate_persons : Tx → Scan Person
  pub iterate_relationships : Tx → Scan Relationship
  pub iterate_sources : Tx → Scan Source
  pub iterate_proposals : Tx → Scan Proposal

-- WriteTx: a mutation returns the transaction as it stands afterwards.
pub record WriteTx : Type 1 where
  pub read : ReadTx
  pub open read use *
  pub put_person : Tx → Person → Result Tx
  pub delete_person : Tx → EntityId → Result Tx
  pub put_relationship : Tx → Relationship → Result Tx
  pub delete_relationship : Tx → EntityId → Result Tx
  pub put_source : Tx → Source → Result Tx
  pub delete_source : Tx → EntityId → Result Tx
  pub put_proposal : Tx → Proposal → Result Tx

-- Store, as far as governance calls it. The function given to `update` captures a variable for its
-- result: it returns that beside the transaction.
pub record Store : Type 1 where
  pub writing : WriteTx
  pub State : Type 0
  pub update :
      {A : Type 0}
      → State
      → (writing.read.Tx → Result (A × writing.read.Tx))
      → Result (A × Version) × State
