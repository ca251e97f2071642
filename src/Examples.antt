-- ===== src/Examples.antt =====
-- Test data: a small family, in a state of store/memory.
pub mod Data
pub mod Searches
pub mod Ancestry
pub mod Storage
pub mod Database
pub mod Tables
pub mod Persistence
pub mod Governed
pub mod Endpoints
pub mod Creations
pub mod Retractions
use linea_core.Prelude.{String, List, [], ◌∷◌, Option, none, some, true, false}
use linea_core.Prelude.Int.{ℤ, pos}
use linea_core.Errors.{Result, ok}
use linea_core.Model.Ids.{EntityId}
use linea_core.Model.Name.{Name}
use linea_core.Model.TimeRange.{no_range}
use linea_core.Model.Person.{Person}
use linea_core.Model.Continuity.{new_continuous}
use linea_core.Model.Relationship.{Relationship, RelationshipType, parent_child}
use linea_core.Model.Source.{Source}
use linea_core.Model.Proposal.{
  Proposal, ProposalState, ProposalAction, ProposalOptions, EntityKind, create, relationship_kind,
  under_review, withdrawn,
}
use linea_core.Store.Memory.State.{State}
use linea_core.Store.Memory.{Store}
use linea_core.Governance.Payload.{
  Unmarshal, PayloadCreatePerson, PayloadCreateRelationship, PayloadCreateSource,
}

abbrev pub person : EntityId → Person
person id = record {
  id = id;
  names = record { text = id; language = ""; script = ""; type = "full"; preferred = true } ∷ [];
  gender = "";
  birth = no_range;
  death = no_range;
  notes = "";
  unknown = false;
}

abbrev pub edge : EntityId → EntityId → EntityId → Relationship
edge id from to = record {
  id = id;
  from = from;
  to = to;
  rel_type = parent_child;
  certainty = 3;
  continuity = new_continuous;
  time_range = no_range;
  notes = "";
  sources = [];
}

abbrev pub source : EntityId → Source
source id = record {
  id = id;
  src_type = "oral";
  citation = "told";
  author = "";
  title = "";
  date = "";
  locator = "";
  notes = "";
}

abbrev pub proposal : EntityId → ProposalState → ProposalAction → EntityKind → Proposal
proposal id state action kind = record {
  id = id;
  state = state;
  action = action;
  entity_kind = kind;
  target_id = "";
  secondary_id = "";
  payload = [];
  reason = "";
  sources = [];
  author = "X";
  created_at = pos 0;
  history = [];
}

-- A is the parent of B. Under "p" stands a proposal to add an edge, under "q" a withdrawn one.
abbrev pub family : State
family = record {
  version = 1;
  persons = ("A", person "A") ∷ ("B", person "B") ∷ [];
  relationships = ("r", edge "r" "A" "B") ∷ [];
  sources = [];
  proposals =
      ("p", proposal "p" under_review create relationship_kind)
      ∷ ("q", proposal "q" withdrawn create relationship_kind)
      ∷ [];
}

abbrev pub family_store : Store
family_store = record { current = family; history = (1, family) ∷ []; max_keep = 0; closed = false }

-- A decoder that answers with an edge from A to B, whatever it is given.
abbrev pub json : Unmarshal
json = record {
  person = λ _. none;
  relationship = λ _. some (record {
    new_id = "s";
    from = "A";
    to = "B";
    type = parent_child;
    certainty = 3;
    continuity = new_continuous;
    time_range = no_range;
    notes = "";
    sources = [];
  });
  source = λ _. none;
}
