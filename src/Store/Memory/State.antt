-- ===== src/Store/Memory/State.antt =====
-- `state` of store/memory/memory.go, and store/memory/readtx.go.
use linea_core.Prelude.{
  Bool, ◌&&◌, ◌||◌, List, [], Option, none, some, ◌==◌, nat_Eq, string_Eq, Map, lookup, values,
  keep,
}
use linea_core.Errors.{
  Result, ok, err, new, Code, person_not_found, relationship_not_found, source_not_found,
  proposal_not_found,
}
use linea_core.Model.Ids.{EntityId}
use linea_core.Model.Person.{Person}
use linea_core.Model.Relationship.{Relationship, parent_child, marriage}
use linea_core.Model.Source.{Source}
use linea_core.Model.Proposal.{Proposal}
use linea_core.Store.Port.{Version, Scan}

pub record State : Type 0 where
  pub version : Version
  pub persons : Map EntityId Person
  pub relationships : Map EntityId Relationship
  pub sources : Map EntityId Source
  pub proposals : Map EntityId Proposal

abbrev pub empty_state : State
empty_state = record { version = 0; persons = []; relationships = []; sources = []; proposals = [] }

-- v, ok := m[id]; the value, or the error with the given code.
unfoldable pub found : {V : Type 0} → Code → Option V → Result V
found c none = err (new c)
found c (some v) = ok v

-- A readTx is its snapshot: the flag that Close sets is never read.
unfoldable pub get_person : State → EntityId → Result Person
unfolding found
get_person s id = found person_not_found (lookup id s.persons)

unfoldable pub get_relationship : State → EntityId → Result Relationship
unfolding found
get_relationship s id = found relationship_not_found (lookup id s.relationships)

unfoldable pub get_source : State → EntityId → Result Source
unfolding found
get_source s id = found source_not_found (lookup id s.sources)

unfoldable pub get_proposal : State → EntityId → Result Proposal
unfolding found
get_proposal s id = found proposal_not_found (lookup id s.proposals)

-- The iterators return no error of their own.
abbrev all_of : {A : Type 0} → List A → Scan A
all_of items = record { items = items; failure = none }

abbrev pub is_child_edge : EntityId → Relationship → Bool
is_child_edge parent rel = rel.rel_type == parent_child && rel.from == parent

abbrev pub is_parent_edge : EntityId → Relationship → Bool
is_parent_edge child rel = rel.rel_type == parent_child && rel.to == child

abbrev pub is_marriage_of : EntityId → Relationship → Bool
is_marriage_of person rel = rel.rel_type == marriage && (rel.from == person || rel.to == person)

unfoldable pub iterate_children : State → EntityId → Scan Relationship
iterate_children s parent = all_of (keep (is_child_edge parent) (values s.relationships))

unfoldable pub iterate_parents : State → EntityId → Scan Relationship
iterate_parents s child = all_of (keep (is_parent_edge child) (values s.relationships))

unfoldable pub iterate_marriages : State → EntityId → Scan Relationship
iterate_marriages s person = all_of (keep (is_marriage_of person) (values s.relationships))

unfoldable pub iterate_persons : State → Scan Person
iterate_persons s = all_of (values s.persons)

unfoldable pub iterate_relationships : State → Scan Relationship
iterate_relationships s = all_of (values s.relationships)

unfoldable pub iterate_sources : State → Scan Source
iterate_sources s = all_of (values s.sources)

unfoldable pub iterate_proposals : State → Scan Proposal
iterate_proposals s = all_of (values s.proposals)
