-- ===== src/Store/Badger/Codec.antt =====
-- store/badger/codec.go: entities to and from their wire types.

pub mod Entities
pub mod Proposals
pub mod RoundTrip
use linea_core.Prelude.{
  ℕ, String, Bool, false, not, List, [], ◌∷◌, ◌++◌, map, Option, none, some, ◌==◌, nat_Eq,
  string_Eq, ltb, if◌then◌else◌,
}
use linea_core.Prelude.Int.{ℤ, pos, negsuc, int_Eq}
use linea_core.Errors.{Result, ok, err, plain, annotated, ◌>>=◌, ◌>>◌, refuse_if}
use linea_core.Model.Ids.{EntityId, parse_id}
use linea_core.Model.Name.{Name, new_name}
use linea_core.Model.TimeRange.{
  TimeRange, YearBound, unknown_year, known_year_bound, no_range, new_time_range, is_zero,
}
use linea_core.Model.Person.{Person, new_person, new_unknown_ancestor}
use linea_core.Model.Continuity.{
  Continuity, GapGenerations, continuous, gapped, unknown_gap, known_gap, new_continuous,
  new_gapped, is_gapped,
}
use linea_core.Model.Relationship.{Relationship, new_relationship}
use linea_core.Model.Source.{Source, new_source}
use linea_core.Model.Proposal.{Proposal, ProposalTransition, new_proposal, with_state}
use linea_core.Store.Badger.Wire.{
  NameWire, TimeRangeWire, PersonWire, ContinuityWire, RelationshipWire, SourceWire,
  ProposalTransWire, ProposalWire, Json,
}
use linea_core.Store.Badger.Fields.{
  annotate, parse_all, encode_time_range, decode_time_range, encode_range, decode_range,
  encode_name, decode_name, safe_uint8, encode_transition, decode_optional_id, replay, force_state,
  encode_continuity, decode_continuity,
}

-- What encodePerson hands to json.Marshal.
unfoldable pub person_wire : Person → PersonWire
unfolding encode_name encode_range
person_wire p = record {
  id = p.id;
  names = map encode_name p.names;
  gender = p.gender;
  birth = encode_range p.birth;
  death = encode_range p.death;
  notes = p.notes;
  unknown = p.unknown;
}

-- What decodePerson makes of the wire, once the id is parsed.
unfoldable pub person_of : PersonWire → EntityId → Result Person
person_of w id = if w.unknown then new_unknown_ancestor id else (do
  names ← parse_all decode_name w.names
  new_person id (record {
    names = names;
    gender = w.gender;
    birth = decode_range w.birth;
    death = decode_range w.death;
    notes = w.notes;
  }))

unfoldable pub read_person : PersonWire → Result Person
unfolding person_of decode_name decode_range
read_person w = do id ← annotate (parse_id w.id); person_of w id

unfoldable pub relationship_wire : Relationship → RelationshipWire
unfolding encode_continuity encode_range
relationship_wire r = record {
  id = r.id;
  from = r.from;
  to = r.to;
  type = pos r.rel_type;
  certainty = pos r.certainty;
  continuity = encode_continuity r.continuity;
  time_range = encode_range r.time_range;
  notes = r.notes;
  sources = r.sources;
}

unfoldable pub read_relationship : RelationshipWire → Result Relationship
unfolding decode_continuity decode_range safe_uint8
read_relationship w = do
  id ← parse_id w.id
  from ← parse_id w.from
  to ← parse_id w.to
  cont ← decode_continuity w.continuity
  sources ← parse_all parse_id w.sources
  rel_type ← annotate (safe_uint8 w.type)
  certainty ← annotate (safe_uint8 w.certainty)
  new_relationship id from to rel_type certainty cont
      (record { time_range = decode_range w.time_range; notes = w.notes; sources = sources })

unfoldable pub source_wire : Source → SourceWire
source_wire s = record {
  id = s.id;
  type = s.src_type;
  citation = s.citation;
  author = s.author;
  title = s.title;
  date = s.date;
  locator = s.locator;
  notes = s.notes;
}

unfoldable pub read_source : SourceWire → Result Source
read_source w = do
  id ← parse_id w.id
  new_source id w.type w.citation (record {
    author = w.author;
    title = w.title;
    date = w.date;
    locator = w.locator;
    notes = w.notes;
  })

unfoldable pub proposal_wire : Proposal → ProposalWire
unfolding encode_transition
proposal_wire p = record {
  id = p.id;
  state = pos p.state;
  action = pos p.action;
  entity_kind = pos p.entity_kind;
  target_id = p.target_id;
  secondary_id = p.secondary_id;
  payload = p.payload;
  reason = p.reason;
  sources = p.sources;
  author = p.author;
  created_at = p.created_at;
  history = map encode_transition p.history;
}

-- What decodeProposal makes of the wire before the history is replayed.
unfoldable pub fresh_proposal : ProposalWire → Result Proposal
unfolding decode_optional_id safe_uint8
fresh_proposal w = do
  id ← parse_id w.id
  target_id ← decode_optional_id w.target_id
  secondary_id ← decode_optional_id w.secondary_id
  sources ← parse_all parse_id w.sources
  action ← annotate (safe_uint8 w.action)
  entity_kind ← annotate (safe_uint8 w.entity_kind)
  new_proposal id action entity_kind (record {
    target_id = target_id;
    secondary_id = secondary_id;
    payload = w.payload;
    reason = w.reason;
    sources = sources;
    author = w.author;
    created_at = w.created_at;
  })

unfoldable pub read_proposal : ProposalWire → Result Proposal
unfolding fresh_proposal replay force_state
read_proposal w = do
  fresh ← fresh_proposal w
  replayed ← replay fresh w.history
  force_state replayed w.state

module _ {Bytes : Type 0} where
  unfoldable pub encode_person : Json Bytes PersonWire → Person → Result Bytes
  unfolding person_wire
  encode_person j p = j.marshal (person_wire p)

  unfoldable pub decode_person : Json Bytes PersonWire → Bytes → Result Person
  unfolding read_person
  decode_person j buf = do w ← annotate (j.unmarshal buf); read_person w

  unfoldable pub encode_relationship : Json Bytes RelationshipWire → Relationship → Result Bytes
  unfolding relationship_wire
  encode_relationship j r = j.marshal (relationship_wire r)

  unfoldable pub decode_relationship : Json Bytes RelationshipWire → Bytes → Result Relationship
  unfolding read_relationship
  decode_relationship j buf = do w ← annotate (j.unmarshal buf); read_relationship w

  unfoldable pub encode_source : Json Bytes SourceWire → Source → Result Bytes
  unfolding source_wire
  encode_source j s = j.marshal (source_wire s)

  unfoldable pub decode_source : Json Bytes SourceWire → Bytes → Result Source
  unfolding read_source
  decode_source j buf = do w ← annotate (j.unmarshal buf); read_source w

  unfoldable pub encode_proposal : Json Bytes ProposalWire → Proposal → Result Bytes
  unfolding proposal_wire
  encode_proposal j p = j.marshal (proposal_wire p)

  unfoldable pub decode_proposal : Json Bytes ProposalWire → Bytes → Result Proposal
  unfolding read_proposal
  decode_proposal j buf = do w ← annotate (j.unmarshal buf); read_proposal w
