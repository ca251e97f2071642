-- ===== src/Store/Badger/Codec/RoundTrip.antt =====
-- Entities through store/badger/codec.go and back.
use linea_core.Prelude.{◌≡◌, String, Bool, List, string_Eq, nat_Eq}
use linea_core.Prelude.Int.{int_Eq}
use linea_core.Errors.{Result, ok, ◌>>=◌}
use linea_core.Model.Person.{Person}
use linea_core.Model.Relationship.{Relationship}
use linea_core.Model.Source.{Source}
use linea_core.Model.Proposal.{Proposal}
use linea_core.Model.Made.{IsPerson, IsRelationship, IsSource, IsProposal}
use linea_core.Store.Badger.Wire.{
  Json, IsInverse, IsUtf8, person_texts, relationship_texts, source_texts, proposal_texts,
  PersonWire, RelationshipWire, SourceWire, ProposalWire,
}
use linea_core.Store.Badger.Fields.{annotate}
use linea_core.Store.Badger.Codec.{
  person_wire, read_person, relationship_wire, read_relationship, source_wire, read_source,
  proposal_wire, read_proposal, encode_person, decode_person, encode_relationship,
  decode_relationship, encode_source, decode_source, encode_proposal, decode_proposal,
}
use linea_core.Store.Badger.Codec.Proposals.{read_proposal-proposal_wire}
use linea_core.Store.Badger.Codec.Entities.{
  read_person-person_wire, read_relationship-relationship_wire, read_source-source_wire,
}

module _ {Bytes W : Type 0} {valid : String → Bool} {texts : W → List String} {j : Json Bytes W}
    (d : IsInverse valid texts j) where
  -- What is read of the bytes of a wire is what is read of the wire.
  reread :
      {A : Type 0} (w : W) (read : W → Result A) (a : A)
      → IsUtf8 valid (texts w)
      → read w ≡ ok a
      → (annotate (j.unmarshal (d.written w)) >>= read) ≡ ok a
  reread w read a u h = rw (d.unmarshals w u) h

module _ {Bytes : Type 0} (valid : String → Bool) where
  -- The bytes that encodePerson writes for a person that the constructors of model made, with an id
  -- of ParseID and with texts that are valid UTF-8, are read by decodePerson as that person.
  pub decode_person-encode_person :
      (j : Json Bytes PersonWire)
      → IsInverse valid person_texts j
      → (p : Person) → IsPerson p
      → IsUtf8 valid (person_texts (person_wire p))
      → (buf : Bytes) × (encode_person j p ≡ ok buf) × (decode_person j buf ≡ ok p)
  unfolding encode_person decode_person
  decode_person-encode_person j d p m u = (
    d.written (person_wire p),
    d.marshals (person_wire p),
    reread d (person_wire p) read_person p u (read_person-person_wire p m),
  )

  -- The bytes that encodeRelationship writes for a relationship that the constructors of model made,
  -- with ids of ParseID and with texts that are valid UTF-8, are read by decodeRelationship as that
  -- relationship.
  pub decode_relationship-encode_relationship :
      (j : Json Bytes RelationshipWire)
      → IsInverse valid relationship_texts j
      → (r : Relationship) → IsRelationship r
      → IsUtf8 valid (relationship_texts (relationship_wire r))
      → (buf : Bytes) × (encode_relationship j r ≡ ok buf) × (decode_relationship j buf ≡ ok r)
  unfolding encode_relationship decode_relationship
  decode_relationship-encode_relationship j d r m u = (
    d.written (relationship_wire r),
    d.marshals (relationship_wire r),
    reread d (relationship_wire r) read_relationship r u (read_relationship-relationship_wire r m),
  )

  -- The bytes that encodeSource writes for a source that NewSource made, with an id of ParseID and
  -- with texts that are valid UTF-8, are read by decodeSource as that source.
  pub decode_source-encode_source :
      (j : Json Bytes SourceWire)
      → IsInverse valid source_texts j
      → (s : Source) → IsSource s
      → IsUtf8 valid (source_texts (source_wire s))
      → (buf : Bytes) × (encode_source j s ≡ ok buf) × (decode_source j buf ≡ ok s)
  unfolding encode_source decode_source
  decode_source-encode_source j d s m u = (
    d.written (source_wire s),
    d.marshals (source_wire s),
    reread d (source_wire s) read_source s u (read_source-source_wire s m),
  )

  -- The bytes that encodeProposal writes for a proposal that NewProposal made, with ids of ParseID,
  -- and that was moved on any number of times, each time to the state that its new entry names, are
  -- read by decodeProposal as that proposal, its history included, if its texts are valid UTF-8.
  pub decode_proposal-encode_proposal :
      (j : Json Bytes ProposalWire)
      → IsInverse valid proposal_texts j
      → (p : Proposal) → IsProposal p
      → IsUtf8 valid (proposal_texts (proposal_wire p))
      → (buf : Bytes) × (encode_proposal j p ≡ ok buf) × (decode_proposal j buf ≡ ok p)
  unfolding encode_proposal decode_proposal
  decode_proposal-encode_proposal j d p m u = (
    d.written (proposal_wire p),
    d.marshals (proposal_wire p),
    reread d (proposal_wire p) read_proposal p u (read_proposal-proposal_wire p m),
  )
