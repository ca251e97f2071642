-- ===== src/Examples/Persistence.antt =====
-- store/badger on a small database.
use linea_core.Prelude.{◌≡◌, refl, String, Bool, List, [], ◌∷◌, some, nat_Eq, string_Eq}
use linea_core.Errors.{Result, ok}
use linea_core.Model.Ids.{EntityId}
use linea_core.Model.Person.{Person}
use linea_core.Model.Relationship.{Relationship}
use linea_core.Model.Source.{Source}
use linea_core.Model.Proposal.{Proposal, submitted, with_state}
use linea_core.Model.Made.{IsPerson, IsRelationship, IsSource, IsProposal}
use linea_core.Store.Contents.{Contents}
use linea_core.Store.Contents
use linea_core.Store.Badger.Wire.{
  IsUtf8, person_texts, relationship_texts, source_texts, proposal_texts,
}
use linea_core.Store.Badger.{update}
use linea_core.Store.Badger.Codec.{
  person_wire, relationship_wire, source_wire, proposal_wire, encode_person, decode_person,
  encode_relationship, decode_relationship, encode_source, decode_source, encode_proposal,
  decode_proposal,
}
use linea_core.Store.Badger.Codec.RoundTrip.{
  decode_person-encode_person, decode_relationship-encode_relationship, decode_source-encode_source,
  decode_proposal-encode_proposal,
}
use linea_core.Store.Badger.ReadTx.{ReadTx}
use linea_core.Store.Badger.WriteTx
use linea_core.Store.Badger.Represents.Calls.{Implements}
use linea_core.Store.Badger.Represents.Mutators.{mutators-Implements}
use linea_core.Examples.{person, edge, source}
use linea_core.Examples.Database.{Doc, encoding, encoding-IsFaithful, put, txn, txn-IsKeyed}
use linea_core.Examples.Tables.{
  made_A, made_r, made_source, made_proposal, submission, drafted, table, opened, two,
  table-Represents,
}

abbrev Texts : List String → Type 0
Texts texts = IsUtf8 encoding.valid_string texts

every_text : (texts : List String) → Texts texts
every_text [] = tt
every_text (t ∷ texts) = (refl, every_text texts)

A_text : Texts (person_texts (person_wire (person "A")))
A_text = every_text (person_texts (person_wire (person "A")))

r_text : Texts (relationship_texts (relationship_wire (edge "r" "A1" "A")))
r_text = every_text (relationship_texts (relationship_wire (edge "r" "A1" "A")))

source_text : Texts (source_texts (source_wire (source "r")))
source_text = every_text (source_texts (source_wire (source "r")))

proposal_text : Texts (proposal_texts (proposal_wire (with_state drafted submitted submission)))
proposal_text =
    every_text (proposal_texts (proposal_wire (with_state drafted submitted submission)))

decode_person-encode_person_example :
    (buf : Doc) × (encode_person encoding.person (person "A") ≡ ok buf)
    × (decode_person encoding.person buf ≡ ok (person "A"))
decode_person-encode_person_example =
    decode_person-encode_person encoding.valid_string encoding.person encoding-IsFaithful.person
      (person "A") made_A A_text

decode_relationship-encode_relationship_example :
    (buf : Doc) × (encode_relationship encoding.relationship (edge "r" "A1" "A") ≡ ok buf)
    × (decode_relationship encoding.relationship buf ≡ ok (edge "r" "A1" "A"))
decode_relationship-encode_relationship_example =
    decode_relationship-encode_relationship encoding.valid_string encoding.relationship
      encoding-IsFaithful.relationship (edge "r" "A1" "A") made_r r_text

decode_source-encode_source_example :
    (buf : Doc) × (encode_source encoding.source (source "r") ≡ ok buf)
    × (decode_source encoding.source buf ≡ ok (source "r"))
decode_source-encode_source_example =
    decode_source-encode_source encoding.valid_string encoding.source encoding-IsFaithful.source
      (source "r") made_source source_text

decode_proposal-encode_proposal_example :
    (buf : Doc) × (encode_proposal encoding.proposal (with_state drafted submitted submission)
      ≡ ok buf)
    × (decode_proposal encoding.proposal buf ≡ ok (with_state drafted submitted submission))
decode_proposal-encode_proposal_example =
    decode_proposal-encode_proposal encoding.valid_string encoding.proposal
      encoding-IsFaithful.proposal (with_state drafted submitted submission) made_proposal
      proposal_text

abbrev Does : Result Contents → Result (ReadTx txn) → Type 0
Does = Implements encoding txn

mutators-Implements_example :
    ((p : Person)
      → IsPerson p
      → Texts (person_texts (person_wire p))
      → Does (Contents.put_person two p) (WriteTx.put_person encoding txn (opened table) p))
    × ((id : EntityId)
        → Does
            (Contents.delete_person two id)
            (WriteTx.delete_person encoding txn (opened table) id))
    × ((rel : Relationship)
        → IsRelationship rel
        → Texts (relationship_texts (relationship_wire rel))
        → Does
            (Contents.put_relationship two rel)
            (WriteTx.put_relationship encoding txn (opened table) rel))
    × ((id : EntityId)
        → Does
            (Contents.delete_relationship two id)
            (WriteTx.delete_relationship encoding txn (opened table) id))
    × ((s : Source)
        → IsSource s
        → Texts (source_texts (source_wire s))
        → Does (Contents.put_source two s) (WriteTx.put_source encoding txn (opened table) s))
    × ((id : EntityId)
        → Does
            (Contents.delete_source two id)
            (WriteTx.delete_source encoding txn (opened table) id))
    × ((p : Proposal)
        → IsProposal p
        → Texts (proposal_texts (proposal_wire p))
        → (now_refused : Bool) × Does
            (Contents.put_proposal two now_refused p)
            (WriteTx.put_proposal encoding txn (opened table) p)
          × Contents.RefusesStateChanges (two.proposals p.id) p now_refused)
mutators-Implements_example =
    mutators-Implements encoding txn encoding-IsFaithful txn-IsKeyed (opened table) two
      table-Represents

abbrev with_edge : Contents
with_edge = record two {
  relationships = Contents.update two.relationships "r" (some (edge "r" "A1" "A"));
}

abbrev stored_edge : Result (ReadTx txn)
stored_edge = WriteTx.put_relationship encoding txn (opened table) (edge "r" "A1" "A")

abbrev adding : ReadTx txn → Result (String × ReadTx txn)
adding w = ok ("done", record w { tx = put w.tx "s/r" (Doc.source (source_wire (source "r"))) })
