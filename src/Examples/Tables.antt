-- ===== src/Examples/Tables.antt =====
-- Entities that the constructors make, and a small database of store/badger.
use linea_core.Prelude.{arith, lookup, ◌≡◌, refl, [], true, none, some, inl, nat_Eq, string_Eq}
use linea_core.Prelude.Int.{pos}
use linea_core.Prelude.Text.{trim_space}
use linea_core.Errors.{ok}
use linea_core.Model.Ids.{EntityId, parse_id}
use linea_core.Model.Name.{new_name}
use linea_core.Model.Person.{new_person}
use linea_core.Model.Continuity.{new_continuous}
use linea_core.Model.TimeRange.{no_range, is_zero}
use linea_core.Model.Relationship.{parent_child, new_relationship}
use linea_core.Model.Source.{new_source}
use linea_core.Model.Proposal.{
  Proposal, ProposalTransition, draft, submitted, create, relationship_kind, new_proposal,
  with_state,
}
use linea_core.Model.Made.{IsId, IsPerson, IsRelationship, IsSource, IsProposal}
use linea_core.Store.Contents.{Contents}
use linea_core.Store.Contents
use linea_core.Store.Badger.Keys.{person_key}
use linea_core.Store.Badger.Keys.Laws.{kind-meta}
use linea_core.Store.Badger.Represents.Writes.{entities_kept, person_written}
use linea_core.Store.Badger.Codec.{person_wire, decode_person}
use linea_core.Store.Badger.ReadTx.{ReadTx}
use linea_core.Store.Badger.Represents.{Represents}
use linea_core.Examples.{person, edge, source, proposal}
use linea_core.Examples.Database.{Doc, Table, encoding, put, put-get, txn, txn-IsKeyed}

pub IsId-A : IsId "A"
unfolding parse_id trim_space
IsId-A = ("A", refl)

pub IsId-A1 : IsId "A1"
unfolding parse_id trim_space
IsId-A1 = ("A1", refl)

pub IsId-r : IsId "r"
unfolding parse_id trim_space
IsId-r = ("r", refl)

pub made_A : IsPerson (person "A")
unfolding new_name new_person trim_space is_zero
made_A =
    IsPerson.known "A"
      (record {
        names = (person "A").names;
        gender = "";
        birth = no_range;
        death = no_range;
        notes = "";
      })
      IsId-A (("A", "", "", "full", true, refl), tt) (inl refl) (inl refl) refl

pub made_r : IsRelationship (edge "r" "A1" "A")
unfolding new_relationship
made_r = record {
  id = "r";
  from = "A1";
  to = "A";
  type = parent_child;
  certainty = 3;
  continuity = new_continuous;
  opts = record { time_range = no_range; notes = ""; sources = [] };
  ids = (IsId-r, IsId-A1, IsId-A, tt);
  parts = (inl refl, inl refl);
  made = refl;
}

pub made_source : IsSource (source "r")
unfolding new_source trim_space
made_source = (
  "r",
  "oral",
  "told",
  record { author = ""; title = ""; date = ""; locator = ""; notes = "" },
  IsId-r,
  refl,
)

abbrev pub submission : ProposalTransition
submission = record { from = draft; to = submitted; actor = "X"; timestamp = pos 5; reason = "" }

abbrev pub drafted : Proposal
drafted = proposal "r" draft create relationship_kind

pub made_proposal : IsProposal (with_state drafted submitted submission)
unfolding new_proposal
made_proposal =
    IsProposal.moved submission
      (IsProposal.fresh "r" create relationship_kind
        (record {
          target_id = "";
          secondary_id = "";
          payload = [];
          reason = "";
          sources = [];
          author = "X";
          created_at = pos 0;
        })
        IsId-r (inl refl) (inl refl) tt refl)
      (omega arith) (omega arith)

-- A database with the persons A and A1, at version 3.
abbrev pub blank : Table
blank = record { rows = []; distinct = tt }

abbrev pub versioned : Table
versioned = put blank "m/v" (Doc.number 3)

abbrev pub table : Table
table =
    put (put versioned "p/A" (Doc.person (person_wire (person "A")))) "p/A1"
      (Doc.person (person_wire (person "A1")))

abbrev pub opened : Table → ReadTx txn
opened t = record { tx = t; version = 3 }

abbrev pub nobody : Contents
nobody = record {
  persons = λ _. none;
  relationships = λ _. none;
  sources = λ _. none;
  proposals = λ _. none;
}

abbrev pub with_person : EntityId → Contents → Contents
with_person id c = record c { persons = Contents.update c.persons id (some (person id)) }

abbrev pub two : Contents
two = with_person "A1" (with_person "A" nobody)

blank-Represents : Represents encoding txn (opened blank) nobody
unfolding lookup
blank-Represents = record {
  persons = λ i. refl;
  relationships = λ i. refl;
  sources = λ i. refl;
  proposals = λ i. refl;
}

versioned-Represents : Represents encoding txn (opened versioned) nobody
versioned-Represents =
    entities_kept encoding txn txn-IsKeyed nobody "m/v" (omega (arith, kind-meta))
      (record { at = put-get blank "m/v" (Doc.number 3) }) blank-Represents

person_added :
    (t : Table) (c : Contents) (id : EntityId)
    → Represents encoding txn (opened t) c
    → decode_person encoding.person (Doc.person (person_wire (person id))) ≡ ok (person id)
    → Represents encoding txn
        (opened (put t (person_key id) (Doc.person (person_wire (person id)))))
        (with_person id c)
person_added t c id r d =
    person_written encoding txn txn-IsKeyed c id (some (person id))
      (record { at = put-get t (person_key id) (Doc.person (person_wire (person id))) })
      (Doc.person (person_wire (person id)), refl, d) r

decoded_A : decode_person encoding.person (Doc.person (person_wire (person "A"))) ≡ ok (person "A")
unfolding decode_person parse_id trim_space person_wire new_name new_person is_zero
decoded_A = refl

decoded_A1 :
    decode_person encoding.person (Doc.person (person_wire (person "A1"))) ≡ ok (person "A1")
unfolding decode_person parse_id trim_space person_wire new_name new_person is_zero
decoded_A1 = refl

pub table-Represents : Represents encoding txn (opened table) two
table-Represents =
    person_added (put versioned "p/A" (Doc.person (person_wire (person "A"))))
      (with_person "A" nobody) "A1"
      (person_added versioned nobody "A" versioned-Represents decoded_A) decoded_A1
