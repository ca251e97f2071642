-- ===== src/Store/Badger/Codec/Entities.antt =====
-- Persons, relationships and sources on the wire of store/badger/codec.go.
use text.Mathlib.TextEquality.{eq_iff}
use linea_core.Prelude.{
  ◌≡◌, ◌≤◌, refl, ap, ◌∙◌, true, false, [], arith, inl, inr, string_Eq, nat_Eq, All, String, ◌==◌,
  if◌then◌else◌, Bool-cases,
}
use linea_core.Prelude.Int.{int_Eq}
use linea_core.Errors.{ok}
use linea_core.Errors.Ensures.{Ensures, ensures_rules}
use linea_core.Model.TimeRange.{no_range}
use linea_core.Model.Ids.{EntityId}
use linea_core.Model.Person.{Person, PersonOptions, new_person, new_unknown_ancestor}
use linea_core.Model.Relationship.{
  Relationship, RelationshipType, RelationshipOptions, new_relationship, is_valid,
}
use linea_core.Model.Relationship.Validity.{built}
use linea_core.Model.Certainty
use linea_core.Model.Certainty.{Certainty}
use linea_core.Model.Continuity.{Continuity}
use linea_core.Model.Source.{Source, SourceType, SourceOptions, other, new_source}
use linea_core.Model.Made.{IsId, IsName, IsRange, IsPerson, IsRelationship, IsSource}
use linea_core.Store.Badger.Fields.{encode_name, decode_name}
use linea_core.Store.Badger.Fields.Laws.{
  parse_id-IsId, decode_name-encode_name, safe_uint8-pos, parse_all-All, parse_all-IsId,
  decode_range-encode_range, decode_continuity-encode_continuity,
}
use linea_core.Store.Badger.Codec.{
  person_wire, person_of, read_person, relationship_wire, read_relationship, source_wire,
  read_source,
}

person_built : EntityId → PersonOptions → Person
person_built id opts = record {
  id = id;
  names = opts.names;
  gender = opts.gender;
  birth = opts.birth;
  death = opts.death;
  notes = opts.notes;
  unknown = false;
}

new_person-built :
    (id : EntityId) (opts : PersonOptions)
    → Ensures (λ p. p ≡ person_built id opts) (new_person id opts)
unfolding new_person person_built
new_person-built id opts = search (ensures_rules) depth 12

unknown_built : EntityId → Person
unknown_built id = record {
  id = id;
  names = [];
  gender = "";
  birth = no_range;
  death = no_range;
  notes = "";
  unknown = true;
}

new_unknown_ancestor-built :
    (id : EntityId) → Ensures (λ p. p ≡ unknown_built id) (new_unknown_ancestor id)
unfolding new_unknown_ancestor unknown_built
new_unknown_ancestor-built id = search (ensures_rules) depth 12

-- The wire of a person that NewPerson made gives that person.
read_person-built :
    (id : EntityId) (opts : PersonOptions)
    → IsId id
    → All IsName opts.names
    → IsRange opts.birth
    → IsRange opts.death
    → read_person (person_wire (person_built id opts)) ≡ new_person id opts
unfolding read_person person_wire person_of person_built
read_person-built id opts i ns b d =
    rw
      (
        parse_id-IsId id i,
        parse_all-All decode_name encode_name IsName decode_name-encode_name opts.names ns,
        decode_range-encode_range opts.birth b,
        decode_range-encode_range opts.death d,
      )
      refl

read_person-unknown :
    (id : EntityId)
    → IsId id
    → read_person (person_wire (unknown_built id)) ≡ new_unknown_ancestor id
unfolding read_person person_wire person_of unknown_built
read_person-unknown id i = rw (parse_id-IsId id i) refl

pub read_person-person_wire : (p : Person) → IsPerson p → read_person (person_wire p) ≡ ok p
read_person-person_wire p (IsPerson.unknown id i h) =
    ap (λ q. read_person (person_wire q)) ((new_unknown_ancestor-built id).at p h)
    ∙ read_person-unknown id i
    ∙ h
read_person-person_wire p (IsPerson.known id opts i ns b d h) =
    ap (λ q. read_person (person_wire q)) ((new_person-built id opts).at p h)
    ∙ read_person-built id opts i ns b d
    ∙ h

new_relationship-built :
    (id from to : EntityId) (t : RelationshipType) (c : Certainty) (k : Continuity)
    (opts : RelationshipOptions)
    → Ensures
        (λ r. (r ≡ built id from to t c k opts) × (t ≤ 255) × (c ≤ 255))
        (new_relationship id from to t c k opts)
unfolding new_relationship is_valid Certainty.is_valid
new_relationship-built id from to t c k opts = record { at = λ r h. ground arith }

read_relationship-built :
    (r : Relationship) (m : IsRelationship r)
    → m.type ≤ 255
    → m.certainty ≤ 255
    → read_relationship
        (relationship_wire (built m.id m.from m.to m.type m.certainty m.continuity m.opts))
      ≡ new_relationship m.id m.from m.to m.type m.certainty m.continuity m.opts
unfolding read_relationship relationship_wire
read_relationship-built r m t c =
    let (i, f, u, ss) = m.ids in
    rw
      (
        parse_id-IsId m.id i,
        parse_id-IsId m.from f,
        parse_id-IsId m.to u,
        decode_continuity-encode_continuity m.continuity m.parts.0,
        parse_all-IsId m.opts.sources ss,
        safe_uint8-pos m.type t,
        safe_uint8-pos m.certainty c,
        decode_range-encode_range m.opts.time_range m.parts.1,
      )
      refl

pub read_relationship-relationship_wire :
    (r : Relationship) → IsRelationship r → read_relationship (relationship_wire r) ≡ ok r
read_relationship-relationship_wire r m =
    let (same, t, c) =
      (new_relationship-built m.id m.from m.to m.type m.certainty m.continuity m.opts).at r
        m.made in
    ap (λ q. read_relationship (relationship_wire q)) same
    ∙ read_relationship-built r m t c
    ∙ m.made

source_built : EntityId → SourceType → String → SourceOptions → Source
source_built id t citation opts = record {
  id = id;
  src_type = if t == "" then other else t;
  citation = citation;
  author = opts.author;
  title = opts.title;
  date = opts.date;
  locator = opts.locator;
  notes = opts.notes;
}

new_source-built :
    (id : EntityId) (t : SourceType) (citation : String) (opts : SourceOptions)
    → Ensures (λ s. s ≡ source_built id t citation opts) (new_source id t citation opts)
unfolding new_source source_built
new_source-built id t citation opts = search (ensures_rules) depth 12

kept_type : (t : SourceType) → (t == "") ≡ false → (if t == "" then other else t) ≡ t
kept_type t b = rw b refl

-- The type of a source that NewSource made is kept as it is.
new_source-other :
    (id : EntityId) (t : SourceType) (citation : String) (opts : SourceOptions)
    → new_source id (if t == "" then other else t) citation opts ≡ new_source id t citation opts
unfolding new_source
new_source-other id t citation opts = elim (Bool-cases (t == "")) [
  | inl b ↦ rw ((eq_iff t "").0 b) refl
  | inr b ↦ ap (λ u. new_source id u citation opts) (kept_type t b)
]

read_source-built :
    (id : EntityId) (t : SourceType) (citation : String) (opts : SourceOptions)
    → IsId id
    → read_source (source_wire (source_built id t citation opts)) ≡ new_source id t citation opts
unfolding read_source source_wire source_built
read_source-built id t citation opts i =
    rw (parse_id-IsId id i) (new_source-other id t citation opts)

pub read_source-source_wire : (s : Source) → IsSource s → read_source (source_wire s) ≡ ok s
read_source-source_wire s (id, t, citation, opts, i, h) =
    ap (λ q. read_source (source_wire q)) ((new_source-built id t citation opts).at s h)
    ∙ read_source-built id t citation opts i
    ∙ h
