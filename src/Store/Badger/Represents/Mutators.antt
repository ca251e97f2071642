-- ===== src/Store/Badger/Represents/Mutators.antt =====
-- store/badger/writetx.go does what store/store.go promises.
use linea_core.Prelude.{
  ◌≡◌, refl, ap, ◌∙◌, Bool, not, Option, none, some, string_Eq, nat_Eq, List, String, Option-cases,
  inl, inr,
}
use linea_core.Errors.{
  new, person_not_found, relationship_not_found, source_not_found, proposal_not_found, ◌>>=◌,
}
use linea_core.Model.Ids.{EntityId, is_zero}
use linea_core.Model.Person.{Person}
use linea_core.Model.Relationship.{Relationship}
use linea_core.Model.Source.{Source}
use linea_core.Model.Proposal.{Proposal}
use linea_core.Model.Made.{IsPerson, IsRelationship, IsSource, IsProposal}
use linea_core.Store.Contents.{Contents, require}
use linea_core.Store.Contents
use linea_core.Store.Memory.State.{found}
use linea_core.Store.Memory.WriteTx.{is_frozen}
use linea_core.Store.Memory.Refines.{is_frozen-RefusesStateChanges}
use linea_core.Store.Badger.Wire.{
  Encoding, IsFaithful, IsUtf8, person_texts, relationship_texts, source_texts, proposal_texts,
}
use linea_core.Store.Badger.Codec.{
  encode_relationship, decode_person, decode_source, person_wire, relationship_wire, source_wire,
  proposal_wire,
}
use linea_core.Store.Badger.Codec.RoundTrip.{
  decode_person-encode_person, decode_relationship-encode_relationship, decode_source-encode_source,
  decode_proposal-encode_proposal,
}
use linea_core.Store.Badger.Keys.{person_key, rel_key, source_key, proposal_key}
use linea_core.Store.Badger.Txn.{Txn, IsKeyed}
use linea_core.Store.Badger.ReadTx.{ReadTx}
use linea_core.Store.Badger.WriteTx.{
  set, delete, require_key, put_person, delete_person, require_person_exists, write_rel_indices,
  remove_rel_indices, drop_previous, put_relationship, delete_relationship, put_source,
  delete_source, put_proposal,
}
use linea_core.Store.Badger.WriteTx
use linea_core.Store.Badger.Represents.{Represents, getters-Represents}
use linea_core.Store.Badger.Represents.Writes.{
  Runs, Runs-bind, Runs-mono, set-Written, delete-Written, person_written, relationship_written,
  source_written, proposal_written,
}
use linea_core.Store.Badger.Represents.Calls.{
  Implements, fails, Runs-Implements, Holding, refused, require_key-Holds,
  write_rel_indices-Represents, remove_rel_indices-Represents, drop_previous-Represents,
}

module _ (C : Encoding) (T : Txn C.Bytes) (good : IsFaithful C) (law : IsKeyed T) where
  -- Texts that encoding/json writes as they are.
  abbrev pub IsText : List String → Type 0
  IsText texts = IsUtf8 C.valid_string texts

  module _ {w : ReadTx T} {c : Contents} (r : Represents C T w c) where
    put_person-Implements :
        (p : Person)
        → IsPerson p
        → IsText (person_texts (person_wire p))
        → Implements C T (Contents.put_person c p) (put_person C T w p)
    unfolding put_person
    put_person-Implements p m u =
        let (buf, e, d) = decode_person-encode_person C.valid_string C.person good.person p m u in
        refused C T (is_zero p.id) _ (
          Runs-Implements C T (
            rw e (
              Runs-mono (set-Written C T law w (person_key p.id) buf)
                λ x h. person_written C T law c p.id (some p) h (buf, refl, d) r)))

    delete_person-Implements :
        (id : EntityId) → Implements C T (Contents.delete_person c id) (delete_person C T w id)
    unfolding delete_person
    delete_person-Implements id =
        rw
          (require_key-Holds C T (decode_person C.person) (c.persons id) w (person_key id)
            person_not_found (r.persons id))
          (refused C T _ _ (
            Runs-Implements C T (
              Runs-mono (delete-Written C T law w (person_key id))
                λ x h. person_written C T law c id none h refl r)))

    put_source-Implements :
        (s : Source)
        → IsSource s
        → IsText (source_texts (source_wire s))
        → Implements C T (Contents.put_source c s) (put_source C T w s)
    unfolding put_source
    put_source-Implements s m u =
        let (buf, e, d) = decode_source-encode_source C.valid_string C.source good.source s m u in
        refused C T (is_zero s.id) _ (
          Runs-Implements C T (
            rw e (
              Runs-mono (set-Written C T law w (source_key s.id) buf)
                λ x h. source_written C T law c s.id (some s) h (buf, refl, d) r)))

    delete_source-Implements :
        (id : EntityId) → Implements C T (Contents.delete_source c id) (delete_source C T w id)
    unfolding delete_source
    delete_source-Implements id =
        rw
          (require_key-Holds C T (decode_source C.source) (c.sources id) w (source_key id)
            source_not_found (r.sources id))
          (refused C T _ _ (
            Runs-Implements C T (
              Runs-mono (delete-Written C T law w (source_key id))
                λ x h. source_written C T law c id none h refl r)))

    frozen :
        (o : Option Proposal) (p : Proposal)
        → WriteTx.is_frozen C T (found proposal_not_found o) p ≡ is_frozen o p
    unfolding found
    frozen none p = refl
    frozen (some q) p = refl

    -- A terminal proposal is looked for among the transaction's own writes too.
    put_proposal-Implements :
        (p : Proposal)
        → IsProposal p
        → IsText (proposal_texts (proposal_wire p))
        → Implements C T
            (Contents.put_proposal c (is_frozen (c.proposals p.id) p) p)
            (put_proposal C T w p)
    unfolding put_proposal
    put_proposal-Implements p m u =
        let (buf, e, d) =
          decode_proposal-encode_proposal C.valid_string C.proposal good.proposal p m u in
        let seen =
          ap (λ q. WriteTx.is_frozen C T q p) (getters-Represents C T w c r p.id).3
          ∙ frozen (c.proposals p.id) p in
        refused C T (is_zero p.id) _ (
          rw seen (
            refused C T _ _ (
              Runs-Implements C T (
                rw e (
                  Runs-mono (set-Written C T law w (proposal_key p.id) buf)
                    λ x h. proposal_written C T law c p.id (some p) h (buf, refl, d) r)))))

    -- What PutRelationship does once both persons are known to exist.
    relationship_stored :
        (rel : Relationship)
        → IsRelationship rel
        → IsText (relationship_texts (relationship_wire rel))
        → Runs T
            (Holding C T law
              (record c { relationships = Contents.update c.relationships rel.id (some rel) }))
            (do
              w' ← drop_previous C T w rel.id
              buf ← encode_relationship C.relationship rel
              w'' ← set C T w' (rel_key rel.id) buf
              write_rel_indices C T w'' rel)
    relationship_stored rel m u =
        let (buf, e, d) =
          decode_relationship-encode_relationship C.valid_string C.relationship good.relationship
            rel m u in
        rw e (
          Runs-bind _ (drop_previous-Represents C T law r rel.id) λ x rx.
            Runs-bind _ (set-Written C T law x (rel_key rel.id) buf) λ y h.
              write_rel_indices-Represents C T law
                (relationship_written C T law c rel.id (some rel) h (buf, refl, d) rx) rel)

    put_relationship-Implements :
        (rel : Relationship)
        → IsRelationship rel
        → IsText (relationship_texts (relationship_wire rel))
        → Implements C T (Contents.put_relationship c rel) (put_relationship C T w rel)
    unfolding put_relationship require_person_exists
    put_relationship-Implements rel m u = refused C T (is_zero rel.id) _ (
        rw
          (
            require_key-Holds C T (decode_person C.person) (c.persons rel.from) w
                (person_key rel.from) person_not_found (r.persons rel.from),
            require_key-Holds C T (decode_person C.person) (c.persons rel.to) w (person_key rel.to)
                person_not_found (r.persons rel.to),
          )
          (refused C T (not (Contents.is_some (c.persons rel.from))) _ (
            refused C T (not (Contents.is_some (c.persons rel.to))) _
              (Runs-Implements C T (relationship_stored rel m u)))))

    relationship_dropped :
        (id : EntityId) (prev : Relationship)
        → Runs T
            (Holding C T law (record c { relationships = Contents.update c.relationships id none }))
            (remove_rel_indices C T w prev >>= λ w'. delete C T w' (rel_key id))
    relationship_dropped id prev =
        Runs-bind _ (remove_rel_indices-Represents C T law r prev) λ x rx.
          Runs-mono (delete-Written C T law x (rel_key id))
            λ y h. relationship_written C T law c id none h refl rx

    delete_relationship-Implements :
        (id : EntityId)
        → Implements C T (Contents.delete_relationship c id) (delete_relationship C T w id)
    unfolding delete_relationship found
    delete_relationship-Implements id =
        rw (getters-Represents C T w c r id).1 (elim (Option-cases (c.relationships id)) [
          | inl h ↦ rw h (fails (new relationship_not_found))
          | inr (prev, h) ↦ rw h (Runs-Implements C T (relationship_dropped id prev))
        ])

  -- The mutators of a transaction of store/badger that holds given contents, on persons, relationships
  -- and sources, do to them what the port promises, or fail with the error that the port says, or
  -- with an error that badgerdb's Set or Delete refused a write with. PutProposal writes the proposal,
  -- or fails in that way, or refuses to; it refuses only what the port says it must: a write that
  -- mutates a proposal in a terminal state, which may be one of the transaction's own writes. Of
  -- these it refuses those that change the state, and, contrary to the port, accepts those that keep
  -- it. What is put was made by the constructors of model, with ids of ParseID and with texts that
  -- are valid UTF-8.
  pub mutators-Implements :
      (w : ReadTx T) (c : Contents)
      → Represents C T w c
      → ((p : Person)
          → IsPerson p
          → IsText (person_texts (person_wire p))
          → Implements C T (Contents.put_person c p) (put_person C T w p))
        × ((id : EntityId) → Implements C T (Contents.delete_person c id) (delete_person C T w id))
        × ((rel : Relationship)
            → IsRelationship rel
            → IsText (relationship_texts (relationship_wire rel))
            → Implements C T (Contents.put_relationship c rel) (put_relationship C T w rel))
        × ((id : EntityId)
            → Implements C T (Contents.delete_relationship c id) (delete_relationship C T w id))
        × ((s : Source)
            → IsSource s
            → IsText (source_texts (source_wire s))
            → Implements C T (Contents.put_source c s) (put_source C T w s))
        × ((id : EntityId) → Implements C T (Contents.delete_source c id) (delete_source C T w id))
        × ((p : Proposal)
            → IsProposal p
            → IsText (proposal_texts (proposal_wire p))
            → (now_refused : Bool) × Implements C T
                (Contents.put_proposal c now_refused p)
                (put_proposal C T w p)
              × Contents.RefusesStateChanges (c.proposals p.id) p now_refused)
  mutators-Implements w c r = (
    put_person-Implements r,
    delete_person-Implements r,
    put_relationship-Implements r,
    delete_relationship-Implements r,
    put_source-Implements r,
    delete_source-Implements r,
    λ p m u. (
      is_frozen (c.proposals p.id) p,
      put_proposal-Implements r p m u,
      is_frozen-RefusesStateChanges (c.proposals p.id) p,
    ),
  )
