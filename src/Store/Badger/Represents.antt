-- ===== src/Store/Badger/Represents.antt =====
-- When a transaction of store/badger holds given contents, as store/store.go speaks of them.
pub mod Writes
pub mod Calls
pub mod Mutators
use mathlib.Core.Path.{subst}
use linea_core.Prelude.{
  ◌≡◌, refl, sym, ap, ◌∙◌, String, Bool, true, false, Option, none, some, ◌==◌, string_Eq,
  Bool-cases, inl, inr, if◌then◌else◌,
}
use linea_core.Errors.{
  Result, Code, ok, err, person_not_found, relationship_not_found, source_not_found,
  proposal_not_found,
}
use linea_core.Model.Ids.{EntityId}
use linea_core.Store.Contents.{Contents}
use linea_core.Store.Memory.State.{found}
use linea_core.Store.Badger.Wire.{Encoding}
use linea_core.Store.Badger.Codec.{
  decode_person, decode_relationship, decode_source, decode_proposal,
}
use linea_core.Store.Badger.Keys.{person_key, rel_key, source_key, proposal_key}
use linea_core.Store.Badger.Txn.{Txn, Got}
use linea_core.Store.Badger.ReadTx.{
  ReadTx, fetch, get_person, get_relationship, get_source, get_proposal,
}

-- What Get returns for an entity that is not there, or that is there and decodes.
abbrev pub Holds : {Bytes A : Type 0} → (Bytes → Result A) → Option A → Got Bytes → Type 0
Holds decode none g = g ≡ Got.key_not_found
Holds {Bytes} decode (some a) g = (buf : Bytes) × (g ≡ Got.item (ok buf)) × (decode buf ≡ ok a)

module _ (C : Encoding) (T : Txn C.Bytes) where
  pub record Represents (w : ReadTx T) (c : Contents) : Type 0 where
    pub persons :
        (i : EntityId) → Holds (decode_person C.person) (c.persons i) (T.get w.tx (person_key i))
    pub relationships :
        (i : EntityId)
        → Holds (decode_relationship C.relationship) (c.relationships i) (T.get w.tx (rel_key i))
    pub sources :
        (i : EntityId) → Holds (decode_source C.source) (c.sources i) (T.get w.tx (source_key i))
    pub proposals :
        (i : EntityId)
        → Holds (decode_proposal C.proposal) (c.proposals i) (T.get w.tx (proposal_key i))

  pub fetch-Holds :
      {A : Type 0} (w : ReadTx T) (k : String) (c : Code) (decode : C.Bytes → Result A)
      (o : Option A)
      → Holds decode o (T.get w.tx k)
      → fetch C T w k c decode ≡ found c o
  unfolding fetch found
  fetch-Holds w k c decode none h = rw (fetch, h) refl
  fetch-Holds w k c decode (some a) (buf, h, d) = rw (fetch, h) d

  -- The getters of a transaction of store/badger that holds given contents return what is there, and
  -- report with the code of its kind what is not.
  pub getters-Represents :
      (w : ReadTx T) (c : Contents)
      → Represents w c
      → (i : EntityId)
      → (get_person C T w i ≡ found person_not_found (c.persons i))
        × (get_relationship C T w i ≡ found relationship_not_found (c.relationships i))
        × (get_source C T w i ≡ found source_not_found (c.sources i))
        × (get_proposal C T w i ≡ found proposal_not_found (c.proposals i))
  unfolding get_person get_relationship get_source get_proposal
  getters-Represents w c h i = (
    fetch-Holds w (person_key i) person_not_found (decode_person C.person) (c.persons i)
        (h.persons i),
    fetch-Holds w (rel_key i) relationship_not_found (decode_relationship C.relationship)
        (c.relationships i) (h.relationships i),
    fetch-Holds w (source_key i) source_not_found (decode_source C.source) (c.sources i)
        (h.sources i),
    fetch-Holds w (proposal_key i) proposal_not_found (decode_proposal C.proposal) (c.proposals i)
        (h.proposals i),
  )
