-- ===== src/Store/Memory/Refines.antt =====
-- The mutators of store/memory/writetx.go against the contents of a transaction.
use linea_core.Prelude.{
  ◌≡◌, refl, ap, same_some, Bool, string_Eq, nat_Eq, Option, none, some, lookup, insert,
  lookup-insert, arith, Map,
}
use mathlib.Core.Path.{fun_ext}
use text.Mathlib.TextEquality.{eq_iff}
use linea_core.Errors.{
  map_ok, person_not_found, relationship_not_found, source_not_found, proposal_not_found,
}
use linea_core.Model.Ids.{EntityId}
use linea_core.Model.Person.{Person}
use linea_core.Model.Relationship.{Relationship}
use linea_core.Model.Source.{Source}
use linea_core.Model.Proposal.{Proposal}
use linea_core.Store.Contents
use linea_core.Store.Contents.{Contents}
use linea_core.Store.Memory.State
use linea_core.Store.Memory.WriteTx.{
  WriteTx, Overlay, put_person, delete_person, put_relationship, delete_relationship, put_source,
  delete_source, put_proposal, get_person, get_relationship, get_source, get_proposal, has_person,
  is_frozen,
}
use linea_core.Store.Memory.Overlay.{overlaid}

-- What a transaction holds under each key: the pending writes over the base state.
abbrev seen : {V : Type 0} → Overlay V → Map EntityId V → EntityId → Option V
seen over base k = overlaid (lookup k over) (lookup k base)

abbrev pub contents : WriteTx → Contents
contents w = record {
  persons = seen w.person_over w.base.persons;
  relationships = seen w.rel_over w.base.relationships;
  sources = seen w.src_over w.base.sources;
  proposals = seen w.prop_over w.base.proposals;
}

pub seen-insert :
    {V : Type 0} (over : Overlay V) (base : Map EntityId V) (k : EntityId) (v : Option V)
    → seen (insert k v over) base ≡ Contents.update (seen over base) k v
seen-insert over base k v = fun_ext λ j. ground (arith, lookup-insert k j v over, eq_iff k j)

module _ (w : WriteTx) where
  put_person-contents :
      (p : Person) → map_ok contents (put_person w p) ≡ Contents.put_person (contents w) p
  unfolding put_person
  put_person-contents p = ground (arith, seen-insert w.person_over w.base.persons p.id (some p))

  delete_person-contents :
      (id : EntityId)
      → map_ok contents (delete_person w id) ≡ Contents.delete_person (contents w) id
  unfolding delete_person get_person
  delete_person-contents id = ground (arith, seen-insert w.person_over w.base.persons id none)

  put_relationship-contents :
      (r : Relationship)
      → map_ok contents (put_relationship w r) ≡ Contents.put_relationship (contents w) r
  unfolding put_relationship has_person
  put_relationship-contents r =
      ground (arith, seen-insert w.rel_over w.base.relationships r.id (some r))

  delete_relationship-contents :
      (id : EntityId)
      → map_ok contents (delete_relationship w id) ≡ Contents.delete_relationship (contents w) id
  unfolding delete_relationship get_relationship
  delete_relationship-contents id =
      ground (arith, seen-insert w.rel_over w.base.relationships id none)

  put_source-contents :
      (s : Source) → map_ok contents (put_source w s) ≡ Contents.put_source (contents w) s
  unfolding put_source
  put_source-contents s = ground (arith, seen-insert w.src_over w.base.sources s.id (some s))

  delete_source-contents :
      (id : EntityId)
      → map_ok contents (delete_source w id) ≡ Contents.delete_source (contents w) id
  unfolding delete_source get_source
  delete_source-contents id = ground (arith, seen-insert w.src_over w.base.sources id none)

  put_proposal-contents :
      (p : Proposal)
      → map_ok contents (put_proposal w p)
        ≡ Contents.put_proposal (contents w) (is_frozen (lookup p.id w.base.proposals) p) p
  unfolding put_proposal
  put_proposal-contents p = ground (arith, seen-insert w.prop_over w.base.proposals p.id (some p))

pub is_frozen-RefusesStateChanges :
    (there : Option Proposal) (p : Proposal)
    → Contents.RefusesStateChanges there p (is_frozen there p)
is_frozen-RefusesStateChanges none p = (λ h. absurd (cc), λ old e. absurd (cc))
is_frozen-RefusesStateChanges (some q) p = (
  λ h. (
    q,
    refl,
    ground arith,
    λ e. absurd (let same = ap (λ (x : Proposal). x.state) e in ground arith),
  ),
  λ old e t.
      let same : q ≡ old = same_some refl e in
      let state = ap (λ (x : Proposal). x.state) same in
      (λ differ. ground (arith, state), λ equal. ground (arith, state)),
)

-- The mutators of a write transaction on persons, relationships and sources do to the contents of the
-- transaction what the port promises, and fail where the port says so, with the error that the port
-- says. PutProposal writes the proposal, or refuses to, and it refuses only what the port says it
-- must: a write that mutates a proposal in a terminal state, looked for in the base state. Of these
-- it refuses those that change the state, and, contrary to the port, accepts those that keep it.
pub mutators-contents :
    (w : WriteTx)
    → ((p : Person) → map_ok contents (put_person w p) ≡ Contents.put_person (contents w) p)
      × ((id : EntityId)
          → map_ok contents (delete_person w id) ≡ Contents.delete_person (contents w) id)
      × ((r : Relationship)
          → map_ok contents (put_relationship w r) ≡ Contents.put_relationship (contents w) r)
      × ((id : EntityId)
          → map_ok contents (delete_relationship w id)
            ≡ Contents.delete_relationship (contents w) id)
      × ((s : Source) → map_ok contents (put_source w s) ≡ Contents.put_source (contents w) s)
      × ((id : EntityId)
          → map_ok contents (delete_source w id) ≡ Contents.delete_source (contents w) id)
      × ((p : Proposal)
          → (refused : Bool) × (map_ok contents (put_proposal w p)
              ≡ Contents.put_proposal (contents w) refused p)
            × Contents.RefusesStateChanges (lookup p.id w.base.proposals) p refused)
mutators-contents w = (
  put_person-contents w,
  delete_person-contents w,
  put_relationship-contents w,
  delete_relationship-contents w,
  put_source-contents w,
  delete_source-contents w,
  λ p. (
    is_frozen (lookup p.id w.base.proposals) p,
    put_proposal-contents w p,
    is_frozen-RefusesStateChanges (lookup p.id w.base.proposals) p,
  ),
)

-- The getters read the contents, pending writes included, and report what is missing.
pub getters-contents :
    (w : WriteTx) (id : EntityId)
    → (get_person w id ≡ State.found person_not_found ((contents w).persons id))
      × (get_relationship w id ≡ State.found relationship_not_found ((contents w).relationships id))
      × (get_source w id ≡ State.found source_not_found ((contents w).sources id))
      × (get_proposal w id ≡ State.found proposal_not_found ((contents w).proposals id))
unfolding get_person get_relationship get_source get_proposal
getters-contents w id = ground arith
