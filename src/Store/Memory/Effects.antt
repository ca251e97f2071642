-- ===== src/Store/Memory/Effects.antt =====
-- What a successful call of each mutator of store/memory/writetx.go has checked and changed.
use linea_core.Prelude.{◌≡◌, string_Eq, none, some, lookup, insert, arith, true, false, inl, inr}
use linea_core.Errors.{ok, Result-cases}
use linea_core.Model.Ids.{EntityId, is_zero}
use linea_core.Model.Person.{Person}
use linea_core.Model.Relationship.{Relationship}
use linea_core.Model.Source.{Source}
use linea_core.Model.Proposal.{Proposal}
use linea_core.Store.Memory.WriteTx.{
  WriteTx, put_person, delete_person, put_relationship, delete_relationship, put_source,
  delete_source, put_proposal, get_person, get_relationship, get_source, has_person, is_frozen,
}

module _ (w x : WriteTx) where
  pub put_person-ok :
      (p : Person)
      → put_person w p ≡ ok x
      → (is_zero p.id ≡ false) × (x ≡ record w { person_over = insert p.id (some p) w.person_over })
  unfolding put_person
  put_person-ok p h = ground arith

  pub delete_person-ok :
      (id : EntityId)
      → delete_person w id ≡ ok x
      → ((p : Person) × (get_person w id ≡ ok p))
        × (x ≡ record w { person_over = insert id none w.person_over })
  unfolding delete_person
  delete_person-ok id h = elim (Result-cases (get_person w id)) [
    | inl (v, e) ↦ ((v, e), ground arith)
    | inr (e, h') ↦ absurd (ground arith)
  ]

  pub put_relationship-ok :
      (r : Relationship)
      → put_relationship w r ≡ ok x
      → (is_zero r.id ≡ false)
        × (has_person w r.from ≡ true)
        × (has_person w r.to ≡ true)
        × (x ≡ record w { rel_over = insert r.id (some r) w.rel_over })
  unfolding put_relationship
  put_relationship-ok r h = ground arith

  pub delete_relationship-ok :
      (id : EntityId)
      → delete_relationship w id ≡ ok x
      → ((r : Relationship) × (get_relationship w id ≡ ok r))
        × (x ≡ record w { rel_over = insert id none w.rel_over })
  unfolding delete_relationship
  delete_relationship-ok id h = elim (Result-cases (get_relationship w id)) [
    | inl (v, e) ↦ ((v, e), ground arith)
    | inr (e, h') ↦ absurd (ground arith)
  ]

  pub put_source-ok :
      (s : Source)
      → put_source w s ≡ ok x
      → (is_zero s.id ≡ false) × (x ≡ record w { src_over = insert s.id (some s) w.src_over })
  unfolding put_source
  put_source-ok s h = ground arith

  pub delete_source-ok :
      (id : EntityId)
      → delete_source w id ≡ ok x
      → ((s : Source) × (get_source w id ≡ ok s))
        × (x ≡ record w { src_over = insert id none w.src_over })
  unfolding delete_source
  delete_source-ok id h = elim (Result-cases (get_source w id)) [
    | inl (v, e) ↦ ((v, e), ground arith)
    | inr (e, h') ↦ absurd (ground arith)
  ]

  pub put_proposal-ok :
      (p : Proposal)
      → put_proposal w p ≡ ok x
      → (is_zero p.id ≡ false)
        × (is_frozen (lookup p.id w.base.proposals) p ≡ false)
        × (x ≡ record w { prop_over = insert p.id (some p) w.prop_over })
  unfolding put_proposal
  put_proposal-ok p h = ground arith
