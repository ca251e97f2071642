-- ===== src/Store/Memory/Writes.antt =====
-- The write transactions that calls of the mutators of store/memory/writetx.go can reach, and the
-- invariants that the mutators keep.
use linea_core.Prelude.{
  ◌≡◌, string_Eq, refl, IsPending, insert-IsPending-some, insert-IsPending-none,
}
use linea_core.Errors.{ok}
use linea_core.Model.Ids.{EntityId}
use linea_core.Model.Person.{Person}
use linea_core.Model.Relationship.{Relationship}
use linea_core.Model.Source.{Source}
use linea_core.Model.Proposal.{Proposal}
use linea_core.Store.Memory.State.{State}
use linea_core.Store.Memory.WriteTx
use linea_core.Store.Memory.WriteTx.{WriteTx, Overlay, new_write_tx, apply_overlay, commit_state}
use linea_core.Store.Memory.Effects.{
  put_person-ok, delete_person-ok, put_relationship-ok, delete_relationship-ok, put_source-ok,
  delete_source-ok, put_proposal-ok,
}

-- One successful call of a mutator.
pub data Write (w : WriteTx) : WriteTx → Type 0 where
  put_person : {x : WriteTx} (p : Person) → WriteTx.put_person w p ≡ ok x → Write w x
  delete_person : {x : WriteTx} (id : EntityId) → WriteTx.delete_person w id ≡ ok x → Write w x
  put_relationship :
      {x : WriteTx} (r : Relationship) → WriteTx.put_relationship w r ≡ ok x → Write w x
  delete_relationship :
      {x : WriteTx} (id : EntityId) → WriteTx.delete_relationship w id ≡ ok x → Write w x
  put_source : {x : WriteTx} (s : Source) → WriteTx.put_source w s ≡ ok x → Write w x
  delete_source : {x : WriteTx} (id : EntityId) → WriteTx.delete_source w id ≡ ok x → Write w x
  put_proposal : {x : WriteTx} (p : Proposal) → WriteTx.put_proposal w p ≡ ok x → Write w x

-- What a transaction on the state `b` can become.
pub data Writes (b : State) : WriteTx → Type 0 where
  begin : Writes b (new_write_tx b)
  then_write : {w x : WriteTx} → Writes b w → Write w x → Writes b x

pub record IsSound (b : State) (w : WriteTx) : Type 0 where
  pub base : w.base ≡ b
  pub persons : IsPending (λ (p : Person). p.id) w.person_over
  pub relationships : IsPending (λ (r : Relationship). r.id) w.rel_over
  pub sources : IsPending (λ (s : Source). s.id) w.src_over
  pub proposals : IsPending (λ (p : Proposal). p.id) w.prop_over

Write-IsSound : {b : State} {w x : WriteTx} → IsSound b w → Write w x → IsSound b x
Write-IsSound {b} {w} {x} v (put_person p h) = rw (put_person-ok w x p h).1 (record {
  base = v.base;
  persons = insert-IsPending-some (λ (y : Person). y.id) p.id p w.person_over refl v.persons;
  relationships = v.relationships;
  sources = v.sources;
  proposals = v.proposals;
})
Write-IsSound {b} {w} {x} v (put_relationship r h) = rw (put_relationship-ok w x r h).3 (record {
  base = v.base;
  persons = v.persons;
  relationships =
      insert-IsPending-some (λ (y : Relationship). y.id) r.id r w.rel_over refl v.relationships;
  sources = v.sources;
  proposals = v.proposals;
})
Write-IsSound {b} {w} {x} v (put_source s h) = rw (put_source-ok w x s h).1 (record {
  base = v.base;
  persons = v.persons;
  relationships = v.relationships;
  sources = insert-IsPending-some (λ (y : Source). y.id) s.id s w.src_over refl v.sources;
  proposals = v.proposals;
})
Write-IsSound {b} {w} {x} v (put_proposal q h) = rw (put_proposal-ok w x q h).2 (record {
  base = v.base;
  persons = v.persons;
  relationships = v.relationships;
  sources = v.sources;
  proposals = insert-IsPending-some (λ (y : Proposal). y.id) q.id q w.prop_over refl v.proposals;
})
Write-IsSound {b} {w} {x} v (delete_person id h) = rw (delete_person-ok w x id h).1 (record {
  base = v.base;
  persons = insert-IsPending-none (λ (y : Person). y.id) id w.person_over v.persons;
  relationships = v.relationships;
  sources = v.sources;
  proposals = v.proposals;
})
Write-IsSound {b} {w} {x} v (delete_relationship id h) =
    rw (delete_relationship-ok w x id h).1 (record {
      base = v.base;
      persons = v.persons;
      relationships =
          insert-IsPending-none (λ (y : Relationship). y.id) id w.rel_over v.relationships;
      sources = v.sources;
      proposals = v.proposals;
    })
Write-IsSound {b} {w} {x} v (delete_source id h) = rw (delete_source-ok w x id h).1 (record {
  base = v.base;
  persons = v.persons;
  relationships = v.relationships;
  sources = insert-IsPending-none (λ (y : Source). y.id) id w.src_over v.sources;
  proposals = v.proposals;
})

pub Writes-IsSound : {b : State} {w : WriteTx} → Writes b w → IsSound b w
Writes-IsSound begin = record {
  base = refl;
  persons = tt;
  relationships = tt;
  sources = tt;
  proposals = tt;
}
Writes-IsSound (then_write ws s) = Write-IsSound (Writes-IsSound ws) s
