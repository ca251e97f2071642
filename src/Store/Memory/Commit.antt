-- ===== src/Store/Memory/Commit.antt =====
-- commitState of store/memory/writetx.go, after any calls of the mutators.
use linea_core.Prelude.{◌≡◌, string_Eq, lookup, IsIndex}
use linea_core.Model.Ids.{EntityId}
use linea_core.Model.Person.{Person}
use linea_core.Model.Relationship.{Relationship}
use linea_core.Model.Source.{Source}
use linea_core.Model.Proposal.{Proposal}
use linea_core.Store.Port.{Version}
use linea_core.Store.Memory.State.{State}
use linea_core.Store.Memory.State
use linea_core.Store.Memory.WriteTx.{WriteTx, commit_state, new_write_tx, is_frozen}
use linea_core.Store.Memory.WriteTx
use linea_core.Store.Memory.Overlay.{lookup-apply_overlay, apply_overlay-IsIndex}
use linea_core.Store.Memory.Writes.{Writes, Writes-IsSound}
use linea_core.Store.Memory.Refines.{contents, getters-contents}

-- What a committed state holds under each id is what the transaction held.
pub commit-lookup :
    {b : State} {w : WriteTx} (v : Version) (id : EntityId)
    → Writes b w
    → (lookup id (commit_state w v).persons ≡ (contents w).persons id)
      × (lookup id (commit_state w v).relationships ≡ (contents w).relationships id)
      × (lookup id (commit_state w v).sources ≡ (contents w).sources id)
      × (lookup id (commit_state w v).proposals ≡ (contents w).proposals id)
unfolding commit_state
commit-lookup {b} {w} v id ws =
    let sound = Writes-IsSound ws in
    (
      lookup-apply_overlay (λ (y : Person). y.id) id w.base.persons w.person_over sound.persons,
      lookup-apply_overlay (λ (y : Relationship). y.id) id w.base.relationships w.rel_over
          sound.relationships,
      lookup-apply_overlay (λ (y : Source). y.id) id w.base.sources w.src_over sound.sources,
      lookup-apply_overlay (λ (y : Proposal). y.id) id w.base.proposals w.prop_over sound.proposals,
    )

-- Whatever mutators were called, the getters of the committed state return for every id what the
-- getters of the transaction returned just before the commit, errors included.
pub commit-getters :
    (b : State) (w : WriteTx) (v : Version) (id : EntityId)
    → Writes b w
    → (State.get_person (commit_state w v) id ≡ WriteTx.get_person w id)
      × (State.get_relationship (commit_state w v) id ≡ WriteTx.get_relationship w id)
      × (State.get_source (commit_state w v) id ≡ WriteTx.get_source w id)
      × (State.get_proposal (commit_state w v) id ≡ WriteTx.get_proposal w id)
unfolding State.get_person State.get_relationship State.get_source State.get_proposal
commit-getters b w v id ws =
    let l = commit-lookup v id ws in
    let g = getters-contents w id in (rw (l.0, g.0), rw (l.1, g.1), rw (l.2, g.2), rw (l.3, g.3))

-- Every entity of a state stands under its own id, and no id stands twice.
pub record IsWellFormed (s : State) : Type 0 where
  pub persons : IsIndex (λ (p : Person). p.id) s.persons
  pub relationships : IsIndex (λ (r : Relationship). r.id) s.relationships
  pub sources : IsIndex (λ (x : Source). x.id) s.sources
  pub proposals : IsIndex (λ (p : Proposal). p.id) s.proposals

pub commit-IsWellFormed :
    {b : State} {w : WriteTx} (v : Version)
    → IsWellFormed b
    → Writes b w
    → IsWellFormed (commit_state w v)
unfolding commit_state
commit-IsWellFormed {b} {w} v f ws =
    let sound = Writes-IsSound ws in
    record {
      persons =
          apply_overlay-IsIndex (λ (y : Person). y.id) w.base.persons w.person_over sound.persons
            (rw sound.base f.persons);
      relationships =
          apply_overlay-IsIndex (λ (y : Relationship). y.id) w.base.relationships w.rel_over
            sound.relationships (rw sound.base f.relationships);
      sources =
          apply_overlay-IsIndex (λ (y : Source). y.id) w.base.sources w.src_over sound.sources
            (rw sound.base f.sources);
      proposals =
          apply_overlay-IsIndex (λ (y : Proposal). y.id) w.base.proposals w.prop_over
            sound.proposals (rw sound.base f.proposals);
    }
