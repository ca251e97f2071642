-- ===== src/Governance/Apply/Sound.antt =====
-- The operations of governance/apply.go on store/memory as calls of the mutators.
use linea_core.Prelude.{ℕ, String, ◌≡◌, List, [], ◌∷◌}
use linea_core.Prelude.Int.{ℤ}
use linea_core.Errors.{ok}
use linea_core.Errors.Ensures.{Ensures, Ensures-bind, Ensures-ok, ensures_rules}
use linea_core.Model.Ids.{EntityId}
use linea_core.Model.Person.{Person}
use linea_core.Model.Relationship.{Relationship}
use linea_core.Model.Source.{Source}
use linea_core.Model.Proposal.{Proposal, ProposalState}
use linea_core.Store.Memory.State.{State}
use linea_core.Store.Memory.WriteTx
use linea_core.Store.Memory.WriteTx.{WriteTx}
use linea_core.Store.Memory.Writes
use linea_core.Store.Memory.Writes.{Writes, then_write}
use linea_core.Store.Memory.{writing}
use linea_core.Governance.Payload.{Unmarshal}
use linea_core.Governance.Apply.{
  apply, apply_create, apply_update, apply_retract, apply_merge, apply_same_as, accept_tx,
  transition_tx, merge_edges, merge_edge, retract_entity,
}

module _ {b : State} where
  module _ {w : WriteTx} (ws : Writes b w) where
    put_person-Writes : (p : Person) → Ensures (Writes b) (WriteTx.put_person w p)
    put_person-Writes p = record { at = λ x e. then_write ws (Writes.put_person p e) }

    delete_person-Writes : (id : EntityId) → Ensures (Writes b) (WriteTx.delete_person w id)
    delete_person-Writes id = record { at = λ x e. then_write ws (Writes.delete_person id e) }

    put_relationship-Writes : (r : Relationship) → Ensures (Writes b) (WriteTx.put_relationship w r)
    put_relationship-Writes r = record { at = λ x e. then_write ws (Writes.put_relationship r e) }

    delete_relationship-Writes :
        (id : EntityId) → Ensures (Writes b) (WriteTx.delete_relationship w id)
    delete_relationship-Writes id = record {
      at = λ x e. then_write ws (Writes.delete_relationship id e);
    }

    put_source-Writes : (s : Source) → Ensures (Writes b) (WriteTx.put_source w s)
    put_source-Writes s = record { at = λ x e. then_write ws (Writes.put_source s e) }

    delete_source-Writes : (id : EntityId) → Ensures (Writes b) (WriteTx.delete_source w id)
    delete_source-Writes id = record { at = λ x e. then_write ws (Writes.delete_source id e) }

    put_proposal-Writes : (p : Proposal) → Ensures (Writes b) (WriteTx.put_proposal w p)
    put_proposal-Writes p = record { at = λ x e. then_write ws (Writes.put_proposal p e) }

  ruleset write_rules = (
    ensures_rules, put_person-Writes, delete_person-Writes, put_relationship-Writes,
    delete_relationship-Writes, put_source-Writes, delete_source-Writes, put_proposal-Writes,
  )

  module _ {w : WriteTx} (ws : Writes b w) (p : Proposal) where
    apply_create-Writes :
        (json : Unmarshal) (fresh : EntityId) (fuel : ℕ)
        → Ensures (Writes b) (apply_create writing json fresh fuel w p)
    unfolding apply_create
    apply_create-Writes json fresh fuel = search write_rules depth 8

    retract_entity-Writes : Ensures (Writes b) (retract_entity writing w p)
    unfolding retract_entity
    retract_entity-Writes = search write_rules depth 8

    apply_retract-Writes : Ensures (Writes b) (apply_retract writing w p)
    unfolding apply_retract
    apply_retract-Writes = Ensures-bind _ _ λ _ _. retract_entity-Writes

    apply_same_as-Writes : Ensures (Writes b) (apply_same_as writing w p)
    unfolding apply_same_as
    apply_same_as-Writes = search write_rules depth 8

  delete_relationship-step :
      {w x : WriteTx} (id : EntityId)
      → Writes b w
      → WriteTx.delete_relationship w id ≡ ok x
      → Writes b x
  delete_relationship-step id ws e = then_write ws (Writes.delete_relationship id e)

  merge_edge-Writes :
      (target secondary : EntityId) {w : WriteTx} (r : Relationship)
      → Writes b w
      → Ensures (Writes b) (merge_edge writing target secondary w r)
  unfolding merge_edge
  merge_edge-Writes target secondary {w} r ws =
      search (write_rules, delete_relationship-step) depth 9

  merge_edges-Writes :
      (target secondary : EntityId) {w : WriteTx} (rs : List Relationship)
      → Writes b w
      → Ensures (Writes b) (merge_edges writing target secondary w rs)
  unfolding merge_edges
  merge_edges-Writes target secondary {w} [] ws = Ensures-ok w ws
  merge_edges-Writes target secondary {w} (r ∷ rs) ws = Ensures-bind _ _ λ x e.
      merge_edges-Writes target secondary rs ((merge_edge-Writes target secondary r ws).at x e)

  merge_edges-step :
      {w x : WriteTx} (target secondary : EntityId) (rs : List Relationship)
      → Writes b w
      → merge_edges writing target secondary w rs ≡ ok x
      → Writes b x
  merge_edges-step target secondary rs ws e = (merge_edges-Writes target secondary rs ws).at _ e

  module _ {w : WriteTx} (ws : Writes b w) where
    apply_merge-Writes : (p : Proposal) → Ensures (Writes b) (apply_merge writing w p)
    unfolding apply_merge
    apply_merge-Writes p = search (write_rules, merge_edges-step) depth 12

    apply-Writes :
        (json : Unmarshal) (fresh : EntityId) (fuel : ℕ) (p : Proposal)
        → Ensures (Writes b) (apply writing json fresh fuel w p)
    unfolding apply apply_update
    apply-Writes json fresh fuel p =
        search
          (
            ensures_rules,
            apply_create-Writes ws p json fresh fuel,
            apply_retract-Writes ws p,
            apply_merge-Writes p,
            apply_same_as-Writes ws p,
          )
          depth 8

    apply-step :
        {x : WriteTx} (json : Unmarshal) (fresh : EntityId) (fuel : ℕ) (p : Proposal)
        → apply writing json fresh fuel w p ≡ ok x
        → Writes b x
    apply-step json fresh fuel p e = (apply-Writes json fresh fuel p).at _ e

  put_proposal-step :
      {w x : WriteTx} (p : Proposal) → Writes b w → WriteTx.put_proposal w p ≡ ok x → Writes b x
  put_proposal-step p ws e = then_write ws (Writes.put_proposal p e)

  module _ {w : WriteTx} (ws : Writes b w) where
    -- What Accept and the other transitions do to a transaction on store/memory is a sequence of
    -- calls of the mutators.
    pub accept_tx-Writes :
        (json : Unmarshal) (fresh : EntityId) (fuel : ℕ) (id : EntityId) (actor : String) (ts : ℤ)
        → Ensures
            (λ (r : Proposal × WriteTx). Writes b r.1)
            (accept_tx writing json fresh fuel id actor ts w)
    unfolding accept_tx
    accept_tx-Writes json fresh fuel id actor ts =
        search (ensures_rules, apply-step ws, put_proposal-step) depth 10

    pub transition_tx-Writes :
        (id : EntityId) (to : ProposalState) (actor : String) (ts : ℤ) (reason : String)
        → Ensures
            (λ (r : Proposal × WriteTx). Writes b r.1)
            (transition_tx writing id to actor ts reason w)
    unfolding transition_tx
    transition_tx-Writes id to actor ts reason = search (ensures_rules, put_proposal-step) depth 10
