-- ===== src/Governance/Apply/NoCycles.antt =====
-- Which operations of governance/apply.go keep the ParentChild edges of store/memory free of cycles.
use linea_core.Prelude.{
  ℕ, ◌+◌, ◌<◌, ◌≡◌, ◌≢◌, ◌⊎◌, inl, inr, refl, sym, ap, ◌∙◌, String, true, List, ◌==◌, nat_Eq,
  string_Eq, arith, length, Bool-cases, Map, insert, erase, values, lookup,
}
use linea_core.Prelude.Int.{ℤ}
use linea_core.Errors.{ok}
use linea_core.Errors.Ensures.{Ensures, ensures_rules, Ensures-bind, Ensures-ok}
use linea_core.Model.Ids.{EntityId}
use linea_core.Model.Person.{Person}
use linea_core.Model.Relationship.{Relationship, parent_child}
use linea_core.Model.Source.{Source}
use linea_core.Model.Proposal.{Proposal, ProposalState, accepted, merge, with_state}
use linea_core.Store.Memory.State.{State, iterate_children}
use linea_core.Store.Memory.WriteTx.{
  WriteTx, new_write_tx, commit_state, apply_overlay, read_through,
}
use linea_core.Store.Memory.WriteTx
use linea_core.Store.Memory.Effects.{
  put_person-ok, delete_person-ok, put_relationship-ok, delete_relationship-ok, put_source-ok,
  delete_source-ok, put_proposal-ok,
}
use linea_core.Store.Memory.State
use linea_core.Store.Memory.{Store, store, writing, update}
use linea_core.Store.Memory.Update.{update-current}
use linea_core.Governance.Payload.{Unmarshal}
use linea_core.Governance.StateMachine.{transition}
use linea_core.Governance.Cycle.Graph.{Edge, IsAcyclic}
use linea_core.Governance.Cycle.Acyclic.{
  IsOver, would_create_cycle_decides, extension-IsAcyclic, Descends-mono, In-values-insert,
  In-values-erase,
}
use linea_core.Governance.Apply.Atomic.{result_of-state}
use linea_core.Governance.Apply.{
  apply, apply_create, apply_update, apply_retract, apply_same_as, apply_merge, accept_tx, accept,
  check_cycle, retract_entity,
}

Edge-erase :
    (m : Map EntityId Relationship) (id : EntityId) {u v : EntityId}
    → Edge (values (erase id m)) u v
    → Edge (values m) u v
Edge-erase m id (r, i, pc, f, t) = (r, In-values-erase r id m i, pc, f, t)

Edge-insert :
    (m : Map EntityId Relationship) (rel : Relationship) {u v : EntityId}
    → Edge (values (insert rel.id rel m)) u v
    → Edge (values m) u v ⊎ ((rel.rel_type ≡ parent_child) × (u ≡ rel.from) × (v ≡ rel.to))
Edge-insert m rel (r, i, pc, f, t) = elim (In-values-insert r rel rel.id m i) [
  | inr i' ↦ inl (r, i', pc, f, t)
  | inl e ↦
      inr (ap (λ x. x.rel_type) (sym e) ∙ pc, sym f ∙ ap (λ x. x.from) e, sym t ∙ ap (λ x. x.to) e)
]

-- The edges that a commit of the transaction would leave.
abbrev pending_edges : WriteTx → List Relationship
pending_edges w = values (apply_overlay w.base.relationships w.rel_over)

abbrev IsClear : WriteTx → Type 0
IsClear w = IsAcyclic (pending_edges w)

module _ (w : WriteTx) (clear : IsClear w) where
  put_person-IsClear : (p : Person) → Ensures IsClear (WriteTx.put_person w p)
  put_person-IsClear p = record { at = λ x e. rw (put_person-ok w x p e).1 clear }

  delete_person-IsClear : (id : EntityId) → Ensures IsClear (WriteTx.delete_person w id)
  delete_person-IsClear id = record { at = λ x e. rw (delete_person-ok w x id e).1 clear }

  put_source-IsClear : (s : Source) → Ensures IsClear (WriteTx.put_source w s)
  put_source-IsClear s = record { at = λ x e. rw (put_source-ok w x s e).1 clear }

  delete_source-IsClear : (id : EntityId) → Ensures IsClear (WriteTx.delete_source w id)
  delete_source-IsClear id = record { at = λ x e. rw (delete_source-ok w x id e).1 clear }

  put_proposal-IsClear : (p : Proposal) → Ensures IsClear (WriteTx.put_proposal w p)
  put_proposal-IsClear p = record { at = λ x e. rw (put_proposal-ok w x p e).2 clear }

-- A transaction that has just begun, over a state without cycles.
module _ (b : State) (acyclic : IsAcyclic (values b.relationships)) where
  delete_relationship-IsClear :
      (id : EntityId) → Ensures IsClear (WriteTx.delete_relationship (new_write_tx b) id)
  unfolding apply_overlay insert
  delete_relationship-IsClear id = record {
    at = λ x e.
        rw (delete_relationship-ok (new_write_tx b) x id e).1
          (λ a d. acyclic a (Descends-mono (λ u v. Edge-erase b.relationships id) d));
  }

  module _ (fuel : ℕ) (room : length (values b.relationships) + 1 < fuel) where
    -- An edge that passes the guard of Create closes no cycle.
    check_cycle-IsOver :
        (rel : Relationship) {u : Unit {0}}
        → check_cycle writing fuel (new_write_tx b) rel ≡ ok u
        → (rel.rel_type ≢ parent_child) ⊎ (¬ IsOver (values b.relationships) rel.from rel.to)
    unfolding check_cycle
    check_cycle-IsOver rel h = elim (Bool-cases (rel.rel_type == parent_child)) [
      | inr other ↦ inl (ground arith)
      | inl pc ↦
          elim (would_create_cycle_decides writing.read (new_write_tx b) (values b.relationships)
            fuel rel.from rel.to (unfold iterate_children in λ n. refl) room) [
              | inl (t, o) ↦ absurd (ground (arith, t))
              | inr (f, no_over) ↦ inr no_over
            ]
    ]

    put_relationship-IsClear :
        (rel : Relationship) {u : Unit {0}}
        → check_cycle writing fuel (new_write_tx b) rel ≡ ok u
        → Ensures IsClear (WriteTx.put_relationship (new_write_tx b) rel)
    unfolding apply_overlay insert
    put_relationship-IsClear rel h = record {
      at = λ x e.
          rw (put_relationship-ok (new_write_tx b) x rel e).3 (elim (check_cycle-IsOver rel h) [
            | inl other ↦ λ a d. acyclic a (
                Descends-mono
                  (λ u v s. elim (Edge-insert b.relationships rel s) [
                    | inl s' ↦ s'
                    | inr (pc, _, _) ↦ absurd (other pc)
                  ])
                  d)
            | inr clear ↦
                extension-IsAcyclic (values (insert rel.id rel b.relationships))
                  (values b.relationships) rel.from rel.to
                  (λ u v s. elim (Edge-insert b.relationships rel s) [
                    | inl s' ↦ inl s'
                    | inr (pc, q, q') ↦ inr (q, q')
                  ])
                  acyclic clear
          ]);
    }

    apply_create-IsClear :
        (json : Unmarshal) (fresh : EntityId) (p : Proposal)
        → Ensures IsClear (apply_create writing json fresh fuel (new_write_tx b) p)
    unfolding apply_create apply_overlay
    apply_create-IsClear json fresh p =
        search
          (
            ensures_rules,
            put_person-IsClear (new_write_tx b) acyclic,
            put_source-IsClear (new_write_tx b) acyclic,
            put_relationship-IsClear,
          )
          depth 10

  retract_entity-IsClear :
      (p : Proposal) → Ensures IsClear (retract_entity writing (new_write_tx b) p)
  unfolding retract_entity apply_overlay
  retract_entity-IsClear p =
      search
        (
          ensures_rules,
          delete_person-IsClear (new_write_tx b) acyclic,
          delete_source-IsClear (new_write_tx b) acyclic,
          delete_relationship-IsClear,
        )
        depth 10

  apply_retract-IsClear :
      (p : Proposal) → Ensures IsClear (apply_retract writing (new_write_tx b) p)
  unfolding apply_retract
  apply_retract-IsClear p = Ensures-bind _ _ λ _ _. retract_entity-IsClear p

  apply_same_as-IsClear :
      (p : Proposal) → Ensures IsClear (apply_same_as writing (new_write_tx b) p)
  unfolding apply_same_as apply_overlay
  apply_same_as-IsClear p =
      search (ensures_rules, put_person-IsClear (new_write_tx b) acyclic) depth 10

  -- What the switch on the action never comes to.
  apply_merge-IsClear :
      (p : Proposal)
      → p.action ≢ merge
      → p.action == merge ≡ true
      → Ensures IsClear (apply_merge writing (new_write_tx b) p)
  apply_merge-IsClear p other h = absurd (ground arith)

  module _ (fuel : ℕ) (room : length (values b.relationships) + 1 < fuel) (json : Unmarshal)
      (fresh : EntityId) where
    apply-IsClear :
        (p : Proposal)
        → p.action ≢ merge
        → Ensures IsClear (apply writing json fresh fuel (new_write_tx b) p)
    unfolding apply apply_update
    apply-IsClear p other =
        search
          (
            ensures_rules,
            apply_create-IsClear fuel room json fresh p,
            apply_retract-IsClear p,
            apply_same_as-IsClear p,
            apply_merge-IsClear p other,
          )
          depth 8

    apply-IsClear-ok :
        {x : WriteTx} (p : Proposal)
        → p.action ≢ merge
        → apply writing json fresh fuel (new_write_tx b) p ≡ ok x
        → IsClear x
    apply-IsClear-ok p other e = (apply-IsClear p other).at _ e

put_proposal-IsClear-ok :
    (w : WriteTx) {x : WriteTx} (p : Proposal)
    → IsClear w
    → WriteTx.put_proposal w p ≡ ok x
    → IsClear x
put_proposal-IsClear-ok w p clear e = (put_proposal-IsClear w clear p).at _ e

transition-action :
    (p : Proposal) {q : Proposal} (to : ProposalState) (actor : String) (ts : ℤ) (reason : String)
    → transition p to actor ts reason ≡ ok q
    → q.action ≡ p.action
unfolding transition with_state
transition-action p to actor ts reason h = ground arith

accept_tx-IsClear :
    (b : State) (json : Unmarshal) (fresh : EntityId) (fuel : ℕ) (id : EntityId) (actor : String)
    (ts : ℤ)
    → IsAcyclic (values b.relationships)
    → length (values b.relationships) + 1 < fuel
    → ((p : Proposal) → State.get_proposal b id ≡ ok p → p.action ≢ merge)
    → Ensures
        (λ (r : Proposal × WriteTx). IsClear r.1)
        (accept_tx writing json fresh fuel id actor ts (new_write_tx b))
unfolding accept_tx WriteTx.get_proposal read_through lookup
accept_tx-IsClear b json fresh fuel id actor ts acyclic room other = Ensures-bind _ _ λ p stored.
    Ensures-bind _ _ λ q moved. Ensures-bind _ _ λ x applied. Ensures-bind _ _ λ y put.
      Ensures-ok (q, y)
        (put_proposal-IsClear-ok x q
          (apply-IsClear-ok b acyclic fuel room json fresh q
            (λ e. other p stored (sym (transition-action p accepted actor ts "" moved) ∙ e))
            applied)
          put)

-- Whether Accept succeeds or fails, it leaves ParentChild edges without cycles behind if there were
-- none before, unless the proposal asks for a merge. Here `fuel` exceeds the number of edges by two
-- or more.
pub accept-IsAcyclic :
    (s : Store) (json : Unmarshal) (fresh : EntityId) (fuel : ℕ) (id : EntityId) (actor : String)
    (ts : ℤ)
    → IsAcyclic (values s.current.relationships)
    → length (values s.current.relationships) + 1 < fuel
    → ((p : Proposal) → State.get_proposal s.current id ≡ ok p → p.action ≢ merge)
    → IsAcyclic (values (accept store s json fresh fuel id actor ts).1.current.relationships)
unfolding accept commit_state
accept-IsAcyclic s json fresh fuel id actor ts acyclic room other =
    rw (result_of-state (update s (accept_tx writing json fresh fuel id actor ts))) (
      update-current (λ b. IsAcyclic (values b.relationships)) s
        (accept_tx writing json fresh fuel id actor ts) acyclic
        (λ q w e.
          (accept_tx-IsClear s.current json fresh fuel id actor ts acyclic room other).at (q, w) e))
