-- ===== src/Governance/Apply/Atomic.antt =====
-- The operations of governance/apply.go that move a proposal, as transactions of store/memory.
use linea_core.Prelude.{
  ◌≡◌, ◌≢◌, refl, ◌∙◌, String, false, string_Eq, nat_Eq, arith, some, [], lookup, insert,
  lookup-insert,
}
use text.Mathlib.TextEquality.{eq_iff}
use linea_core.Prelude.Int.{ℤ}
use linea_core.Errors.{Result, ok, err}
use linea_core.Model.Ids.{EntityId}
use linea_core.Model.Proposal.{Proposal, ProposalState, is_terminal, with_state}
use linea_core.Store.Port.{Version}
use linea_core.Store.Memory.State.{State, get_proposal}
use linea_core.Store.Memory.WriteTx.{
  WriteTx, new_write_tx, read_through, put_proposal, commit_state, apply_overlay,
}
use linea_core.Store.Memory.WriteTx
use linea_core.Store.Memory.{Store, store, writing, update, next_version}
use linea_core.Store.Memory.Update.{update-ok, update-fields}
use linea_core.Governance.StateMachine.{transition, can_transition}
use linea_core.Governance.Apply.{transition_in_store, transition_tx, result_of}

pub result_of-state : {A B S : Type 0} (x : Result (A × B) × S) → (result_of x).1 ≡ x.1
unfolding result_of
result_of-state (ok (a, v), s) = refl
result_of-state (err e, s) = refl

-- The effect of a state transition that is carried out, as seen by its readers: the stored proposal
-- has moved on, and everything else is as it was.
abbrev pub IsMoved : State → EntityId → Proposal → State → Type 0
IsMoved b id q b' =
    (lookup id b'.proposals ≡ some q)
    × ((j : EntityId) → j ≢ id → lookup j b'.proposals ≡ lookup j b.proposals)
    × (b'.persons ≡ b.persons)
    × (b'.relationships ≡ b.relationships)
    × (b'.sources ≡ b.sources)

module _ (b : State) (id : EntityId) (to : ProposalState) (actor : String) (ts : ℤ)
    (reason : String) (p q : Proposal) where
  pub transition-facts :
      transition p to actor ts reason ≡ ok q → (q.id ≡ p.id) × (is_terminal p.state ≡ false)
  unfolding transition with_state can_transition
  transition-facts moved = ground arith

  pub fetched : lookup id b.proposals ≡ some p → WriteTx.get_proposal (new_write_tx b) id ≡ ok p
  unfolding WriteTx.get_proposal get_proposal lookup
  fetched stored = rw stored refl

  stored_again :
      lookup id b.proposals ≡ some p
      → q.id ≡ id
      → id ≢ ""
      → is_terminal p.state ≡ false
      → put_proposal (new_write_tx b) q
        ≡ ok (record (new_write_tx b) { prop_over = insert id (some q) [] })
  unfolding put_proposal
  stored_again stored own named free = ground (arith, eq_iff id "")

  -- A proposal that may still move is not frozen, so the write goes through.
  transition_tx-ok :
      lookup id b.proposals ≡ some p
      → p.id ≡ id
      → id ≢ ""
      → transition p to actor ts reason ≡ ok q
      → transition_tx writing id to actor ts reason (new_write_tx b)
        ≡ ok (q, record (new_write_tx b) { prop_over = insert id (some q) [] })
  unfolding transition_tx
  transition_tx-ok stored own named moved =
      let f = transition-facts moved in
      rw (fetched stored, moved, stored_again stored (f.0 ∙ own) named f.1) refl

pub got_stored :
    (b : State) (id : EntityId) (p : Proposal)
    → get_proposal b id ≡ ok p
    → lookup id b.proposals ≡ some p
unfolding get_proposal
got_stored b id p h = ground arith

commit_state-IsMoved :
    (b : State) (id : EntityId) (q : Proposal) (v : Version)
    → IsMoved b id q
        (commit_state (record (new_write_tx b) { prop_over = insert id (some q) [] }) v)
unfolding commit_state insert
commit_state-IsMoved b id q v = (
  lookup-insert id id q b.proposals ∙ rw ((eq_iff id id).1 refl) refl,
  λ j other. ground (arith, lookup-insert id j q b.proposals, eq_iff id j),
  refl,
  refl,
  refl,
)

-- On an open store, moving a stored proposal by a step that Transition carries out succeeds: the
-- call returns the proposal that Transition gives, the next version holds it under its id, and all
-- other proposals, the persons, the relationships and the sources stay as they are.
pub transition_in_store-moves :
    (s : Store) (id : EntityId) (to : ProposalState) (actor : String) (ts : ℤ) (reason : String)
    (p q : Proposal)
    → s.closed ≡ false
    → get_proposal s.current id ≡ ok p
    → p.id ≡ id
    → id ≢ ""
    → transition p to actor ts reason ≡ ok q
    → let r = transition_in_store store s id to actor ts reason in
      (r.0 ≡ ok q) × IsMoved s.current id q r.1.current
unfolding transition_in_store result_of
transition_in_store-moves s id to actor ts reason p q open_ got own named moved =
    let f = transition_tx writing id to actor ts reason in
    let run =
      transition_tx-ok s.current id to actor ts reason p q (got_stored s.current id p got) own named
        moved in
    let w = record (new_write_tx s.current) { prop_over = insert id (some q) [] } in
    (
      rw (update-ok s f q w open_ run) refl,
      rw (result_of-state (update s f), (update-fields s f q w open_ run).0)
          (commit_state-IsMoved s.current id q (next_version s.current.version)),
    )
