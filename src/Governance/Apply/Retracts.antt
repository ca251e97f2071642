-- ===== src/Governance/Apply/Retracts.antt =====
-- What accepting the retraction of a person by governance/apply.go does to store/memory.
use linea_core.Prelude.{
  ℕ, ◌≡◌, ◌≢◌, ◌⊎◌, refl, ◌∙◌, String, Bool, true, false, List, [], ◌∷◌, none, some, string_Eq,
  nat_Eq, arith, lookup, insert, lookup-insert, lookup-erase, values, keep, In, In-lookup,
  lookup-In, inl, inr,
}
use text.Mathlib.TextEquality.{eq_iff}
use linea_core.Prelude.Int.{ℤ}
use linea_core.Errors.{ok, err, new, invalid_argument}
use linea_core.Model.Ids.{EntityId, is_zero}
use linea_core.Model.Person.{Person}
use linea_core.Model.Relationship.{Relationship, is_valid}
use linea_core.Model.Proposal.{
  Proposal, ProposalState, accepted, retract, person_kind, is_terminal, with_state,
}
use linea_core.Store.Port.{Version}
use linea_core.Store.Memory.State.{
  State, get_proposal, get_person, iterate_children, iterate_parents, iterate_marriages,
  is_child_edge, is_parent_edge, is_marriage_of,
}
use linea_core.Store.Memory.WriteTx
use linea_core.Store.Memory.WriteTx.{WriteTx, new_write_tx, commit_state, apply_overlay}
use linea_core.Store.Memory.Commit.{IsWellFormed}
use linea_core.Store.Memory.{Store, store, writing, update, next_version}
use linea_core.Store.Memory.Update.{update-ok, update-fields, update_rolls_back}
use linea_core.Governance.Payload.{Unmarshal}
use linea_core.Governance.StateMachine.{transition}
use linea_core.Governance.Cycle.Graph.{In-keep}
use linea_core.Governance.Apply.{
  apply, apply_retract, retract_entity, has_incident, is_stopped, touches, accept_tx, accept,
  result_of,
}
use linea_core.Governance.Apply.Atomic.{result_of-state, fetched, transition-facts, got_stored}
use linea_core.Governance.Apply.Endpoints.{is_stopped-In}
use linea_core.Governance.Apply.Intact.{HasEndpoints}

stopped_cases : {A : Type 0} (xs : List A) → (is_stopped xs ≡ false) ⊎ ((x : A) × In x xs)
unfolding is_stopped
stopped_cases [] = inl refl
stopped_cases (x ∷ xs) = inr (x, inl refl)

-- No edge of the state touches the person.
abbrev pub IsFree : State → EntityId → Type 0
IsFree b id =
    (k : EntityId) (r : Relationship) → lookup k b.relationships ≡ some r → touches id r ≡ false

module _ (b : State) (id : EntityId) where
  has_incident-touched :
      HasEndpoints b
      → (k : EntityId) (r : Relationship) → lookup k b.relationships ≡ some r
      → touches id r ≡ true
      → has_incident writing (new_write_tx b) id ≡ true
  unfolding has_incident iterate_children iterate_parents iterate_marriages is_valid
  has_incident-touched whole k r e t =
      let all = values b.relationships in
      let i = In-lookup k r b.relationships e in
      ground (
        arith,
        (whole k r e).1,
        is_stopped-In (keep (is_child_edge id) all) r,
        is_stopped-In (keep (is_parent_edge id) all) r,
        is_stopped-In (keep (is_marriage_of id) all) r,
        (In-keep (is_child_edge id) r all).1,
        (In-keep (is_parent_edge id) r all).1,
        (In-keep (is_marriage_of id) r all).1,
      )

  -- A scan all of whose edges would touch the person meets none.
  scan_free :
      IsWellFormed b
      → IsFree b id
      → (p : Relationship → Bool) → ((r : Relationship) → p r ≡ true → touches id r ≡ true)
      → is_stopped (keep p (values b.relationships)) ≡ false
  scan_free formed free p would = elim (stopped_cases (keep p (values b.relationships))) [
    | inl h ↦ h
    | inr (r, i) ↦
        let (j, t) = (In-keep p r (values b.relationships)).0 i in
        let found =
          lookup-In (λ (x : Relationship). x.id) r b.relationships formed.relationships j in
        absurd (let f = free r.id r found in let t' = would r t in cc)
  ]

  has_incident-IsFree :
      IsWellFormed b → IsFree b id → has_incident writing (new_write_tx b) id ≡ false
  unfolding has_incident iterate_children iterate_parents iterate_marriages
  has_incident-IsFree formed free =
      rw
        (
          scan_free formed free (is_child_edge id) (λ r t. ground arith),
          scan_free formed free (is_parent_edge id) (λ r t. ground arith),
          scan_free formed free (is_marriage_of id) (λ r t. ground arith),
        )
        refl

transition-kept :
    (p q : Proposal) (to : ProposalState) (actor : String) (ts : ℤ) (reason : String)
    → transition p to actor ts reason ≡ ok q
    → (q.action ≡ p.action) × (q.entity_kind ≡ p.entity_kind) × (q.target_id ≡ p.target_id)
unfolding transition with_state
transition-kept p q to actor ts reason h = ground arith

-- The transaction that deletes the person and puts the proposal, and nothing else.
abbrev retracting : State → EntityId → EntityId → Proposal → WriteTx
retracting b id target q = record (new_write_tx b) {
  person_over = insert target none [];
  prop_over = insert id (some q) [];
}

-- The effect on the state: the person is gone, the proposal is there, and everything else is as it
-- was.
abbrev pub IsRetracted : State → EntityId → EntityId → Proposal → State → Type 0
IsRetracted b id target q b' =
    (lookup target b'.persons ≡ none)
    × ((j : EntityId) → j ≢ target → lookup j b'.persons ≡ lookup j b.persons)
    × (lookup id b'.proposals ≡ some q)
    × ((j : EntityId) → j ≢ id → lookup j b'.proposals ≡ lookup j b.proposals)
    × (b'.relationships ≡ b.relationships)
    × (b'.sources ≡ b.sources)

commit_state-IsRetracted :
    (b : State) (id target : EntityId) (q : Proposal) (v : Version)
    → IsRetracted b id target q (commit_state (retracting b id target q) v)
unfolding commit_state insert
commit_state-IsRetracted b id target q v = (
  lookup-erase target target b.persons ∙ rw ((eq_iff target target).1 refl) refl,
  λ j other. ground (arith, lookup-erase target j b.persons, eq_iff target j),
  lookup-insert id id q b.proposals ∙ rw ((eq_iff id id).1 refl) refl,
  λ j other. ground (arith, lookup-insert id j q b.proposals, eq_iff id j),
  refl,
  refl,
)

module _ (b : State) (json : Unmarshal) (fresh : EntityId) (fuel : ℕ) (q : Proposal)
    (target : EntityId) (act : q.action ≡ retract) (kind : q.entity_kind ≡ person_kind)
    (of : q.target_id ≡ target) (named : target ≢ "") where
  apply-refuses :
      has_incident writing (new_write_tx b) target ≡ true
      → apply writing json fresh fuel (new_write_tx b) q ≡ err (new invalid_argument)
  unfolding apply apply_retract retract_entity
  apply-refuses incident =
      let zero_id : is_zero target ≡ false = ground (arith, named, eq_iff target "") in
      simp (act, kind, of, zero_id, incident)

  apply-retracts :
      (person : Person)
      → get_person b target ≡ ok person
      → has_incident writing (new_write_tx b) target ≡ false
      → apply writing json fresh fuel (new_write_tx b) q
        ≡ ok (record (new_write_tx b) { person_over = insert target none [] })
  unfolding apply apply_retract retract_entity WriteTx.delete_person WriteTx.get_person lookup
  apply-retracts person there free =
      let zero_id : is_zero target ≡ false = ground (arith, named, eq_iff target "") in
      simp (act, kind, of, zero_id, free, there)

  put_proposal-retracts :
      (id : EntityId) (p : Proposal)
      → lookup id b.proposals ≡ some p
      → q.id ≡ id
      → id ≢ ""
      → is_terminal p.state ≡ false
      → WriteTx.put_proposal (record (new_write_tx b) { person_over = insert target none [] }) q
        ≡ ok (retracting b id target q)
  unfolding WriteTx.put_proposal
  put_proposal-retracts id p stored own id_named free = ground (arith, eq_iff id "")

-- On an open store of store/memory whose edges have their endpoints, take a proposal that is stored
-- under its own id, that may be accepted and that asks for the retraction of a person, whose id it
-- names. If an edge touches the person, Accept reports an invalid
-- argument, and the store is as it was. If none does, the person is there, and the state is well
-- formed, Accept succeeds: it returns the proposal that Transition gives, the next version has lost
-- the person and holds the proposal, and all else is as it was.
pub accept-retracts :
    (s : Store) (json : Unmarshal) (fresh : EntityId) (fuel : ℕ) (id : EntityId) (actor : String)
    (ts : ℤ) (p q : Proposal)
    → s.closed ≡ false
    → HasEndpoints s.current
    → get_proposal s.current id ≡ ok p
    → p.id ≡ id
    → (id ≢ "") × (p.target_id ≢ "")
    → p.action ≡ retract
    → p.entity_kind ≡ person_kind
    → transition p accepted actor ts "" ≡ ok q
    → let r = accept store s json fresh fuel id actor ts in
      ((k : EntityId) (e : Relationship)
        → lookup k s.current.relationships ≡ some e
        → touches p.target_id e ≡ true
        → r ≡ (err (new invalid_argument), s))
      × ((person : Person)
          → get_person s.current p.target_id ≡ ok person
          → IsWellFormed s.current
          → IsFree s.current p.target_id
          → (r.0 ≡ ok q) × IsRetracted s.current id p.target_id q r.1.current)
unfolding accept accept_tx result_of
accept-retracts s json fresh fuel id actor ts p q open_ whole got own named act kind moved =
    let b = s.current in
    let target = p.target_id in
    let stored = got_stored b id p got in
    let (same, free) = transition-facts b id accepted actor ts "" p q moved in
    let (act', kind', of) = transition-kept p q accepted actor ts "" moved in
    let f = accept_tx writing json fresh fuel id actor ts in
    let there = fetched b id accepted actor ts "" p q stored in
    (
      λ k e found t.
          let incident = has_incident-touched b target whole k e found t in
          let refused =
            apply-refuses b json fresh fuel q target (act' ∙ act) (kind' ∙ kind) of named.1
              incident in
          let run : f (new_write_tx b) ≡ err (new invalid_argument) =
            rw (there, moved, refused) refl in
          rw ((update_rolls_back s f (new invalid_argument)).1 open_ run) refl,
      λ person exists formed untouched.
          let none_incident = has_incident-IsFree b target formed untouched in
          let applied =
            apply-retracts b json fresh fuel q target (act' ∙ act) (kind' ∙ kind) of named.1 person
              exists none_incident in
          let put =
            put_proposal-retracts b json fresh fuel q target (act' ∙ act) (kind' ∙ kind) of named.1
              id p stored (same ∙ own) named.0 free in
          let run : f (new_write_tx b) ≡ ok (q, retracting b id target q) =
            rw (there, moved, applied, put) refl in
          let w = retracting b id target q in
          (
            rw (update-ok s f q w open_ run) refl,
            rw (result_of-state (update s f), (update-fields s f q w open_ run).0)
                (commit_state-IsRetracted b id target q (next_version b.version)),
          ),
    )
