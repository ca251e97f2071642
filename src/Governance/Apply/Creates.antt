-- ===== src/Governance/Apply/Creates.antt =====
-- What accepting the creation of a person by governance/apply.go does to store/memory.
use linea_core.Prelude.{
  ℕ, ◌≡◌, ◌≢◌, refl, ap, ◌∙◌, String, false, [], some, string_Eq, nat_Eq, arith, lookup, insert,
  lookup-insert,
}
use text.Mathlib.TextEquality.{eq_iff}
use linea_core.Prelude.Int.{ℤ}
use linea_core.Errors.{ok}
use linea_core.Errors.Ensures.{Ensures, ensures_rules}
use linea_core.Model.Ids.{EntityId, is_zero}
use linea_core.Model.Person.{Person, PersonOptions, new_person, new_unknown_ancestor}
use linea_core.Model.Proposal.{
  Proposal, ProposalState, accepted, create, person_kind, is_terminal, with_state,
}
use linea_core.Store.Port.{Version}
use linea_core.Store.Memory.State.{State, get_proposal}
use linea_core.Store.Memory.WriteTx
use linea_core.Store.Memory.WriteTx.{WriteTx, new_write_tx, commit_state, apply_overlay}
use linea_core.Store.Memory.{Store, store, writing, update, next_version}
use linea_core.Store.Memory.Update.{update-ok, update-fields}
use linea_core.Governance.Payload.{Unmarshal, PayloadCreatePerson}
use linea_core.Governance.Build.{build_person, unmarshalled}
use linea_core.Governance.StateMachine.{transition}
use linea_core.Governance.Apply.{apply, apply_create, accept_tx, accept, result_of}
use linea_core.Governance.Apply.Atomic.{result_of-state, fetched, transition-facts, got_stored}

IsNamed : Person → Type 0
IsNamed p = is_zero p.id ≡ false

new_person-IsNamed : (id : EntityId) (opts : PersonOptions) → Ensures IsNamed (new_person id opts)
unfolding new_person IsNamed
new_person-IsNamed id opts = record { at = λ p e. ground arith }

new_unknown_ancestor-IsNamed : (id : EntityId) → Ensures IsNamed (new_unknown_ancestor id)
unfolding new_unknown_ancestor IsNamed
new_unknown_ancestor-IsNamed id = record { at = λ p e. ground arith }

build_person-IsNamed :
    (fresh : EntityId) (pl : PayloadCreatePerson) → Ensures IsNamed (build_person fresh pl)
unfolding build_person
build_person-IsNamed fresh pl =
    search (ensures_rules, new_person-IsNamed, new_unknown_ancestor-IsNamed) depth 8

transition-kept :
    (p q : Proposal) (to : ProposalState) (actor : String) (ts : ℤ) (reason : String)
    → transition p to actor ts reason ≡ ok q
    → (q.action ≡ p.action) × (q.entity_kind ≡ p.entity_kind) × (q.payload ≡ p.payload)
unfolding transition with_state
transition-kept p q to actor ts reason h = ground arith

-- The transaction that puts the person and the proposal, and nothing else.
abbrev creating : State → EntityId → Person → Proposal → WriteTx
creating b id person q = record (new_write_tx b) {
  person_over = insert person.id (some person) [];
  prop_over = insert id (some q) [];
}

-- The effect on the state: the person and the proposal are there, and everything else is as it was.
abbrev pub IsCreated : State → EntityId → Person → Proposal → State → Type 0
IsCreated b id person q b' =
    (lookup person.id b'.persons ≡ some person)
    × ((j : EntityId) → j ≢ person.id → lookup j b'.persons ≡ lookup j b.persons)
    × (lookup id b'.proposals ≡ some q)
    × ((j : EntityId) → j ≢ id → lookup j b'.proposals ≡ lookup j b.proposals)
    × (b'.relationships ≡ b.relationships)
    × (b'.sources ≡ b.sources)

commit_state-IsCreated :
    (b : State) (id : EntityId) (person : Person) (q : Proposal) (v : Version)
    → IsCreated b id person q (commit_state (creating b id person q) v)
unfolding commit_state insert
commit_state-IsCreated b id person q v = (
  lookup-insert person.id person.id person b.persons
      ∙ rw ((eq_iff person.id person.id).1 refl) refl,
  λ j other. ground (arith, lookup-insert person.id j person b.persons, eq_iff person.id j),
  lookup-insert id id q b.proposals ∙ rw ((eq_iff id id).1 refl) refl,
  λ j other. ground (arith, lookup-insert id j q b.proposals, eq_iff id j),
  refl,
  refl,
)

module _ (b : State) (json : Unmarshal) (fresh : EntityId) (fuel : ℕ) (q : Proposal)
    (pl : PayloadCreatePerson) (person : Person) where
  apply-creates :
      q.action ≡ create
      → q.entity_kind ≡ person_kind
      → json.person q.payload ≡ some pl
      → build_person fresh pl ≡ ok person
      → apply writing json fresh fuel (new_write_tx b) q
        ≡ ok (record (new_write_tx b) { person_over = insert person.id (some person) [] })
  unfolding apply apply_create WriteTx.put_person unmarshalled IsNamed
  apply-creates act kind payload built =
      let named = (build_person-IsNamed fresh pl).at person built in
      simp (act, kind, payload, built, named)

  put_proposal-creates :
      (id : EntityId) (p : Proposal)
      → lookup id b.proposals ≡ some p
      → q.id ≡ id
      → id ≢ ""
      → is_terminal p.state ≡ false
      → WriteTx.put_proposal
          (record (new_write_tx b) { person_over = insert person.id (some person) [] })
          q
        ≡ ok (creating b id person q)
  unfolding WriteTx.put_proposal
  put_proposal-creates id p stored own named free = ground (arith, eq_iff id "")

-- On an open store of store/memory, Accept of a proposal that is stored under its own id, that may be
-- accepted and that asks for the creation of a person succeeds, where its payload can be decoded and a person can be built of it: the call
-- returns the proposal that Transition gives, the next version holds the person and the proposal under
-- their ids, and all other persons and proposals, the relationships and the sources stay as they are.
pub accept-creates :
    (s : Store) (json : Unmarshal) (fresh : EntityId) (fuel : ℕ) (id : EntityId) (actor : String)
    (ts : ℤ) (p q : Proposal) (pl : PayloadCreatePerson) (person : Person)
    → s.closed ≡ false
    → get_proposal s.current id ≡ ok p
    → p.id ≡ id
    → id ≢ ""
    → p.action ≡ create
    → p.entity_kind ≡ person_kind
    → transition p accepted actor ts "" ≡ ok q
    → json.person p.payload ≡ some pl
    → build_person fresh pl ≡ ok person
    → let r = accept store s json fresh fuel id actor ts in
      (r.0 ≡ ok q) × IsCreated s.current id person q r.1.current
unfolding accept accept_tx result_of
accept-creates s json fresh fuel id actor ts p q pl person open_ got own named act kind moved
      payload built =
    let b = s.current in
    let stored = got_stored b id p got in
    let (same, free) = transition-facts b id accepted actor ts "" p q moved in
    let (act', kind', payload') = transition-kept p q accepted actor ts "" moved in
    let applied =
      apply-creates b json fresh fuel q pl person (act' ∙ act) (kind' ∙ kind)
        (ap json.person payload' ∙ payload) built in
    let put =
      put_proposal-creates b json fresh fuel q pl person id p stored (same ∙ own) named free in
    let f = accept_tx writing json fresh fuel id actor ts in
    let run : f (new_write_tx b) ≡ ok (q, creating b id person q) =
      rw (fetched b id accepted actor ts "" p q stored, moved, applied, put) refl in
    let w = creating b id person q in
    (
      rw (update-ok s f q w open_ run) refl,
      rw (result_of-state (update s f), (update-fields s f q w open_ run).0)
          (commit_state-IsCreated b id person q (next_version b.version)),
    )
