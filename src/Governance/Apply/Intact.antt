-- ===== src/Governance/Apply/Intact.antt =====
-- Accept of governance/apply.go leaves no edge of store/memory without its endpoints.
use linea_core.Prelude.{
  ℕ, ◌≡◌, inl, inr, sym, ap, ◌∙◌, String, Bool, true, false, ◌||◌, [], some, ◌==◌, string_Eq,
  nat_Eq, arith, lookup, values, keep, Bool-cases,
}
use linea_core.Prelude.Int.{ℤ}
use linea_core.Errors.{Error, ok, new, invalid_argument, refuse_if}
use linea_core.Errors.Ensures.{Ensures, ensures_rules, Ensures-bind}
use linea_core.Model.Ids.{EntityId, is_zero}
use linea_core.Model.Relationship.{Relationship, is_valid}
use linea_core.Model.Proposal.{Proposal}
use linea_core.Store.Port.{Version}
use linea_core.Store.Contents.{is_some}
use linea_core.Store.Memory.State.{State, iterate_relationships}
use linea_core.Store.Memory.WriteTx
use linea_core.Store.Memory.WriteTx.{WriteTx, new_write_tx, commit_state}
use linea_core.Store.Memory.Commit.{commit-lookup}
use linea_core.Store.Memory.Writes.{Writes, begin}
use linea_core.Store.Memory.{Store, store, writing, update}
use linea_core.Store.Memory.Update.{update-current}
use linea_core.Governance.Payload.{Unmarshal, PayloadCreateRelationship}
use linea_core.Governance.Build.{build_relationship, choose_id}
use linea_core.Governance.Apply.{
  apply, apply_create, apply_update, apply_retract, apply_merge, apply_same_as, accept_tx, accept,
  retract_entity, has_incident, touches, merge_edges,
}
use linea_core.Governance.Apply.Atomic.{result_of-state}
use linea_core.Governance.Apply.Sound.{accept_tx-Writes}
use linea_core.Governance.Apply.Endpoints.{
  IsIntact, put_person-IsIntact, delete_person-IsIntact, put_relationship-IsIntact,
  delete_relationship-IsIntact, put_source-IsIntact, delete_source-IsIntact, put_proposal-IsIntact,
  has_incident-touches,
}
use linea_core.Governance.Apply.Reroutes.{
  IsRerouted, new_relationship-parts, merge_edges-IsRerouted, begun-IsRerouted,
}

build_relationship-valid :
    (fresh : EntityId) (pl : PayloadCreateRelationship) {r : Relationship}
    → build_relationship fresh pl ≡ ok r
    → is_valid r.rel_type ≡ true
unfolding build_relationship
build_relationship-valid fresh pl h =
    (new_relationship-parts (choose_id fresh pl.new_id) pl.from pl.to pl.type pl.certainty
      pl.continuity (record { time_range = pl.time_range; notes = pl.notes; sources = pl.sources })
      h).0

passed : (c : Bool) (e : Error) {u : Unit {0}} → refuse_if c e ≡ ok u → c ≡ false
passed c e h = ground arith

module _ (b : State) (intact : IsIntact (new_write_tx b)) where
  apply_create-IsIntact :
      (json : Unmarshal) (fresh : EntityId) (fuel : ℕ) (p : Proposal)
      → Ensures IsIntact (apply_create writing json fresh fuel (new_write_tx b) p)
  unfolding apply_create
  apply_create-IsIntact json fresh fuel p =
      search
        (
          ensures_rules,
          put_person-IsIntact intact,
          put_source-IsIntact intact,
          put_relationship-IsIntact intact,
          build_relationship-valid,
        )
        depth 10

  delete_person-guarded :
      (k : EntityId) (e : Error) {u : Unit {0}}
      → refuse_if (has_incident writing (new_write_tx b) k) e ≡ ok u
      → Ensures IsIntact (WriteTx.delete_person (new_write_tx b) k)
  delete_person-guarded k e h =
      delete_person-IsIntact intact k (has_incident-touches b k intact (passed _ e h))

  retract_entity-IsIntact :
      (p : Proposal) → Ensures IsIntact (retract_entity writing (new_write_tx b) p)
  unfolding retract_entity
  retract_entity-IsIntact p =
      search
        (
          ensures_rules,
          delete_person-guarded,
          delete_source-IsIntact intact,
          delete_relationship-IsIntact intact,
        )
        depth 10

  apply_retract-IsIntact :
      (p : Proposal) → Ensures IsIntact (apply_retract writing (new_write_tx b) p)
  unfolding apply_retract
  apply_retract-IsIntact p = Ensures-bind _ _ λ _ _. retract_entity-IsIntact p

  apply_same_as-IsIntact :
      (p : Proposal) → Ensures IsIntact (apply_same_as writing (new_write_tx b) p)
  unfolding apply_same_as
  apply_same_as-IsIntact p = search (ensures_rules, put_person-IsIntact intact) depth 10

  -- The last step of a merge, once no edge touches the person.
  delete_rerouted :
      {w : WriteTx} (secondary : EntityId)
      → IsRerouted secondary [] w
      → Ensures IsIntact (WriteTx.delete_person w secondary)
  delete_rerouted secondary h = delete_person-IsIntact h.intact secondary λ id r e.
      elim (Bool-cases (touches secondary r)) [ inl t ↦ absurd (h.left id r e t) | inr f ↦ f ]

  pub differ :
      (target secondary : EntityId) (e : Error) {u : Unit {0}}
      → refuse_if (is_zero target || is_zero secondary || target == secondary) e ≡ ok u
      → target == secondary ≡ false
  differ target secondary e h = ground arith

  merge_edges-delete :
      (target secondary : EntityId) (e : Error) {u : Unit {0}} {x : WriteTx}
      → refuse_if (is_zero target || is_zero secondary || target == secondary) e ≡ ok u
      → merge_edges writing target secondary
          (new_write_tx b)
          (keep (touches secondary) (values b.relationships))
        ≡ ok x
      → Ensures IsIntact (WriteTx.delete_person x secondary)
  merge_edges-delete target secondary e named moved = delete_rerouted secondary (
      (merge_edges-IsRerouted target (keep (touches secondary) (values b.relationships))
          (differ target secondary e named) (begun-IsRerouted b secondary intact)).at
        _ moved)

  apply_merge-IsIntact : (p : Proposal) → Ensures IsIntact (apply_merge writing (new_write_tx b) p)
  unfolding apply_merge iterate_relationships
  apply_merge-IsIntact p = Ensures-bind _ _ λ _ named.
      Ensures-bind (WriteTx.get_person (new_write_tx b) p.target_id) _ λ _ _.
        Ensures-bind (WriteTx.get_person (new_write_tx b) p.secondary_id) _ λ _ _.
          Ensures-bind _ _ λ x moved.
            merge_edges-delete p.target_id p.secondary_id (new invalid_argument) named moved

  apply-IsIntact :
      (json : Unmarshal) (fresh : EntityId) (fuel : ℕ) (p : Proposal)
      → Ensures IsIntact (apply writing json fresh fuel (new_write_tx b) p)
  unfolding apply apply_update
  apply-IsIntact json fresh fuel p =
      search
        (
          ensures_rules,
          apply_create-IsIntact json fresh fuel p,
          apply_retract-IsIntact p,
          apply_merge-IsIntact p,
          apply_same_as-IsIntact p,
        )
        depth 8

  apply-step :
      {x : WriteTx} (json : Unmarshal) (fresh : EntityId) (fuel : ℕ) (p : Proposal)
      → apply writing json fresh fuel (new_write_tx b) p ≡ ok x
      → IsIntact x
  apply-step json fresh fuel p e = (apply-IsIntact json fresh fuel p).at _ e

  put_proposal-step :
      {w x : WriteTx} (p : Proposal) → IsIntact w → WriteTx.put_proposal w p ≡ ok x → IsIntact x
  put_proposal-step p h e = (put_proposal-IsIntact h p).at _ e

  accept_tx-IsIntact :
      (json : Unmarshal) (fresh : EntityId) (fuel : ℕ) (id : EntityId) (actor : String) (ts : ℤ)
      → Ensures
          (λ (r : Proposal × WriteTx). IsIntact r.1)
          (accept_tx writing json fresh fuel id actor ts (new_write_tx b))
  unfolding accept_tx
  accept_tx-IsIntact json fresh fuel id actor ts =
      search (ensures_rules, apply-step, put_proposal-step) depth 10

-- Every edge of the state stands under its own id, is of a kind that exists, and both its persons
-- are there.
abbrev pub HasEndpoints : State → Type 0
HasEndpoints s =
    (id : EntityId) (r : Relationship)
    → lookup id s.relationships ≡ some r
    → (r.id ≡ id)
      × (is_valid r.rel_type ≡ true)
      × (is_some (lookup r.from s.persons) ≡ true)
      × (is_some (lookup r.to s.persons) ≡ true)

pub begun-IsIntact : (b : State) → HasEndpoints b → IsIntact (new_write_tx b)
unfolding lookup
begun-IsIntact b h = record { whole = record { at = h } }

committed-HasEndpoints :
    {b : State} {w : WriteTx} (v : Version)
    → Writes b w
    → IsIntact w
    → HasEndpoints (commit_state w v)
committed-HasEndpoints {b} {w} v ws intact id r e =
    let c = commit-lookup v id ws in
    let (same, valid, from, to) = intact.whole.at id r (sym c.1 ∙ e) in
    (
      same,
      valid,
      ap is_some (commit-lookup v r.from ws).0 ∙ from,
      ap is_some (commit-lookup v r.to ws).0 ∙ to,
    )

-- Whatever proposal is accepted on store/memory, a merge included, and whether that succeeds or
-- fails: if every edge stood under its own id, was a ParentChild or a marriage edge, and had both its
-- persons in the store before, every edge does so afterwards.
pub accept-HasEndpoints :
    (s : Store) (json : Unmarshal) (fresh : EntityId) (fuel : ℕ) (id : EntityId) (actor : String)
    (ts : ℤ)
    → HasEndpoints s.current
    → HasEndpoints (accept store s json fresh fuel id actor ts).1.current
unfolding accept
accept-HasEndpoints s json fresh fuel id actor ts h =
    rw (result_of-state (update s (accept_tx writing json fresh fuel id actor ts))) (
      update-current HasEndpoints s (accept_tx writing json fresh fuel id actor ts) h (λ q w e.
        committed-HasEndpoints _ ((accept_tx-Writes begin json fresh fuel id actor ts).at (q, w) e)
          ((accept_tx-IsIntact s.current (begun-IsIntact s.current h) json fresh fuel id actor
              ts).at
            (q, w) e)))
