-- ===== src/Governance/Apply/Merged.antt =====
-- What a merge of governance/apply.go leaves in store/memory.
use linea_core.Prelude.{
  ℕ, ◌≡◌, refl, sym, ap, ◌∙◌, String, false, List, [], ◌∷◌, none, some, ◌==◌, string_Eq, nat_Eq,
  arith, lookup, values, keep, Bool-cases, inl, inr, if◌then◌else◌, ◌||◌,
}
use mathlib.Core.Path.{subst}
use linea_core.Prelude.Int.{ℤ}
use linea_core.Errors.{Error, Result, Result-cases, ok, new, invalid_argument, refuse_if}
use linea_core.Errors.Ensures.{Ensures, ensures_rules, Ensures-bind, Ensures-ok}
use linea_core.Model.Ids.{EntityId, is_zero}
use linea_core.Model.Relationship.{Relationship}
use linea_core.Model.Proposal.{Proposal, ProposalState, accepted, merge, with_state}
use linea_core.Store.Memory.State.{State, iterate_relationships}
use linea_core.Store.Memory.State
use linea_core.Store.Memory.WriteTx
use linea_core.Store.Memory.WriteTx.{WriteTx, Overlay, new_write_tx, commit_state, read_through}
use linea_core.Store.Memory.Effects.{
  put_relationship-ok, delete_relationship-ok, delete_person-ok, put_proposal-ok,
}
use linea_core.Store.Memory.Refines.{contents, seen-insert}
use linea_core.Store.Memory.Commit.{commit-lookup}
use linea_core.Store.Memory.Writes.{Writes, begin}
use linea_core.Store.Memory.{Store, store, writing, update}
use linea_core.Store.Memory.Update.{update_rolls_back, update-fields, next_state}
use linea_core.Governance.Payload.{Unmarshal}
use linea_core.Governance.StateMachine.{transition}
use linea_core.Governance.Apply.{
  apply, apply_merge, accept_tx, accept, touches, merge_edge, merge_edges, result_of,
}
use linea_core.Store.Port.{Version}
use linea_core.Governance.Apply.Atomic.{result_of-state}
use linea_core.Governance.Apply.Sound.{accept_tx-Writes}
use linea_core.Governance.Apply.Intact.{HasEndpoints, begun-IsIntact, differ}
use linea_core.Governance.Apply.Endpoints.{IsIntact}
use linea_core.Governance.Apply.Reroutes.{IsRerouted, merge_edges-IsRerouted, begun-IsRerouted}

-- A transaction on the state that has not written a person.
record IsOver (b : State) (w : WriteTx) : Type 0 where
  no_person : w.person_over ≡ []
  base : w.base ≡ b

module _ {b : State} {w : WriteTx} (h : IsOver b w) where
  put_relationship-IsOver : (r : Relationship) → Ensures (IsOver b) (WriteTx.put_relationship w r)
  put_relationship-IsOver r = record {
    at = λ x e.
        rw (put_relationship-ok w x r e).3 (record { no_person = h.no_person; base = h.base });
  }

  delete_relationship-IsOver :
      (id : EntityId) → Ensures (IsOver b) (WriteTx.delete_relationship w id)
  delete_relationship-IsOver id = record {
    at = λ x e.
        rw (delete_relationship-ok w x id e).1 (record { no_person = h.no_person; base = h.base });
  }

delete_relationship-step :
    {b : State} {w x : WriteTx} (id : EntityId)
    → IsOver b w
    → WriteTx.delete_relationship w id ≡ ok x
    → IsOver b x
delete_relationship-step id h e = (delete_relationship-IsOver h id).at _ e

merge_edge-IsOver :
    {b : State} (target secondary : EntityId) {w : WriteTx} (r : Relationship)
    → IsOver b w
    → Ensures (IsOver b) (merge_edge writing target secondary w r)
unfolding merge_edge
merge_edge-IsOver target secondary r h =
    search
      (ensures_rules, put_relationship-IsOver, delete_relationship-IsOver, delete_relationship-step)
      depth 10

merge_edges-IsOver :
    {b : State} (target secondary : EntityId) {w : WriteTx} (rs : List Relationship)
    → IsOver b w
    → Ensures (IsOver b) (merge_edges writing target secondary w rs)
unfolding merge_edges
merge_edges-IsOver target secondary {w} [] h = Ensures-ok w h
merge_edges-IsOver target secondary (r ∷ rs) h =
    Ensures-bind _ _ λ x e.
      merge_edges-IsOver target secondary rs ((merge_edge-IsOver target secondary r h).at x e)

-- The person is gone, every other one is as before, and no edge touches the person.
record IsMergedAway (b : State) (secondary : EntityId) (w : WriteTx) : Type 0 where
  persons :
      (j : EntityId)
      → (contents w).persons j ≡ (if secondary == j then none else lookup j b.persons)
  untouched :
      (k : EntityId) (r : Relationship)
      → (contents w).relationships k ≡ some r
      → touches secondary r ≡ false

delete_person-IsMergedAway :
    {b : State} {w : WriteTx} (secondary : EntityId)
    → IsOver b w
    → IsRerouted secondary [] w
    → Ensures (IsMergedAway b secondary) (WriteTx.delete_person w secondary)
unfolding lookup
delete_person-IsMergedAway {b} {w} secondary over h = record {
  at = λ x e. rw (delete_person-ok w x secondary e).1 (record {
    persons = λ j.
        ap (λ f. f j) (seen-insert w.person_over w.base.persons secondary none)
        ∙ rw (over.no_person, over.base) refl;
    untouched = λ k r found. elim (Bool-cases (touches secondary r)) [
      | inl t ↦ absurd (h.left k r found t)
      | inr f ↦ f
    ];
  });
}

put_proposal-IsMergedAway :
    {b : State} {w : WriteTx} (secondary : EntityId) (p : Proposal)
    → IsMergedAway b secondary w
    → Ensures (IsMergedAway b secondary) (WriteTx.put_proposal w p)
put_proposal-IsMergedAway {b} {w} secondary p h = record {
  at = λ x e.
      rw (put_proposal-ok w x p e).2 (record { persons = h.persons; untouched = h.untouched });
}

module _ (b : State) (intact : IsIntact (new_write_tx b)) where
  merge_edges-delete :
      (target secondary : EntityId) (e : Error) {u : Unit {0}} {x : WriteTx}
      → refuse_if (is_zero target || is_zero secondary || target == secondary) e ≡ ok u
      → merge_edges writing target secondary
          (new_write_tx b)
          (keep (touches secondary) (values b.relationships))
        ≡ ok x
      → Ensures (IsMergedAway b secondary) (WriteTx.delete_person x secondary)
  merge_edges-delete target secondary e named moved =
      let touching = keep (touches secondary) (values b.relationships) in
      delete_person-IsMergedAway secondary
        ((merge_edges-IsOver target secondary touching
            (record { no_person = refl; base = refl })).at
          _ moved)
        ((merge_edges-IsRerouted target touching (differ b intact target secondary e named)
            (begun-IsRerouted b secondary intact)).at
          _ moved)

  apply_merge-IsMergedAway :
      (p : Proposal)
      → Ensures (IsMergedAway b p.secondary_id) (apply_merge writing (new_write_tx b) p)
  unfolding apply_merge iterate_relationships
  apply_merge-IsMergedAway p = Ensures-bind _ _ λ _ named.
      Ensures-bind (WriteTx.get_person (new_write_tx b) p.target_id) _ λ _ _.
        Ensures-bind (WriteTx.get_person (new_write_tx b) p.secondary_id) _ λ _ _.
          Ensures-bind _ _ λ x moved.
            merge_edges-delete p.target_id p.secondary_id (new invalid_argument) named moved

  apply-IsMergedAway :
      (json : Unmarshal) (fresh : EntityId) (fuel : ℕ) (p : Proposal)
      → p.action ≡ merge
      → Ensures (IsMergedAway b p.secondary_id) (apply writing json fresh fuel (new_write_tx b) p)
  unfolding apply apply_merge
  apply-IsMergedAway json fresh fuel p e = rw e (apply_merge-IsMergedAway p)

transition-merge :
    (p : Proposal) {q : Proposal} (to : ProposalState) (actor : String) (ts : ℤ) (reason : String)
    → transition p to actor ts reason ≡ ok q
    → (q.action ≡ p.action) × (q.secondary_id ≡ p.secondary_id)
unfolding transition with_state
transition-merge p to actor ts reason h = ground arith

accept_tx-IsMergedAway :
    (b : State) (json : Unmarshal) (fresh : EntityId) (fuel : ℕ) (id : EntityId) (actor : String)
    (ts : ℤ) (p : Proposal)
    → IsIntact (new_write_tx b)
    → State.get_proposal b id ≡ ok p
    → p.action ≡ merge
    → Ensures
        (λ (r : Proposal × WriteTx). IsMergedAway b p.secondary_id r.1)
        (accept_tx writing json fresh fuel id actor ts (new_write_tx b))
unfolding accept_tx WriteTx.get_proposal read_through lookup
accept_tx-IsMergedAway b json fresh fuel id actor ts p intact stored is_merge = rw stored (
    Ensures-bind _ _ λ q moved. Ensures-bind _ _ λ x applied. Ensures-bind _ _ λ y put.
      let (same, secondary) = transition-merge p accepted actor ts "" moved in
      let h = (apply-IsMergedAway b intact json fresh fuel q (same ∙ is_merge)).at x applied in
      Ensures-ok (q, y)
        (subst (λ s. IsMergedAway b s y) secondary
          ((put_proposal-IsMergedAway q.secondary_id q h).at y put)))

-- What holds of every state that the function may commit holds of the current state after a
-- successful Update.
committed-current :
    {A : Type 0} (P : State → Type 0) (s : Store) (f : WriteTx → Result (A × WriteTx)) (a : A)
    → (result_of (update s f)).0 ≡ ok a
    → ((r : A × WriteTx) → f (new_write_tx s.current) ≡ ok r → P (next_state s r.1))
    → P (update s f).1.current
unfolding result_of
committed-current P s f a h holds = elim (Bool-cases s.closed) [
  | inl c ↦ absurd (let h' = rw ((update_rolls_back s f (new invalid_argument)).0 c) at h in cc)
  | inr c ↦ elim (Result-cases (f (new_write_tx s.current))) [
    | inr (e, g) ↦ absurd (let h' = rw ((update_rolls_back s f e).1 c g) at h in cc)
    | inl ((a', w), g) ↦ rw (update-fields s f a' w c g).0 (holds (a', w) g)
  ]
]

-- The person is gone from the state, every other one is as before, and no edge touches the person.
abbrev pub IsMerged : State → EntityId → State → Type 0
IsMerged b secondary b' =
    ((j : EntityId) → lookup j b'.persons ≡ (if secondary == j then none else lookup j b.persons))
    × ((k : EntityId) (r : Relationship)
        → lookup k b'.relationships ≡ some r
        → touches secondary r ≡ false)

committed-IsMerged :
    (b : State) (w : WriteTx) (v : Version) (secondary : EntityId)
    → Writes b w
    → IsMergedAway b secondary w
    → IsMerged b secondary (commit_state w v)
committed-IsMerged b w v secondary ws h = (
  λ j. (commit-lookup v j ws).0 ∙ h.persons j,
  λ k r e. h.untouched k r (sym (commit-lookup v k ws).1 ∙ e),
)

-- Where Accept on store/memory accepts a proposal to merge, in a state whose edges have their
-- endpoints, the secondary person is gone afterwards, all other persons are as they were, and no edge
-- touches the secondary person any more.
pub accept-IsMerged :
    (s : Store) (json : Unmarshal) (fresh : EntityId) (fuel : ℕ) (id : EntityId) (actor : String)
    (ts : ℤ) (p q : Proposal)
    → HasEndpoints s.current
    → State.get_proposal s.current id ≡ ok p
    → p.action ≡ merge
    → (accept store s json fresh fuel id actor ts).0 ≡ ok q
    → IsMerged s.current p.secondary_id (accept store s json fresh fuel id actor ts).1.current
unfolding accept
accept-IsMerged s json fresh fuel id actor ts p q h stored is_merge accepted_it =
    let f = accept_tx writing json fresh fuel id actor ts in
    rw (result_of-state (update s f)) (
      committed-current (IsMerged s.current p.secondary_id) s f q accepted_it λ r e.
        committed-IsMerged s.current r.1 _ p.secondary_id
          ((accept_tx-Writes begin json fresh fuel id actor ts).at r e)
          ((accept_tx-IsMergedAway s.current json fresh fuel id actor ts p
              (begun-IsIntact s.current h) stored is_merge).at
            r e))
