-- ===== src/Governance/Apply/Placeholders.antt =====
-- CCGGS §5.3: a placeholder for an unknown ancestor carries no attributes. What governance/apply.go
-- writes to store/memory keeps to that.
use linea_core.Prelude.{
  ℕ, ◌≡◌, ap, String, List, [], ◌∷◌, none, some, ◌⊎◌, inl, inr, In, Map, values, insert, erase,
  string_Eq,
}
use linea_core.Prelude.Int.{ℤ}
use linea_core.Errors.{ok}
use linea_core.Errors.Ensures.{Ensures, Ensures-bind, Ensures-ok, ensures_rules}
use linea_core.Model.Ids.{EntityId}
use linea_core.Model.Person.{Person, PersonOptions, new_person}
use linea_core.Model.Relationship.{Relationship}
use linea_core.Model.Proposal.{Proposal}
use linea_core.Store.Memory.State.{State}
use linea_core.Store.Memory.WriteTx
use linea_core.Store.Memory.WriteTx.{WriteTx, Overlay, new_write_tx, commit_state, apply_overlay}
use linea_core.Store.Memory.{Store, store, writing, update}
use linea_core.Store.Memory.Update.{update-current}
use linea_core.Governance.Payload.{Unmarshal, PayloadCreatePerson}
use linea_core.Governance.Cycle.Acyclic.{In-values-insert, In-values-erase}
use linea_core.Governance.Apply.Atomic.{result_of-state}
use linea_core.Governance.Apply.{
  apply, apply_create, apply_update, apply_retract, apply_merge, apply_same_as, accept, accept_tx,
  merge_edges, merge_edge, retract_entity,
}
use linea_core.Governance.Build.{build_person}
use linea_core.Governance.Apply.Honest.{
  IsHonest, IsClean, clean_rules, new_person-IsHonest, build_person-IsHonest,
  delete_relationship-IsClean, put_proposal-IsClean,
}

-- The persons that the operations build.
built_person-IsHonest :
    {p : Person} (fresh : EntityId) (pl : PayloadCreatePerson)
    → build_person fresh pl ≡ ok p
    → IsHonest p
built_person-IsHonest fresh pl e = (build_person-IsHonest fresh pl).at _ e

noted_person-IsHonest :
    {p : Person} (id : EntityId) (opts : PersonOptions) → new_person id opts ≡ ok p → IsHonest p
noted_person-IsHonest id opts e = (new_person-IsHonest id opts).at _ e

module _ {w : WriteTx} (clean : IsClean w) (p : Proposal) where
  apply_create-IsClean :
      (json : Unmarshal) (fresh : EntityId) (fuel : ℕ)
      → Ensures IsClean (apply_create writing json fresh fuel w p)
  unfolding apply_create
  apply_create-IsClean json fresh fuel = search (clean_rules, built_person-IsHonest) depth 9

  apply_retract-IsClean : Ensures IsClean (apply_retract writing w p)
  unfolding apply_retract retract_entity
  apply_retract-IsClean = search clean_rules depth 9

  apply_same_as-IsClean : Ensures IsClean (apply_same_as writing w p)
  unfolding apply_same_as
  apply_same_as-IsClean = search (clean_rules, noted_person-IsHonest) depth 9

delete_relationship-step :
    {w x : WriteTx} (id : EntityId)
    → IsClean w
    → WriteTx.delete_relationship w id ≡ ok x
    → IsClean x
delete_relationship-step id clean e = (delete_relationship-IsClean clean id).at _ e

merge_edge-IsClean :
    (target secondary : EntityId) {w : WriteTx} (r : Relationship)
    → IsClean w
    → Ensures IsClean (merge_edge writing target secondary w r)
unfolding merge_edge
merge_edge-IsClean target secondary {w} r clean =
    search (clean_rules, delete_relationship-step) depth 9

merge_edges-IsClean :
    (target secondary : EntityId) {w : WriteTx} (rs : List Relationship)
    → IsClean w
    → Ensures IsClean (merge_edges writing target secondary w rs)
unfolding merge_edges
merge_edges-IsClean target secondary {w} [] clean = Ensures-ok w clean
merge_edges-IsClean target secondary {w} (r ∷ rs) clean = Ensures-bind _ _ λ x e.
    merge_edges-IsClean target secondary rs ((merge_edge-IsClean target secondary r clean).at x e)

merge_edges-step :
    {w x : WriteTx} (target secondary : EntityId) (rs : List Relationship)
    → IsClean w
    → merge_edges writing target secondary w rs ≡ ok x
    → IsClean x
merge_edges-step target secondary rs clean e =
    (merge_edges-IsClean target secondary rs clean).at _ e

module _ {w : WriteTx} (clean : IsClean w) where
  apply_merge-IsClean : (p : Proposal) → Ensures IsClean (apply_merge writing w p)
  unfolding apply_merge
  apply_merge-IsClean p = search (clean_rules, merge_edges-step) depth 12

  apply-IsClean :
      (json : Unmarshal) (fresh : EntityId) (fuel : ℕ) (p : Proposal)
      → Ensures IsClean (apply writing json fresh fuel w p)
  unfolding apply apply_update
  apply-IsClean json fresh fuel p =
      search
        (
          ensures_rules,
          apply_create-IsClean clean p json fresh fuel,
          apply_retract-IsClean clean p,
          apply_merge-IsClean p,
          apply_same_as-IsClean clean p,
        )
        depth 8

  apply-step :
      {x : WriteTx} (json : Unmarshal) (fresh : EntityId) (fuel : ℕ) (p : Proposal)
      → apply writing json fresh fuel w p ≡ ok x
      → IsClean x
  apply-step json fresh fuel p e = (apply-IsClean json fresh fuel p).at _ e

put_proposal-step :
    {w x : WriteTx} (p : Proposal) → IsClean w → WriteTx.put_proposal w p ≡ ok x → IsClean x
put_proposal-step p clean e = (put_proposal-IsClean clean p).at _ e

accept_tx-IsClean :
    {w : WriteTx} (json : Unmarshal) (fresh : EntityId) (fuel : ℕ) (id : EntityId) (actor : String)
    (ts : ℤ)
    → IsClean w
    → Ensures
        (λ (r : Proposal × WriteTx). IsClean r.1)
        (accept_tx writing json fresh fuel id actor ts w)
unfolding accept_tx
accept_tx-IsClean json fresh fuel id actor ts clean =
    search (ensures_rules, apply-step clean, put_proposal-step) depth 10

-- A commit shows persons of the state below and persons that were put.
In-apply_overlay :
    (p : Person) (m : Map EntityId Person) (over : Overlay Person)
    → In p (values (apply_overlay m over))
    → In p (values m) ⊎ In (some p) (values over)
unfolding apply_overlay values
In-apply_overlay p m [] i = inl i
In-apply_overlay p m ((k, none) ∷ over) i = elim (In-apply_overlay p (erase k m) over i) [
  | inl j ↦ inl (In-values-erase p k m j)
  | inr j ↦ inr (inr j)
]
In-apply_overlay p m ((k, some q) ∷ over) i = elim (In-apply_overlay p (insert k q m) over i) [
  | inl j ↦ elim (In-values-insert p q k m j) [
    | inl same ↦ inr (inl (ap some same))
    | inr old ↦ inl old
  ]
  | inr j ↦ inr (inr j)
]

-- All persons of a state are honest.
abbrev pub IsUnfabricated : State → Type 0
IsUnfabricated s = (p : Person) → In p (values s.persons) → IsHonest p

begun-IsClean : (b : State) → IsUnfabricated b → IsClean (new_write_tx b)
unfolding values
begun-IsClean b honest = record { below = honest; above = λ p i. absurd i }

-- Whatever proposal is accepted on store/memory, and whether that succeeds or fails: if every
-- placeholder for an unknown ancestor was without a name, a gender, a year and a note before, every
-- one is so afterwards.
pub accept-IsUnfabricated :
    (s : Store) (json : Unmarshal) (fresh : EntityId) (fuel : ℕ) (id : EntityId) (actor : String)
    (ts : ℤ)
    → IsUnfabricated s.current
    → IsUnfabricated (accept store s json fresh fuel id actor ts).1.current
unfolding accept commit_state
accept-IsUnfabricated s json fresh fuel id actor ts honest =
    rw (result_of-state (update s (accept_tx writing json fresh fuel id actor ts))) (
      update-current IsUnfabricated s (accept_tx writing json fresh fuel id actor ts) honest
        (λ q w e p i.
          let clean =
            (accept_tx-IsClean json fresh fuel id actor ts (begun-IsClean s.current honest)).at
              (q, w) e in
          elim (In-apply_overlay p w.base.persons w.person_over i) [
            | inl j ↦ clean.below p j
            | inr j ↦ clean.above p j
          ]))
