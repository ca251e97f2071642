-- ===== src/Governance/Apply.antt =====
-- governance/apply.go, over any adapter that fills the storage port. `json` stands for package
-- encoding/json, `fresh` for the id that package uuid would draw, and `fuel` bounds the search for
-- cycles.
pub mod Sound
pub mod NoCycles
pub mod Endpoints
pub mod Reroutes
pub mod Intact
pub mod Merged
pub mod Creates
pub mod Retracts
pub mod Atomic
pub mod Honest
pub mod Placeholders
use linea_core.Prelude.{
  ℕ, String, Bool, true, false, not, ◌&&◌, ◌||◌, List, [], ◌∷◌, Option, none, some, ◌==◌, nat_Eq,
  string_Eq, keep, if◌then◌else◌,
}
use Prim.Native.String.{◌++◌}
use linea_core.Prelude.Int.{ℤ}
use linea_core.Errors.{
  Result, ok, err, new, wrap, plain, invalid_argument, fabrication_attempt, cycle_detected, ◌>>=◌,
  ◌>>◌, refuse_if,
}
use linea_core.Model.Ids.{EntityId, is_zero}
use linea_core.Model.Name.{Name}
use linea_core.Model.Gender
use linea_core.Model.TimeRange
use linea_core.Model.Person.{Person, new_person, new_unknown_ancestor}
use linea_core.Model.Relationship.{Relationship, new_relationship, parent_child}
use linea_core.Model.Source.{Source, new_source}
use linea_core.Model.Proposal.{
  Proposal, ProposalState, submitted, under_review, accepted, rejected, withdrawn, create, update,
  retract, merge, same_as_link, person_kind, relationship_kind, source_kind,
}
use linea_core.Store.Port.{WriteTx, finish}
use linea_core.Store.Port
use linea_core.Governance.Payload.{
  Unmarshal, PayloadCreatePerson, PayloadCreateRelationship, PayloadCreateSource,
}
use linea_core.Governance.Cycle.{would_create_cycle}
use linea_core.Governance.StateMachine.{transition}
use linea_core.Governance.Build.{
  unmarshalled, choose_id, some_name, is_substantive, build_person, build_relationship,
  build_source,
}

-- The edge `r` after its endpoint `secondary` has become `target`.
abbrev pub redirect : EntityId → EntityId → EntityId → EntityId
redirect target secondary id = if id == secondary then target else id

abbrev pub touches : EntityId → Relationship → Bool
touches id r = r.from == id || r.to == id

unfoldable pub is_stopped : {A : Type 0} → List A → Bool
is_stopped [] = false
is_stopped (r ∷ rs) = true

unfoldable pub same_as_note : String → EntityId → String
same_as_note note secondary =
    let addition = "[same-as:" ++ secondary ++ "]" in
    if not (note == "") then note ++ "\n" ++ addition else addition

module _ (W : WriteTx) where
  -- The guard of a ParentChild edge.
  unfoldable pub check_cycle : ℕ → W.Tx → Relationship → Result (Unit {0})
  check_cycle fuel tx rel =
      if rel.rel_type == parent_child
      then (would_create_cycle W.read fuel tx rel.from rel.to >>= λ cyc.
          refuse_if cyc (new cycle_detected))
      else ok tt

  unfoldable pub apply_create : Unmarshal → EntityId → ℕ → W.Tx → Proposal → Result W.Tx
  apply_create json fresh fuel tx p =
      if p.entity_kind == person_kind
      then (do
        pl ← unmarshalled (json.person p.payload)
        person ← build_person fresh pl
        W.put_person tx person)
      else if p.entity_kind == relationship_kind
      then (do
        pl ← unmarshalled (json.relationship p.payload)
        rel ← build_relationship fresh pl
        check_cycle fuel tx rel
        W.put_relationship tx rel)
      else if p.entity_kind == source_kind
      then (do
        pl ← unmarshalled (json.source p.payload)
        src ← build_source fresh pl
        W.put_source tx src)
      else err (new invalid_argument)

  unfoldable pub apply_update : W.Tx → Proposal → Result W.Tx
  apply_update tx p = err (new invalid_argument)

  -- Whether an edge touches the person. Each scan leaves at its first edge, and its error is dropped.
  unfoldable pub has_incident : W.Tx → EntityId → Bool
  unfolding is_stopped
  has_incident tx id =
      is_stopped (W.iterate_children tx id).items
      || is_stopped (W.iterate_parents tx id).items
      || is_stopped (W.iterate_marriages tx id).items

  -- The switch on the kind.
  unfoldable pub retract_entity : W.Tx → Proposal → Result W.Tx
  retract_entity tx p =
      if p.entity_kind == person_kind
      then (do
        refuse_if (has_incident tx p.target_id) (new invalid_argument)
        W.delete_person tx p.target_id)
      else if p.entity_kind == relationship_kind
      then W.delete_relationship tx p.target_id
      else if p.entity_kind == source_kind
      then W.delete_source tx p.target_id
      else err (new invalid_argument)

  unfoldable pub apply_retract : W.Tx → Proposal → Result W.Tx
  apply_retract tx p = do
    refuse_if (is_zero p.target_id) (new invalid_argument)
    retract_entity tx p

  -- The body of the loop over the touching edges.
  unfoldable pub merge_edge : EntityId → EntityId → W.Tx → Relationship → Result W.Tx
  merge_edge target secondary tx r =
      let from = redirect target secondary r.from in
      let to = redirect target secondary r.to in
      if from == to then W.delete_relationship tx r.id else (do
        new_rel ←
            new_relationship r.id from to r.rel_type r.certainty r.continuity
              (record { time_range = r.time_range; notes = r.notes; sources = r.sources })
        tx' ← W.delete_relationship tx r.id
        W.put_relationship tx' new_rel)

  unfoldable pub merge_edges : EntityId → EntityId → W.Tx → List Relationship → Result W.Tx
  merge_edges target secondary tx [] = ok tx
  merge_edges target secondary tx (r ∷ rs) =
      merge_edge target secondary tx r >>= λ tx'. merge_edges target secondary tx' rs

  unfoldable pub apply_merge : W.Tx → Proposal → Result W.Tx
  apply_merge tx p = do
    let target = p.target_id
    let secondary = p.secondary_id
    refuse_if (is_zero target || is_zero secondary || target == secondary) (new invalid_argument)
    W.get_person tx target
    W.get_person tx secondary
    let scan = W.iterate_relationships tx
    touching ← finish scan.failure (keep (touches secondary) scan.items)
    tx' ← merge_edges target secondary tx touching
    W.delete_person tx' secondary

  unfoldable pub apply_same_as : W.Tx → Proposal → Result W.Tx
  apply_same_as tx p = do
    target ← W.get_person tx p.target_id
    updated ← new_person target.id (record {
      names = target.names;
      gender = target.gender;
      birth = target.birth;
      death = target.death;
      notes = same_as_note target.notes p.secondary_id;
    })
    W.put_person tx updated

  unfoldable pub apply : Unmarshal → EntityId → ℕ → W.Tx → Proposal → Result W.Tx
  apply json fresh fuel tx p =
      if p.action == create
      then apply_create json fresh fuel tx p
      else if p.action == update
      then apply_update tx p
      else if p.action == retract
      then apply_retract tx p
      else if p.action == merge
      then apply_merge tx p
      else if p.action == same_as_link
      then apply_same_as tx p
      else err (new invalid_argument)

  -- The function that Accept hands to Update.
  unfoldable pub accept_tx :
      Unmarshal → EntityId → ℕ → EntityId → String → ℤ → W.Tx → Result (Proposal × W.Tx)
  accept_tx json fresh fuel prop_id actor ts tx = do
    p ← W.get_proposal tx prop_id
    updated ← transition p accepted actor ts ""
    tx' ← apply json fresh fuel tx updated
    tx'' ← W.put_proposal tx' updated
    ok (updated, tx'')

  -- The function that transitionInStore hands to Update.
  unfoldable pub transition_tx :
      EntityId → ProposalState → String → ℤ → String → W.Tx → Result (Proposal × W.Tx)
  transition_tx prop_id to actor ts reason tx = do
    p ← W.get_proposal tx prop_id
    updated ← transition p to actor ts reason
    tx' ← W.put_proposal tx updated
    ok (updated, tx')

-- The result of a call of Update, without the version.
unfoldable pub result_of : {A B S : Type 0} → Result (A × B) × S → Result A × S
result_of (ok (a, v), s) = (ok a, s)
result_of (err e, s) = (err e, s)

module _ (S : Port.Store) where
  unfoldable pub transition_in_store :
      S.State → EntityId → ProposalState → String → ℤ → String → Result Proposal × S.State
  transition_in_store s prop_id to actor ts reason =
      result_of (S.update s (transition_tx S.writing prop_id to actor ts reason))

  unfoldable pub submit : S.State → EntityId → String → ℤ → Result Proposal × S.State
  unfolding transition_in_store
  submit s prop_id actor ts = transition_in_store s prop_id submitted actor ts ""

  unfoldable pub claim : S.State → EntityId → String → ℤ → Result Proposal × S.State
  unfolding transition_in_store
  claim s prop_id actor ts = transition_in_store s prop_id under_review actor ts ""

  unfoldable pub withdraw : S.State → EntityId → String → ℤ → String → Result Proposal × S.State
  unfolding transition_in_store
  withdraw s prop_id actor ts reason = transition_in_store s prop_id withdrawn actor ts reason

  unfoldable pub reject : S.State → EntityId → String → ℤ → String → Result Proposal × S.State
  unfolding transition_in_store
  reject s prop_id actor ts reason = transition_in_store s prop_id rejected actor ts reason

  unfoldable pub accept :
      S.State → Unmarshal → EntityId → ℕ → EntityId → String → ℤ → Result Proposal × S.State
  accept s json fresh fuel prop_id actor ts =
      result_of (S.update s (accept_tx S.writing json fresh fuel prop_id actor ts))
