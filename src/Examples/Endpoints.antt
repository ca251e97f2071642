-- ===== src/Examples/Endpoints.antt =====
-- Accept of governance/apply.go on a family in which A, who has an edge to B, is merged into C.
use linea_core.Prelude.{
  ◌≡◌, refl, sym, true, false, [], ◌∷◌, arith, lookup, insert, erase, values, string_Eq, nat_Eq,
}
use mathlib.Core.Path.{subst}
use linea_core.Store.Contents.{is_some}
use text.Mathlib.TextEquality.{eq_iff}
use linea_core.Prelude.Int.{pos}
use linea_core.Model.Relationship.{is_valid}
use linea_core.Model.Proposal.{Proposal, merge, person_kind, under_review, accepted}
use linea_core.Store.Memory.State.{State}
use linea_core.Store.Memory.State
use linea_core.Store.Memory.{Store, store}
use linea_core.Errors.{ok}
use linea_core.Store.Memory.WriteTx
use linea_core.Store.Memory.WriteTx.{commit_state}
use linea_core.Store.Memory.{update}
use linea_core.Model.Relationship.{new_relationship}
use linea_core.Governance.StateMachine.{transition}
use linea_core.Governance.StateMachine.Lifecycle.{entry}
use linea_core.Governance.Apply.Merged.{IsMerged, accept-IsMerged}
use linea_core.Governance.Apply.{
  accept, result_of, accept_tx, apply, apply_merge, merge_edges, merge_edge,
}
use linea_core.Governance.Apply.Intact.{HasEndpoints, accept-HasEndpoints}
use linea_core.Examples.{person, edge, proposal, json}

abbrev pub a_into_c : Proposal
a_into_c = record (proposal "m" under_review merge person_kind) {
  target_id = "C";
  secondary_id = "A";
}

abbrev pub double_family : State
double_family = record {
  version = 1;
  persons = ("A", person "A") ∷ ("B", person "B") ∷ ("C", person "C") ∷ [];
  relationships = ("r", edge "r" "A" "B") ∷ [];
  sources = [];
  proposals = ("m", a_into_c) ∷ [];
}

abbrev pub double_store : Store
double_store = record {
  current = double_family;
  history = (1, double_family) ∷ [];
  max_keep = 0;
  closed = false;
}

pub double_family-HasEndpoints : HasEndpoints double_family
unfolding lookup is_valid
double_family-HasEndpoints id r e =
    let found : (id ≡ "r") × (edge "r" "A" "B" ≡ r) = ground (arith, eq_iff "r" id) in
    subst
      (λ x.
        (x.id ≡ id)
        × (is_valid x.rel_type ≡ true)
        × (is_some (lookup x.from double_family.persons) ≡ true)
        × (is_some (lookup x.to double_family.persons) ≡ true))
      found.1 (sym found.0, refl, refl, refl)

accept-HasEndpoints_example :
    HasEndpoints (accept store double_store json "f" 9 "m" "Y" (pos 1)).1.current
accept-HasEndpoints_example =
    accept-HasEndpoints double_store json "f" 9 "m" "Y" (pos 1) double_family-HasEndpoints

abbrev merged_a : Proposal
merged_a = record a_into_c {
  state = accepted;
  history = entry under_review accepted "Y" (pos 1) "" ∷ [];
}

merge_accepted : (accept store double_store json "f" 9 "m" "Y" (pos 1)).0 ≡ ok merged_a
unfolding accept result_of update accept_tx transition apply apply_merge merge_edges merge_edge
    new_relationship values insert erase lookup commit_state WriteTx.get_proposal WriteTx.get_person
    State.iterate_relationships WriteTx.delete_relationship WriteTx.get_relationship
    WriteTx.put_relationship WriteTx.has_person WriteTx.delete_person WriteTx.put_proposal
merge_accepted = refl

a_into_c-stored : State.get_proposal double_family "m" ≡ ok a_into_c
unfolding State.get_proposal lookup
a_into_c-stored = refl

accept-IsMerged_example :
    IsMerged double_family "A" (accept store double_store json "f" 9 "m" "Y" (pos 1)).1.current
accept-IsMerged_example =
    accept-IsMerged double_store json "f" 9 "m" "Y" (pos 1) a_into_c merged_a
      double_family-HasEndpoints a_into_c-stored refl merge_accepted
