-- ===== src/Examples/Retractions.antt =====
-- Accept of governance/apply.go on a proposal to retract A, who has an edge to B.
use linea_core.Prelude.{◌≡◌, refl, arith, [], ◌∷◌, some, true, lookup, string_Eq, nat_Eq}
use text.Mathlib.TextEquality.{eq_iff}
use linea_core.Prelude.Int.{pos}
use linea_core.Errors.{ok, err, new, invalid_argument}
use linea_core.Model.Ids.{EntityId}
use linea_core.Model.Person.{Person}
use linea_core.Model.Relationship.{Relationship}
use linea_core.Model.Proposal.{Proposal, retract, person_kind, under_review, accepted}
use linea_core.Store.Memory.State.{get_proposal, get_person}
use linea_core.Store.Memory.Commit.{IsWellFormed}
use linea_core.Store.Memory.{Store, store}
use linea_core.Governance.StateMachine.{transition}
use linea_core.Governance.StateMachine.Lifecycle.{entry}
use linea_core.Governance.Apply.{accept, touches}
use linea_core.Governance.Apply.Intact.{HasEndpoints}
use linea_core.Governance.Apply.Retracts.{IsFree, IsRetracted, accept-retracts}
use linea_core.Examples.{proposal, json}
use linea_core.Examples.Endpoints.{double_family, double_store, double_family-HasEndpoints}

abbrev no_more_a : Proposal
no_more_a = record (proposal "n" under_review retract person_kind) { target_id = "A" }

abbrev asked : Store
asked = record double_store { current = record double_family { proposals = ("n", no_more_a) ∷ [] } }

abbrev accepted_n : Proposal
accepted_n = record no_more_a {
  state = accepted;
  history = entry under_review accepted "Y" (pos 1) "" ∷ [];
}

asked-HasEndpoints : HasEndpoints asked.current
asked-HasEndpoints = double_family-HasEndpoints

stored_n : get_proposal asked.current "n" ≡ ok no_more_a
unfolding get_proposal lookup
stored_n = refl

moved_n : transition no_more_a accepted "Y" (pos 1) "" ≡ ok accepted_n
unfolding transition
moved_n = refl

accept-retracts_example :
    ((k : EntityId) (e : Relationship)
      → lookup k asked.current.relationships ≡ some e
      → touches "A" e ≡ true
      → accept store asked json "f" 9 "n" "Y" (pos 1) ≡ (err (new invalid_argument), asked))
    × ((one : Person)
        → get_person asked.current "A" ≡ ok one
        → IsWellFormed asked.current
        → IsFree asked.current "A"
        → ((accept store asked json "f" 9 "n" "Y" (pos 1)).0 ≡ ok accepted_n)
          × IsRetracted asked.current "n" "A" accepted_n
              (accept store asked json "f" 9 "n" "Y" (pos 1)).1.current)
accept-retracts_example =
    accept-retracts asked json "f" 9 "n" "Y" (pos 1) no_more_a accepted_n refl asked-HasEndpoints
      stored_n refl
      (
        λ e. absurd (ground (arith, e, eq_iff "n" "")),
        λ e. absurd (ground (arith, e, eq_iff "A" "")),
      )
      refl refl moved_n
