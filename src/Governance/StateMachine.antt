-- ===== src/Governance/StateMachine.antt =====
-- governance/statemachine.go
pub mod Lifecycle
pub mod History
use linea_core.Prelude.{
  String, Bool, true, false, not, ◌&&◌, ◌||◌, ◌==◌, nat_Eq, string_Eq, if◌then◌else◌,
}
use linea_core.Prelude.Int.{ℤ}
use linea_core.Errors.{
  Result, ok, err, new, immutable_terminal_proposal, invalid_transition, invalid_argument,
}
use linea_core.Model.Proposal.{
  Proposal, ProposalState, draft, submitted, under_review, accepted, rejected, withdrawn,
  is_valid_state, is_terminal, with_state,
}

-- allowedTransitions[from][to]; a missing key reads as false.
allowed_transitions : ProposalState → ProposalState → Bool
allowed_transitions from to =
    if from == draft
    then to == submitted || to == withdrawn
    else if from == submitted
    then to == under_review || to == withdrawn
    else if from == under_review
    then to == accepted || to == rejected || to == withdrawn
    else false

unfoldable pub can_transition : ProposalState → ProposalState → Bool
unfolding allowed_transitions is_valid_state is_terminal
can_transition from to =
    if not (is_valid_state from) || not (is_valid_state to)
    then false
    else if is_terminal from
    then false
    else allowed_transitions from to

unfoldable pub transition : Proposal → ProposalState → String → ℤ → String → Result Proposal
unfolding can_transition is_terminal with_state
transition p to actor timestamp reason =
    if not (can_transition p.state to)
    then if is_terminal p.state
      then err (new immutable_terminal_proposal)
      else err (new invalid_transition)
    else if to == rejected && reason == ""
    then err (new invalid_argument)
    else ok (
        with_state p to (record {
          from = p.state;
          to = to;
          actor = actor;
          timestamp = timestamp;
          reason = reason;
        }))
