-- ===== src/Governance/StateMachine/Lifecycle.antt =====
-- What governance/statemachine.go promises of a proposal's life cycle.
use linea_core.Prelude.{
  ◌≡◌, ◌≢◌, ◌⊎◌, inl, inr, String, true, false, [], ◌∷◌, ◌++◌, arith, ◌↔◌, Bool-cases, string_Eq,
}
use text.Mathlib.TextEquality.{eq_iff}
use linea_core.Prelude.Int.{ℤ}
use linea_core.Errors.{
  ok, err, new, invalid_argument, immutable_terminal_proposal, invalid_transition,
}
use linea_core.Model.Proposal.{
  Proposal, ProposalState, ProposalTransition, draft, submitted, under_review, accepted, rejected,
  withdrawn, is_terminal, with_state,
}
use linea_core.Governance.StateMachine.{transition, can_transition}

-- CCGGS §8.3, the documented life cycle: Draft → Submitted → UnderReview → (Accepted | Rejected |
-- Withdrawn), and a withdrawal at any time before a terminal state.
pub data Allowed : ProposalState → ProposalState → Type 0 where
  submit : {s t : ProposalState} → s ≡ draft → t ≡ submitted → Allowed s t
  claim : {s t : ProposalState} → s ≡ submitted → t ≡ under_review → Allowed s t
  accept : {s t : ProposalState} → s ≡ under_review → t ≡ accepted → Allowed s t
  reject : {s t : ProposalState} → s ≡ under_review → t ≡ rejected → Allowed s t
  withdraw :
      {s t : ProposalState}
      → (s ≡ draft) ⊎ (s ≡ submitted) ⊎ (s ≡ under_review)
      → t ≡ withdrawn
      → Allowed s t

Allowed-can_transition : {s t : ProposalState} → Allowed s t → can_transition s t ≡ true
unfolding can_transition
Allowed-can_transition (submit p q) = rw (p, q)
Allowed-can_transition (claim p q) = rw (p, q)
Allowed-can_transition (accept p q) = rw (p, q)
Allowed-can_transition (reject p q) = rw (p, q)
Allowed-can_transition (withdraw (inl p) q) = rw (p, q)
Allowed-can_transition (withdraw (inr (inl p)) q) = rw (p, q)
Allowed-can_transition (withdraw (inr (inr p)) q) = rw (p, q)

abbrev Edge : ProposalState → ProposalState → Type 0
Edge s t =
    ((s ≡ draft) × (t ≡ submitted))
    ⊎ ((s ≡ submitted) × (t ≡ under_review))
    ⊎ ((s ≡ under_review) × (t ≡ accepted))
    ⊎ ((s ≡ under_review) × (t ≡ rejected))
    ⊎ (((s ≡ draft) ⊎ (s ≡ submitted) ⊎ (s ≡ under_review)) × (t ≡ withdrawn))

edges : (s t : ProposalState) → can_transition s t ≡ true → Edge s t
unfolding can_transition
edges s t h = ground arith

can_transition-Allowed : (s t : ProposalState) → can_transition s t ≡ true → Allowed s t
can_transition-Allowed s t h = from_edge (edges s t h)
  where
    from_edge : Edge s t → Allowed s t
    from_edge (inl e) = submit e.0 e.1
    from_edge (inr (inl e)) = claim e.0 e.1
    from_edge (inr (inr (inl e))) = accept e.0 e.1
    from_edge (inr (inr (inr (inl e)))) = reject e.0 e.1
    from_edge (inr (inr (inr (inr e)))) = withdraw e.0 e.1

-- CanTransition decides the documented life cycle: it accepts two states exactly when the life
-- cycle leads from the first to the second in one step.
pub can_transition_iff : (s t : ProposalState) → (can_transition s t ≡ true) ↔ Allowed s t
can_transition_iff s t = (can_transition-Allowed s t, Allowed-can_transition)

abbrev pub entry : ProposalState → ProposalState → String → ℤ → String → ProposalTransition
entry from to actor timestamp reason = record {
  from = from;
  to = to;
  actor = actor;
  timestamp = timestamp;
  reason = reason;
}

-- Every branch of Transition. Where the life cycle allows the step it succeeds, with the new state
-- and one more entry in the history, unless it rejects without a reason, which is an invalid
-- argument. Where the life cycle does not allow the step, a terminal proposal is reported as
-- immutable, and any other as an invalid transition.
pub transition_cases :
    (p : Proposal) (to : ProposalState) (actor : String) (ts : ℤ) (reason : String)
    → (Allowed p.state to
        → ((to ≡ rejected)
            → (reason ≡ "")
            → transition p to actor ts reason ≡ err (new invalid_argument))
          × (((to ≢ rejected) ⊎ (reason ≢ ""))
              → transition p to actor ts reason
                ≡ ok (record p {
                  state = to;
                  history = p.history ++ entry p.state to actor ts reason ∷ [];
                })))
      × (¬ Allowed p.state to
          → (is_terminal p.state ≡ true
              → transition p to actor ts reason ≡ err (new immutable_terminal_proposal))
            × (is_terminal p.state ≡ false
                → transition p to actor ts reason ≡ err (new invalid_transition)))
unfolding transition with_state
transition_cases p to actor ts reason = (
  λ a.
      let c : can_transition p.state to ≡ true = Allowed-can_transition a in
      (λ e r. rw (c, e, r), λ ne. ground (arith, ne, eq_iff reason "")),
  λ na. let c : can_transition p.state to ≡ false = refuted na in (λ t. rw (c, t), λ t. rw (c, t)),
)
  where
    refuted : ¬ Allowed p.state to → can_transition p.state to ≡ false
    refuted na = elim (Bool-cases (can_transition p.state to)) [
      | inl h ↦ absurd (na (can_transition-Allowed p.state to h))
      | inr h ↦ h
    ]
