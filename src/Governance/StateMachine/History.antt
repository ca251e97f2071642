-- ===== src/Governance/StateMachine/History.antt =====
-- The audit history that governance/statemachine.go leaves behind in a proposal.
use linea_core.Prelude.{
  ℕ, ◌≤◌, ◌+◌, ◌≡◌, ◌==◌, nat_Eq, if◌then◌else◌, ap, ◌∙◌, refl, String, List, [], ◌∷◌, ◌++◌, arith,
  length, inl, inr, Bool-cases,
}
use linea_core.Prelude.Int.{ℤ}
use linea_core.Errors.{ok}
use linea_core.Model.Ids.{EntityId}
use linea_core.Model.Proposal.{
  Proposal, ProposalState, ProposalTransition, ProposalAction, EntityKind, ProposalOptions, draft,
  submitted, under_review, with_state, new_proposal,
}
use linea_core.Governance.StateMachine.{transition, can_transition}
use linea_core.Governance.StateMachine.Lifecycle.{
  Allowed, submit, claim, accept, reject, withdraw, can_transition_iff, entry,
}

-- The proposals that successful calls of Transition make out of one.
pub data Reached (p : Proposal) : Proposal → Type 0 where
  here : Reached p p
  step :
      {q r : Proposal} (to : ProposalState) (actor : String) (ts : ℤ) (reason : String)
      → Reached p q
      → transition q to actor ts reason ≡ ok r
      → Reached p r

-- The entries lead from state `s` to state `t`, each by a step of the life cycle.
abbrev pub IsChain : ProposalState → List ProposalTransition → ProposalState → Type 0
IsChain s [] t = s ≡ t
IsChain s (h ∷ hs) t = (h.from ≡ s) × Allowed s h.to × IsChain h.to hs t

IsChain-snoc :
    (s : ProposalState) (hs : List ProposalTransition) (t : ProposalState) (h : ProposalTransition)
    → IsChain s hs t
    → h.from ≡ t
    → Allowed t h.to
    → IsChain s (hs ++ h ∷ []) h.to
IsChain-snoc s [] t h c e a = rw c (e, a, refl)
IsChain-snoc s (x ∷ hs) t h c e a = (c.0, c.1, IsChain-snoc x.to hs t h c.2 e a)

-- How many steps a state can still make at most.
level : ProposalState → ℕ
level s = if s == draft then 3 else if s == submitted then 2 else if s == under_review then 1 else 0

level-draft : level draft ≡ 3
unfolding level
level-draft = refl

level-Allowed : {s t : ProposalState} → Allowed s t → level t + 1 ≤ level s
unfolding level
level-Allowed (submit p q) = rw (p, q) (omega arith)
level-Allowed (claim p q) = rw (p, q) (omega arith)
level-Allowed (accept p q) = rw (p, q) (omega arith)
level-Allowed (reject p q) = rw (p, q) (omega arith)
level-Allowed (withdraw (inl p) q) = rw (p, q) (omega arith)
level-Allowed (withdraw (inr (inl p)) q) = rw (p, q) (omega arith)
level-Allowed (withdraw (inr (inr p)) q) = rw (p, q) (omega arith)

length-level :
    (s : ProposalState) (hs : List ProposalTransition) (t : ProposalState)
    → IsChain s hs t
    → length hs + level t ≤ level s
length-level s [] t c = rw c (omega arith)
length-level s (h ∷ hs) t c = omega (arith, length-level h.to hs t c.2, level-Allowed c.1)

-- What a successful Transition gives.
transition-ok :
    (p q : Proposal) (to : ProposalState) (actor : String) (ts : ℤ) (reason : String)
    → transition p to actor ts reason ≡ ok q
    → Allowed p.state to
      × (q ≡ record p { state = to; history = p.history ++ entry p.state to actor ts reason ∷ [] })
unfolding transition with_state
transition-ok p q to actor ts reason h = elim (Bool-cases (can_transition p.state to)) [
  | inl c ↦ ((can_transition_iff p.state to).0 c, ground arith)
  | inr c ↦ absurd (ground arith)
]

step-IsChain :
    (p q : Proposal) (to : ProposalState) (actor : String) (ts : ℤ) (reason : String)
    → transition p to actor ts reason ≡ ok q
    → IsChain draft p.history p.state
    → IsChain draft q.history q.state
step-IsChain p q to actor ts reason h c =
    let f = transition-ok p q to actor ts reason h in
    rw f.1 (IsChain-snoc draft p.history p.state (entry p.state to actor ts reason) c refl f.0)

Reached-IsChain :
    {p q : Proposal}
    → IsChain draft p.history p.state
    → Reached p q
    → IsChain draft q.history q.state
Reached-IsChain c here = c
Reached-IsChain c (step {q} {r} to actor ts reason e h) =
    step-IsChain q r to actor ts reason h (Reached-IsChain c e)

new_proposal-start :
    (id : EntityId) (a : ProposalAction) (k : EntityKind) (opts : ProposalOptions) (p : Proposal)
    → new_proposal id a k opts ≡ ok p
    → (p.history ≡ []) × (p.state ≡ draft)
unfolding new_proposal
new_proposal-start id a k opts p h = ground arith

-- However a proposal was moved on from its creation, its history is a walk of the documented life
-- cycle from Draft to its present state, without gaps, and has at most three entries.
pub history-IsChain :
    (id : EntityId) (a : ProposalAction) (k : EntityKind) (opts : ProposalOptions) (p q : Proposal)
    → new_proposal id a k opts ≡ ok p
    → Reached p q
    → IsChain draft q.history q.state × (length q.history ≤ 3)
history-IsChain id a k opts p q h r =
    let start = new_proposal-start id a k opts p h in
    let first : IsChain draft p.history p.state = rw (start.0, start.1) refl in
    let c = Reached-IsChain first r in
    (c, omega (arith, length-level draft q.history q.state c, level-draft))

-- The intent of a proposal: all but its state and its history.
abbrev pub intent : Proposal → Proposal
intent p = record p { state = draft; history = [] }

-- Moving a proposal on changes its state and its history and nothing else.
pub intent-Reached : {p q : Proposal} → Reached p q → intent q ≡ intent p
intent-Reached here = refl
intent-Reached {p} (step {q} {r} to actor ts reason e h) =
    ap intent (transition-ok q r to actor ts reason h).1 ∙ intent-Reached e
