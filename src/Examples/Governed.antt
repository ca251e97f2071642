-- ===== src/Examples/Governed.antt =====
-- governance on the small family.
use linea_core.Prelude.{
  ◌≤◌, ◌≡◌, ◌≢◌, ◌⊎◌, ◌↔◌, inl, inr, refl, sym, ap, ◌∙◌, String, List, [], ◌∷◌, ◌++◌, true, false,
  arith, insert, erase, lookup, values, length, nat_Eq, string_Eq,
}
use text.Mathlib.TextEquality.{eq_iff}
use linea_core.Prelude.Int.{pos}
use linea_core.Errors.{
  ok, err, new, invalid_argument, immutable_terminal_proposal, invalid_transition,
}
use linea_core.Model.Ids.{EntityId}
use linea_core.Model.Relationship.{Relationship, new_relationship}
use linea_core.Model.Proposal.{
  Proposal, ProposalOptions, person_kind, new_proposal, is_terminal, draft, submitted, under_review,
  rejected, withdrawn, create, merge, relationship_kind, source_kind,
}
use linea_core.Store.Memory.State
use linea_core.Store.Memory.WriteTx
use linea_core.Store.Memory.State.{State, get_proposal, iterate_children, is_child_edge}
use linea_core.Store.Memory.WriteTx.{WriteTx, new_write_tx, commit_state}
use linea_core.Store.Memory.{Store, store, writing, update}
use linea_core.Governance.StateMachine.{transition, can_transition}
use linea_core.Governance.StateMachine.Lifecycle.{
  Allowed, can_transition_iff, transition_cases, entry,
}
use linea_core.Governance.StateMachine.History.{
  Reached, here, step, IsChain, intent, history-IsChain, intent-Reached,
}
use linea_core.Governance.Cycle.{would_create_cycle}
use linea_core.Governance.Cycle.Graph.{Descends, first, further, IsAcyclic}
use linea_core.Governance.Cycle.Acyclic.{IsOver, would_create_cycle_decides, extension-IsAcyclic}
use linea_core.Governance.Apply.Atomic.{IsMoved, transition_in_store-moves}
use linea_core.Governance.Apply.{
  transition_in_store, accept, accept_tx, result_of, apply, apply_merge, merge_edges, merge_edge,
}
use linea_core.Model.Person.{Person}
use linea_core.Governance.Apply.Placeholders.{IsUnfabricated, accept-IsUnfabricated}
use linea_core.Governance.Apply.NoCycles.{accept-IsAcyclic}
use linea_core.Examples.{person, edge, family, family_store, proposal, json}

can_transition_iff_example :
    (can_transition submitted under_review ≡ true) ↔ Allowed submitted under_review
can_transition_iff_example = can_transition_iff submitted under_review

abbrev drafted : Proposal
drafted = proposal "d" draft create source_kind

abbrev no_reason : String
no_reason = ""

transition_cases_example :
    (Allowed draft rejected
      → ((rejected ≡ rejected)
          → (no_reason ≡ no_reason)
          → transition drafted rejected "Y" (pos 1) no_reason ≡ err (new invalid_argument))
        × (((rejected ≢ rejected) ⊎ (no_reason ≢ no_reason))
            → transition drafted rejected "Y" (pos 1) no_reason
              ≡ ok (record drafted {
                state = rejected;
                history = [] ++ entry draft rejected "Y" (pos 1) no_reason ∷ [];
              })))
    × (¬ Allowed draft rejected
        → (is_terminal draft ≡ true
            → transition drafted rejected "Y" (pos 1) no_reason
              ≡ err (new immutable_terminal_proposal))
          × (is_terminal draft ≡ false
              → transition drafted rejected "Y" (pos 1) no_reason ≡ err (new invalid_transition)))
transition_cases_example = transition_cases drafted rejected "Y" (pos 1) no_reason

abbrev opts : ProposalOptions
opts = record {
  target_id = "";
  secondary_id = "";
  payload = [];
  reason = "";
  sources = [];
  author = "X";
  created_at = pos 0;
}

drafted-new : new_proposal "d" create source_kind opts ≡ ok drafted
unfolding new_proposal
drafted-new = refl

abbrev moved : Proposal
moved = record drafted { state = submitted; history = entry draft submitted "X" (pos 1) "" ∷ [] }

drafted-Reached : Reached drafted moved
unfolding transition
drafted-Reached = step submitted "X" (pos 1) "" here refl

history-IsChain_example : IsChain draft moved.history moved.state × (length moved.history ≤ 3)
history-IsChain_example =
    history-IsChain "d" create source_kind opts drafted moved drafted-new drafted-Reached

intent-Reached_example : intent moved ≡ intent drafted
intent-Reached_example = intent-Reached drafted-Reached

abbrev only_edge : List Relationship
only_edge = edge "r" "A" "B" ∷ []

would_create_cycle_decides_example :
    ((would_create_cycle writing.read 9 (new_write_tx family) "B" "A" ≡ ok true)
      × IsOver only_edge "B" "A")
    ⊎ ((would_create_cycle writing.read 9 (new_write_tx family) "B" "A" ≡ ok false)
        × ¬ IsOver only_edge "B" "A")
unfolding values iterate_children
would_create_cycle_decides_example =
    would_create_cycle_decides writing.read (new_write_tx family) only_edge 9 "B" "A" (λ n. refl)
      (omega arith)

no_Descends : {a b : EntityId} → ¬ Descends [] a b
no_Descends (first (r, i, pc, f, t)) = i
no_Descends (further d e) = no_Descends d

family-IsAcyclic : IsAcyclic only_edge
family-IsAcyclic =
    extension-IsAcyclic only_edge [] "A" "B"
      (λ a b (r, i, pc, f, t). elim i [
        | inl q ↦
            inr (
              sym f ∙ ap (λ (x : Relationship). x.from) q,
              sym t ∙ ap (λ (x : Relationship). x.to) q,
            )
        | inr j ↦ absurd j
      ])
      (λ a. no_Descends)
      (elim [ inl e ↦ absurd (ground (arith, eq_iff "A" "B")) | inr d ↦ no_Descends d ])

no_merge : (p : Proposal) → get_proposal family "p" ≡ ok p → p.action ≢ merge
unfolding get_proposal lookup
no_merge p e m = absurd (ground arith)

accept-IsAcyclic_example :
    IsAcyclic
      (values (accept store family_store json "f" 9 "p" "Y" (pos 1)).1.current.relationships)
unfolding values
accept-IsAcyclic_example =
    accept-IsAcyclic family_store json "f" 9 "p" "Y" (pos 1) family-IsAcyclic (omega arith) no_merge

-- A over B over C, and a proposal to merge C into A.
abbrev line_store : Store
line_store = record family_store {
  current = record family {
    persons = ("A", person "A") ∷ ("B", person "B") ∷ ("C", person "C") ∷ [];
    relationships = ("r", edge "r" "A" "B") ∷ ("s", edge "s" "B" "C") ∷ [];
    proposals =
        (
          "p",
          record (proposal "p" under_review merge person_kind) {
            target_id = "A";
            secondary_id = "C";
          },
        )
        ∷ [];
  };
}

abbrev merged_edges : List Relationship
merged_edges = values (accept store line_store json "f" 9 "p" "Y" (pos 1)).1.current.relationships

merge_run : merged_edges ≡ edge "r" "A" "B" ∷ edge "s" "B" "A" ∷ []
unfolding accept result_of update accept_tx transition apply apply_merge merge_edges merge_edge
    new_relationship values insert erase lookup commit_state WriteTx.get_proposal WriteTx.get_person
    State.iterate_relationships WriteTx.delete_relationship WriteTx.get_relationship
    WriteTx.put_relationship WriteTx.has_person WriteTx.delete_person WriteTx.put_proposal
merge_run = refl

-- Accept carries the merge out, and A is then a descendant of herself.
merge_test : Descends merged_edges "A" "A"
merge_test = rw merge_run (
    further (first (edge "r" "A" "B", inl refl, refl, refl, refl))
      (edge "s" "B" "A", inr (inl refl), refl, refl, refl))

abbrev under_way : Proposal
under_way = proposal "p" under_review create relationship_kind

abbrev given_up : Proposal
given_up = record under_way {
  state = withdrawn;
  history = entry under_review withdrawn "Y" (pos 1) "mistake" ∷ [];
}

under_way-stored : get_proposal family "p" ≡ ok under_way
unfolding get_proposal lookup
under_way-stored = refl

under_way-moves : transition under_way withdrawn "Y" (pos 1) "mistake" ≡ ok given_up
unfolding transition
under_way-moves = refl

transition_in_store-moves_example :
    ((transition_in_store store family_store "p" withdrawn "Y" (pos 1) "mistake").0 ≡ ok given_up)
    × IsMoved family "p" given_up
        (transition_in_store store family_store "p" withdrawn "Y" (pos 1) "mistake").1.current
transition_in_store-moves_example =
    transition_in_store-moves family_store "p" withdrawn "Y" (pos 1) "mistake" under_way given_up
      refl under_way-stored refl (ground (arith, eq_iff "p" "")) under_way-moves

family-IsUnfabricated : IsUnfabricated family
unfolding values
family-IsUnfabricated p (inl e) u = absurd (ground (arith, ap (λ (x : Person). x.unknown) e))
family-IsUnfabricated p (inr (inl e)) u = absurd (ground (arith, ap (λ (x : Person). x.unknown) e))
family-IsUnfabricated p (inr (inr i)) u = absurd i

accept-IsUnfabricated_example :
    IsUnfabricated (accept store family_store json "f" 9 "p" "Y" (pos 1)).1.current
accept-IsUnfabricated_example =
    accept-IsUnfabricated family_store json "f" 9 "p" "Y" (pos 1) family-IsUnfabricated
