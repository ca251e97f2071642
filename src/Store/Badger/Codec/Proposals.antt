-- ===== src/Store/Badger/Codec/Proposals.antt =====
-- Proposals on the wire of store/badger/codec.go: their history is replayed.
use linea_core.Prelude.{
  ◌≡◌, ◌≤◌, refl, ap, ◌∙◌, List, [], ◌∷◌, ◌++◌, map, arith, inl, inr, string_Eq, nat_Eq, All,
}
use linea_core.Prelude.Int.{pos, int_Eq}
use linea_core.Errors.{Result, ok, Result-cases, ◌>>=◌}
use linea_core.Errors.Ensures.{Ensures, ensures_rules}
use linea_core.Model.Ids.{EntityId}
use linea_core.Model.Proposal.{
  Proposal, ProposalState, ProposalTransition, ProposalAction, EntityKind, ProposalOptions, draft,
  is_valid_action, is_valid_kind, new_proposal, with_state,
}
use linea_core.Model.Made.{IsId, IsProposal, IsOptionalId}
use linea_core.Store.Badger.Fields.{encode_transition, read_transition, replay, force_state}
use linea_core.Store.Badger.Fields.Laws.{
  parse_id-IsId, safe_uint8-pos, parse_all-IsId, decode_optional_id-IsOptionalId,
}
use linea_core.Store.Badger.Codec.{proposal_wire, fresh_proposal, read_proposal}

replay-append :
    (p : Proposal) (hs : List ProposalTransition) (h : ProposalTransition)
    → replay p (map encode_transition (hs ++ h ∷ []))
      ≡ (replay p (map encode_transition hs) >>= λ q. replay q (encode_transition h ∷ []))
unfolding replay
replay-append p [] h = refl
replay-append p (x ∷ hs) h = elim (Result-cases (read_transition (encode_transition x))) [
  | inl (tr, e) ↦ rw e (replay-append (with_state p tr.to tr) hs h)
  | inr (e, r) ↦ rw r refl
]

replay-one :
    (q : Proposal) (h : ProposalTransition)
    → h.from ≤ 255
    → h.to ≤ 255
    → replay q (encode_transition h ∷ []) ≡ ok (with_state q h.to h)
unfolding replay encode_transition read_transition
replay-one q h f t = rw (safe_uint8-pos h.from f, safe_uint8-pos h.to t) refl

-- The static parts of a proposal's wire give it as it was made, and its history leads from there to
-- its present state.
abbrev Replays : Proposal → Type 0
Replays p =
    (f : Proposal) × (fresh_proposal (proposal_wire p) ≡ ok f)
    × (replay f (map encode_transition p.history) ≡ ok p)

proposal_built : EntityId → ProposalAction → EntityKind → ProposalOptions → Proposal
proposal_built id action kind opts = record {
  id = id;
  state = draft;
  action = action;
  entity_kind = kind;
  target_id = opts.target_id;
  secondary_id = opts.secondary_id;
  payload = opts.payload;
  reason = opts.reason;
  sources = opts.sources;
  author = opts.author;
  created_at = opts.created_at;
  history = [];
}

new_proposal-built :
    (id : EntityId) (action : ProposalAction) (kind : EntityKind) (opts : ProposalOptions)
    → Ensures (λ p. p ≡ proposal_built id action kind opts) (new_proposal id action kind opts)
unfolding new_proposal proposal_built
new_proposal-built id action kind opts = search (ensures_rules) depth 12

new_proposal-bounds :
    (id : EntityId) (action : ProposalAction) (kind : EntityKind) (opts : ProposalOptions)
    → Ensures (λ p. (action ≤ 255) × (kind ≤ 255)) (new_proposal id action kind opts)
unfolding new_proposal is_valid_action is_valid_kind
new_proposal-bounds id action kind opts = record { at = λ p h. ground arith }

fresh_proposal-built :
    (id : EntityId) (action : ProposalAction) (kind : EntityKind) (opts : ProposalOptions)
    → IsId id
    → IsOptionalId opts.target_id
    → IsOptionalId opts.secondary_id
    → All IsId opts.sources
    → action ≤ 255
    → kind ≤ 255
    → fresh_proposal (proposal_wire (proposal_built id action kind opts))
      ≡ new_proposal id action kind opts
unfolding fresh_proposal proposal_wire proposal_built
fresh_proposal-built id action kind opts i t s ss a k =
    rw
      (
        parse_id-IsId id i,
        decode_optional_id-IsOptionalId opts.target_id t,
        decode_optional_id-IsOptionalId opts.secondary_id s,
        parse_all-IsId opts.sources ss,
        safe_uint8-pos action a,
        safe_uint8-pos kind k,
      )
      refl

no_replay : (p : Proposal) → p.history ≡ [] → replay p (map encode_transition p.history) ≡ ok p
unfolding replay
no_replay p h = rw h refl

force_state-same : (p : Proposal) → force_state p (pos p.state) ≡ ok p
unfolding force_state
force_state-same p = ground arith

fresh_proposal-moved :
    (p : Proposal) (s : ProposalState) (h : ProposalTransition) {r : Result Proposal}
    → fresh_proposal (proposal_wire p) ≡ r
    → fresh_proposal (proposal_wire (with_state p s h)) ≡ r
unfolding fresh_proposal proposal_wire with_state
fresh_proposal-moved p s h e = e

wire-Replays : {p : Proposal} → IsProposal p → Replays p
unfolding with_state
wire-Replays {p} (IsProposal.fresh id action kind opts i t s ss h) =
    let same = (new_proposal-built id action kind opts).at p h in
    let (a, k) = (new_proposal-bounds id action kind opts).at p h in
    (
      p,
      ap (λ q. fresh_proposal (proposal_wire q)) same
          ∙ fresh_proposal-built id action kind opts i t s ss a k
          ∙ h,
      no_replay p (rw same (unfold proposal_built in refl)),
    )
wire-Replays (IsProposal.moved {p} h m from to) =
    let (f, made, replayed) = wire-Replays m in
    (
      f,
      fresh_proposal-moved p h.to h made,
      replay-append f p.history h ∙ rw replayed (replay-one p h from to),
    )

pub read_proposal-proposal_wire :
    (p : Proposal) → IsProposal p → read_proposal (proposal_wire p) ≡ ok p
unfolding read_proposal proposal_wire
read_proposal-proposal_wire p m =
    let (f, made, replayed) = wire-Replays m in rw (made, replayed) (force_state-same p)
