-- ===== src/Model/Proposal.antt =====
-- model/proposal.go
use linea_core.Prelude.{
  ℕ, String, Bool, not, ◌&&◌, ◌||◌, List, [], ◌∷◌, ◌++◌, ◌==◌, nat_Eq, string_Eq, leb,
  if◌then◌else◌,
}
use linea_core.Prelude.Int.{ℤ}
use linea_core.Errors.{Result, ok, plain, ◌>>◌, refuse_if}
use linea_core.Model.Ids.{EntityId, is_zero}

-- States, actions and kinds are uint8 values, of which those named below are valid.
abbrev pub ProposalState : Type 0
ProposalState = ℕ

abbrev pub draft : ProposalState
draft = 1

abbrev pub submitted : ProposalState
submitted = 2

abbrev pub under_review : ProposalState
under_review = 3

abbrev pub accepted : ProposalState
accepted = 4

abbrev pub rejected : ProposalState
rejected = 5

abbrev pub withdrawn : ProposalState
withdrawn = 6

unfoldable pub is_valid_state : ProposalState → Bool
is_valid_state s = leb draft s && leb s withdrawn

unfoldable pub is_terminal : ProposalState → Bool
is_terminal s = s == accepted || s == rejected || s == withdrawn

abbrev pub ProposalAction : Type 0
ProposalAction = ℕ

abbrev pub create : ProposalAction
create = 1

abbrev pub update : ProposalAction
update = 2

abbrev pub retract : ProposalAction
retract = 3

abbrev pub merge : ProposalAction
merge = 4

abbrev pub same_as_link : ProposalAction
same_as_link = 5

unfoldable pub is_valid_action : ProposalAction → Bool
is_valid_action a = leb create a && leb a same_as_link

abbrev pub EntityKind : Type 0
EntityKind = ℕ

abbrev pub person_kind : EntityKind
person_kind = 1

abbrev pub relationship_kind : EntityKind
relationship_kind = 2

abbrev pub source_kind : EntityKind
source_kind = 3

unfoldable pub is_valid_kind : EntityKind → Bool
is_valid_kind k = leb person_kind k && leb k source_kind

pub record ProposalTransition : Type 0 where
  pub from : ProposalState
  pub to : ProposalState
  pub actor : String
  pub timestamp : ℤ
  pub reason : String

pub record Proposal : Type 0 where
  pub id : EntityId
  pub state : ProposalState
  pub action : ProposalAction
  pub entity_kind : EntityKind
  pub target_id : EntityId
  pub secondary_id : EntityId
  pub payload : List ℕ
  pub reason : String
  pub sources : List EntityId
  pub author : String
  pub created_at : ℤ
  pub history : List ProposalTransition

pub record ProposalOptions : Type 0 where
  pub target_id : EntityId
  pub secondary_id : EntityId
  pub payload : List ℕ
  pub reason : String
  pub sources : List EntityId
  pub author : String
  pub created_at : ℤ

-- The switch on the action.
check_targets : ProposalAction → EntityKind → ProposalOptions → Result (Unit {0})
check_targets action entity_kind opts =
    if action == update || action == retract
    then refuse_if (is_zero opts.target_id) plain
    else if action == merge || action == same_as_link
    then (do
      refuse_if (not (entity_kind == person_kind)) plain
      refuse_if (is_zero opts.target_id || is_zero opts.secondary_id) plain
      refuse_if (opts.target_id == opts.secondary_id) plain)
    else ok tt

unfoldable pub new_proposal :
    EntityId → ProposalAction → EntityKind → ProposalOptions → Result Proposal
unfolding check_targets is_valid_action is_valid_kind
new_proposal id action entity_kind opts = do
  refuse_if (is_zero id) plain
  refuse_if (not (is_valid_action action)) plain
  refuse_if (not (is_valid_kind entity_kind)) plain
  check_targets action entity_kind opts
  ok (record {
    id = id;
    state = draft;
    action = action;
    entity_kind = entity_kind;
    target_id = opts.target_id;
    secondary_id = opts.secondary_id;
    payload = opts.payload;
    reason = opts.reason;
    sources = opts.sources;
    author = opts.author;
    created_at = opts.created_at;
    history = [];
  })

-- p.WithStateUnchecked(s, tr), and withState below it.
unfoldable pub with_state : Proposal → ProposalState → ProposalTransition → Proposal
with_state p s tr = record p { state = s; history = p.history ++ tr ∷ [] }
