-- ===== src/Store/Memory/WriteTx.antt =====
-- store/memory/writetx.go. The embedded readTx always reads the base state; the iterators of a
-- write transaction are the embedded ones.
use linea_core.Prelude.{
  Bool, true, false, ◌&&◌, not, [], ◌∷◌, Option, none, some, ◌==◌, nat_Eq, string_Eq, Map, lookup,
  insert, erase,
}
use linea_core.Errors.{
  Result, ok, err, new, Code, person_not_found, relationship_not_found, source_not_found,
  proposal_not_found, invalid_argument, immutable_terminal_proposal, ◌>>◌, refuse_if,
}
use linea_core.Model.Ids.{EntityId, is_zero}
use linea_core.Model.Person.{Person}
use linea_core.Model.Relationship.{Relationship}
use linea_core.Model.Source.{Source}
use linea_core.Model.Proposal.{Proposal, is_terminal}
use linea_core.Store.Port.{Version}
use linea_core.Store.Memory.State.{State}
use linea_core.Store.Memory.State

-- A pending write: `none` is the nil that marks a deletion.
abbrev pub Overlay : Type 0 → Type 0
Overlay V = Map EntityId (Option V)

pub record WriteTx : Type 0 where
  pub base : State
  pub person_over : Overlay Person
  pub rel_over : Overlay Relationship
  pub src_over : Overlay Source
  pub prop_over : Overlay Proposal

abbrev pub new_write_tx : State → WriteTx
new_write_tx base = record {
  base = base;
  person_over = [];
  rel_over = [];
  src_over = [];
  prop_over = [];
}

-- The body of the four getters: a pending write hides what the base state holds.
unfoldable pub read_through : {V : Type 0} → Code → Option (Option V) → Result V → Result V
read_through c none below = below
read_through c (some none) below = err (new c)
read_through c (some (some v)) below = ok v

unfoldable pub get_person : WriteTx → EntityId → Result Person
unfolding read_through State.get_person
get_person w id =
    read_through person_not_found (lookup id w.person_over) (State.get_person w.base id)

unfoldable pub get_relationship : WriteTx → EntityId → Result Relationship
unfolding read_through State.get_relationship
get_relationship w id =
    read_through relationship_not_found (lookup id w.rel_over) (State.get_relationship w.base id)

unfoldable pub get_source : WriteTx → EntityId → Result Source
unfolding read_through State.get_source
get_source w id = read_through source_not_found (lookup id w.src_over) (State.get_source w.base id)

unfoldable pub get_proposal : WriteTx → EntityId → Result Proposal
unfolding read_through State.get_proposal
get_proposal w id =
    read_through proposal_not_found (lookup id w.prop_over) (State.get_proposal w.base id)

abbrev pub is_some : {V : Type 0} → Option V → Bool
is_some none = false
is_some (some v) = true

unfoldable pub has_person : WriteTx → EntityId → Bool
has_person w id = elim (lookup id w.person_over) [
  | some v ↦ is_some v
  | none ↦ is_some (lookup id w.base.persons)
]

unfoldable pub put_person : WriteTx → Person → Result WriteTx
put_person w p = do
  refuse_if (is_zero p.id) (new invalid_argument)
  ok (record w { person_over = insert p.id (some p) w.person_over })

unfoldable pub delete_person : WriteTx → EntityId → Result WriteTx
delete_person w id = do
  get_person w id
  ok (record w { person_over = insert id none w.person_over })

unfoldable pub put_relationship : WriteTx → Relationship → Result WriteTx
put_relationship w r = do
  refuse_if (is_zero r.id) (new invalid_argument)
  refuse_if (not (has_person w r.from)) (new person_not_found)
  refuse_if (not (has_person w r.to)) (new person_not_found)
  ok (record w { rel_over = insert r.id (some r) w.rel_over })

unfoldable pub delete_relationship : WriteTx → EntityId → Result WriteTx
delete_relationship w id = do
  get_relationship w id
  ok (record w { rel_over = insert id none w.rel_over })

unfoldable pub put_source : WriteTx → Source → Result WriteTx
put_source w s = do
  refuse_if (is_zero s.id) (new invalid_argument)
  ok (record w { src_over = insert s.id (some s) w.src_over })

unfoldable pub delete_source : WriteTx → EntityId → Result WriteTx
delete_source w id = do get_source w id; ok (record w { src_over = insert id none w.src_over })

-- The double check of PutProposal, against the base state alone.
abbrev pub is_frozen : Option Proposal → Proposal → Bool
is_frozen none p = false
is_frozen (some existing) p = is_terminal existing.state && not (existing.state == p.state)

unfoldable pub put_proposal : WriteTx → Proposal → Result WriteTx
unfolding is_terminal
put_proposal w p = do
  refuse_if (is_zero p.id) (new invalid_argument)
  refuse_if (is_frozen (lookup p.id w.base.proposals) p) (new immutable_terminal_proposal)
  ok (record w { prop_over = insert p.id (some p) w.prop_over })

unfoldable pub apply_overlay : {V : Type 0} → Map EntityId V → Overlay V → Map EntityId V
apply_overlay dst [] = dst
apply_overlay dst ((k, none) ∷ over) = apply_overlay (erase k dst) over
apply_overlay dst ((k, some v) ∷ over) = apply_overlay (insert k v dst) over

unfoldable pub commit_state : WriteTx → Version → State
unfolding apply_overlay
commit_state w version = record {
  version = version;
  persons = apply_overlay w.base.persons w.person_over;
  relationships = apply_overlay w.base.relationships w.rel_over;
  sources = apply_overlay w.base.sources w.src_over;
  proposals = apply_overlay w.base.proposals w.prop_over;
}
