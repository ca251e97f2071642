-- ===== src/Store/Contents.antt =====
-- What store/store.go promises of a write transaction, with no word on its representation: the
-- entities by their ids as functions, and the mutators on them.
use linea_core.Prelude.{
  Bool, true, false, not, ◌≡◌, ◌≢◌, Option, none, some, ◌==◌, string_Eq, if◌then◌else◌,
}
use linea_core.Errors.{
  Result, ok, new, Code, invalid_argument, person_not_found, relationship_not_found,
  source_not_found, immutable_terminal_proposal, ◌>>◌, refuse_if,
}
use linea_core.Model.Ids.{EntityId, is_zero}
use linea_core.Model.Person.{Person}
use linea_core.Model.Relationship.{Relationship}
use linea_core.Model.Source.{Source}
use linea_core.Model.Proposal.{Proposal, is_terminal}

pub record Contents : Type 0 where
  pub persons : EntityId → Option Person
  pub relationships : EntityId → Option Relationship
  pub sources : EntityId → Option Source
  pub proposals : EntityId → Option Proposal

abbrev pub update : {V : Type 0} → (EntityId → Option V) → EntityId → Option V → EntityId → Option V
update f k v j = if k == j then v else f j

abbrev pub is_some : {V : Type 0} → Option V → Bool
is_some none = false
is_some (some v) = true

abbrev pub require : {V : Type 0} → Option V → Code → Result (Unit {0})
require v c = refuse_if (not (is_some v)) (new c)

module _ (c : Contents) where
  abbrev pub put_person : Person → Result Contents
  put_person p = do
    refuse_if (is_zero p.id) (new invalid_argument)
    ok (record c { persons = update c.persons p.id (some p) })

  abbrev pub delete_person : EntityId → Result Contents
  delete_person id = do
    require (c.persons id) person_not_found
    ok (record c { persons = update c.persons id none })

  abbrev pub put_relationship : Relationship → Result Contents
  put_relationship r = do
    refuse_if (is_zero r.id) (new invalid_argument)
    require (c.persons r.from) person_not_found
    require (c.persons r.to) person_not_found
    ok (record c { relationships = update c.relationships r.id (some r) })

  abbrev pub delete_relationship : EntityId → Result Contents
  delete_relationship id = do
    require (c.relationships id) relationship_not_found
    ok (record c { relationships = update c.relationships id none })

  abbrev pub put_source : Source → Result Contents
  put_source s = do
    refuse_if (is_zero s.id) (new invalid_argument)
    ok (record c { sources = update c.sources s.id (some s) })

  abbrev pub delete_source : EntityId → Result Contents
  delete_source id = do
    require (c.sources id) source_not_found
    ok (record c { sources = update c.sources id none })

  -- `refused` says whether the write is refused.
  abbrev pub put_proposal : Bool → Proposal → Result Contents
  put_proposal refused p = do
    refuse_if (is_zero p.id) (new invalid_argument)
    refuse_if refused (new immutable_terminal_proposal)
    ok (record c { proposals = update c.proposals p.id (some p) })

-- The writes that the port says an adapter must refuse: those that mutate the proposal that is there,
-- if that is in a terminal state.
abbrev pub MustRefuse : Option Proposal → Proposal → Type 0
MustRefuse there p =
    (old : Proposal) × (there ≡ some old) × (is_terminal old.state ≡ true) × (old ≢ p)

-- An adapter that refuses no write but those that it must refuse, and of these exactly the ones that
-- change the state.
abbrev pub RefusesStateChanges : Option Proposal → Proposal → Bool → Type 0
RefusesStateChanges there p refused =
    (refused ≡ true → MustRefuse there p)
    × ((old : Proposal)
        → there ≡ some old
        → is_terminal old.state ≡ true
        → (old.state ≢ p.state → refused ≡ true) × (old.state ≡ p.state → refused ≡ false))
