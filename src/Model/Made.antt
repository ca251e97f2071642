-- ===== src/Model/Made.antt =====
-- The values of model that its constructors make.
use linea_core.Prelude.{◌≤◌, ◌≡◌, ◌⊎◌, String, Bool, All}
use linea_core.Prelude.Int.{ℤ}
use linea_core.Errors.{ok}
use linea_core.Model.Ids.{EntityId, parse_id}
use linea_core.Model.Name.{Name, NameType, new_name}
use linea_core.Model.TimeRange.{
  TimeRange, YearBound, Calendar, unknown_year, known_year_bound, no_range, new_time_range,
}
use linea_core.Model.Person.{Person, PersonOptions, new_person, new_unknown_ancestor}
use linea_core.Model.Continuity.{
  Continuity, GapGenerations, unknown_gap, known_gap, new_continuous, new_gapped,
}
use linea_core.Model.Certainty.{Certainty}
use linea_core.Model.Relationship.{
  Relationship, RelationshipType, RelationshipOptions, new_relationship,
}
use linea_core.Model.Source.{Source, SourceType, SourceOptions, new_source}
use linea_core.Model.Proposal.{
  Proposal, ProposalAction, EntityKind, ProposalOptions, ProposalTransition, new_proposal,
  with_state,
}

abbrev pub IsId : EntityId → Type 0
IsId id = (s : String) × (parse_id s ≡ ok id)

abbrev pub IsName : Name → Type 0
IsName n =
    (text : String) × (language : String) × (script : String) × (t : NameType) × (preferred : Bool)
    × (new_name text language script t preferred ≡ ok n)

abbrev pub IsBound : YearBound → Type 0
IsBound b = (b ≡ unknown_year) ⊎ ((y : ℤ) × (b ≡ known_year_bound y))

abbrev pub IsRange : TimeRange → Type 0
IsRange r =
    (r ≡ no_range)
    ⊎ ((e : YearBound) × (l : YearBound) × (c : Calendar) × (circa : Bool) × IsBound e
        × IsBound l
        × (new_time_range e l c circa ≡ ok r))

abbrev pub IsGap : GapGenerations → Type 0
IsGap g = (g ≡ unknown_gap) ⊎ ((n : ℤ) × (known_gap n ≡ ok g))

abbrev pub IsContinuity : Continuity → Type 0
IsContinuity c = (c ≡ new_continuous) ⊎ ((g : GapGenerations) × IsGap g × (c ≡ new_gapped g))

-- A person of NewUnknownAncestor, or of NewPerson out of names and ranges that were made.
pub data IsPerson (p : Person) : Type 0 where
  unknown : (id : EntityId) → IsId id → new_unknown_ancestor id ≡ ok p → IsPerson p
  known :
      (id : EntityId) (opts : PersonOptions)
      → IsId id
      → All IsName opts.names
      → IsRange opts.birth
      → IsRange opts.death
      → new_person id opts ≡ ok p
      → IsPerson p

pub record IsRelationship (r : Relationship) : Type 0 where
  pub id : EntityId
  pub from : EntityId
  pub to : EntityId
  pub type : RelationshipType
  pub certainty : Certainty
  pub continuity : Continuity
  pub opts : RelationshipOptions
  pub ids : IsId id × IsId from × IsId to × All IsId opts.sources
  pub parts : IsContinuity continuity × IsRange opts.time_range
  pub made : new_relationship id from to type certainty continuity opts ≡ ok r

abbrev pub IsSource : Source → Type 0
IsSource s =
    (id : EntityId) × (t : SourceType) × (citation : String) × (opts : SourceOptions) × IsId id
    × (new_source id t citation opts ≡ ok s)

-- An id that may be absent.
abbrev pub IsOptionalId : EntityId → Type 0
IsOptionalId id = (id ≡ "") ⊎ IsId id

-- A proposal of NewProposal, moved on any number of times to a state that its new entry names.
pub data IsProposal : Proposal → Type 0 where
  fresh :
      {p : Proposal} (id : EntityId) (action : ProposalAction) (kind : EntityKind)
      (opts : ProposalOptions)
      → IsId id
      → IsOptionalId opts.target_id
      → IsOptionalId opts.secondary_id
      → All IsId opts.sources
      → new_proposal id action kind opts ≡ ok p
      → IsProposal p
  moved :
      {p : Proposal} (h : ProposalTransition)
      → IsProposal p
      → h.from ≤ 255
      → h.to ≤ 255
      → IsProposal (with_state p h.to h)
