-- ===== src/Governance/Payload.antt =====
-- The payload types of governance/apply.go, and what the code asks of package encoding/json.
-- PayloadRetract has no field, and no code reads it.
use linea_core.Prelude.{ℕ, String, Bool, List, Option}
use linea_core.Model.Ids.{EntityId}
use linea_core.Model.Name.{Name}
use linea_core.Model.Gender.{Gender}
use linea_core.Model.TimeRange.{TimeRange}
use linea_core.Model.Certainty.{Certainty}
use linea_core.Model.Continuity.{Continuity}
use linea_core.Model.Relationship.{RelationshipType}
use linea_core.Model.Source.{SourceType}

pub record PayloadCreatePerson : Type 0 where
  pub new_id : EntityId
  pub names : List Name
  pub gender : Gender
  pub birth : TimeRange
  pub death : TimeRange
  pub notes : String
  pub unknown_ancestor : Bool

pub record PayloadCreateRelationship : Type 0 where
  pub new_id : EntityId
  pub from : EntityId
  pub to : EntityId
  pub type : RelationshipType
  pub certainty : Certainty
  pub continuity : Continuity
  pub time_range : TimeRange
  pub notes : String
  pub sources : List EntityId

pub record PayloadCreateSource : Type 0 where
  pub new_id : EntityId
  pub type : SourceType
  pub citation : String
  pub author : String
  pub title : String
  pub date : String
  pub locator : String
  pub notes : String

-- json.Unmarshal at the three payload types; `none` is its error.
pub record Unmarshal : Type 0 where
  pub person : List ℕ → Option PayloadCreatePerson
  pub relationship : List ℕ → Option PayloadCreateRelationship
  pub source : List ℕ → Option PayloadCreateSource
