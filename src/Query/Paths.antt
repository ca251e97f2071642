-- ===== src/Query/Paths.antt =====
-- query/path.go. Lengths and counts of steps are natural numbers.
use linea_core.Prelude.{
  ℕ, Bool, true, false, List, [], ◌∷◌, ◌==◌, nat_Eq, string_Eq, exists, if◌then◌else◌,
}
use linea_core.Prelude.Int.{ℤ}
use linea_core.Model.Ids.{EntityId}
use linea_core.Model.Certainty.{Certainty}
use linea_core.Model.Relationship.{Relationship, marriage}
use linea_core.Store.Port.{Version}

-- A uint8, as are the two types below.
abbrev pub EdgeDirection : Type 0
EdgeDirection = ℕ

abbrev pub edge_forward : EdgeDirection
edge_forward = 1

abbrev pub edge_reverse : EdgeDirection
edge_reverse = 2

pub record Step : Type 0 where
  pub relationship : Relationship
  pub direction : EdgeDirection
  pub from_person : EntityId
  pub to_person : EntityId

abbrev pub Kind : Type 0
Kind = ℕ

abbrev pub kind_lineage : Kind
kind_lineage = 1

abbrev pub kind_affinal : Kind
kind_affinal = 2

unfoldable pub kind : Step → Kind
kind s = if s.relationship.rel_type == marriage then kind_affinal else kind_lineage

abbrev pub PathClassification : Type 0
PathClassification = ℕ

abbrev pub path_lineage : PathClassification
path_lineage = 1

abbrev pub path_affinal : PathClassification
path_affinal = 2

pub record GraphPath : Type 0 where
  pub steps : List Step
  pub certainty : Certainty
  pub total_gap : ℤ
  pub gap_edges : ℕ
  pub length : ℕ
  pub classification : PathClassification
  pub graph_version : Version

unfoldable pub from : GraphPath → EntityId
from p = elim p.steps [ [] ↦ "" | s ∷ _ ↦ s.from_person ]

last_person : Step → List Step → EntityId
last_person s [] = s.to_person
last_person s (t ∷ ts) = last_person t ts

unfoldable pub to : GraphPath → EntityId
unfolding last_person
to p = elim p.steps [ [] ↦ "" | s ∷ ss ↦ last_person s ss ]

unfoldable pub passes_through : GraphPath → EntityId → Bool
passes_through p id = elim p.steps [
  | [] ↦ false
  | s ∷ ss ↦ if s.from_person == id then true else exists (λ t. t.to_person == id) (s ∷ ss)
]
