-- ===== src/Model/Relationship.antt =====
-- model/relationship.go
pub mod Validity
use linea_core.Prelude.{
  ℕ, String, Bool, not, ◌&&◌, ◌||◌, List, ◌==◌, nat_Eq, string_Eq, if◌then◌else◌,
}
use linea_core.Prelude.Int.{ℤ, pos, add64}
use linea_core.Errors.{Result, ok, plain, ◌>>◌, refuse_if}
use linea_core.Model.Ids.{EntityId, is_zero}
use linea_core.Model.Certainty.{Certainty}
use linea_core.Model.Certainty
use linea_core.Model.Continuity.{Continuity, is_gapped}
use linea_core.Model.Continuity
use linea_core.Model.TimeRange.{TimeRange}

-- A uint8.
abbrev pub RelationshipType : Type 0
RelationshipType = ℕ

abbrev pub parent_child : RelationshipType
parent_child = 1

abbrev pub marriage : RelationshipType
marriage = 2

unfoldable pub is_valid : RelationshipType → Bool
is_valid t = t == parent_child || t == marriage

unfoldable pub is_directed : RelationshipType → Bool
is_directed t = t == parent_child

pub record Relationship : Type 0 where
  pub id : EntityId
  pub from : EntityId
  pub to : EntityId
  pub rel_type : RelationshipType
  pub certainty : Certainty
  pub continuity : Continuity
  pub time_range : TimeRange
  pub notes : String
  pub sources : List EntityId

pub record RelationshipOptions : Type 0 where
  pub time_range : TimeRange
  pub notes : String
  pub sources : List EntityId

unfoldable pub new_relationship :
    EntityId
    → EntityId
    → EntityId
    → RelationshipType
    → Certainty
    → Continuity
    → RelationshipOptions
    → Result Relationship
unfolding is_valid Certainty.is_valid Continuity.is_valid is_gapped
new_relationship id from to rel_type cert cont opts = do
  refuse_if (is_zero id) plain
  refuse_if (is_zero from || is_zero to) plain
  refuse_if (from == to) plain
  refuse_if (not (is_valid rel_type)) plain
  refuse_if (not (Certainty.is_valid cert)) plain
  refuse_if (not (Continuity.is_valid cont)) plain
  refuse_if (is_gapped cont && not (rel_type == parent_child)) plain
  ok (record {
    id = id;
    from = from;
    to = to;
    rel_type = rel_type;
    certainty = cert;
    continuity = cont;
    time_range = opts.time_range;
    notes = opts.notes;
    sources = opts.sources;
  })

abbrev pub unknown_gap_sentinel : ℤ
unknown_gap_sentinel = pos 1_000_000

unfoldable pub gap_weight : Relationship → ℤ
unfolding is_gapped add64
gap_weight r =
    if r.rel_type == marriage
    then pos 0
    else if not (is_gapped r.continuity)
    then pos 1
    else if r.continuity.gap.known_size
    then add64 r.continuity.gap.size (pos 1)
    else unknown_gap_sentinel
