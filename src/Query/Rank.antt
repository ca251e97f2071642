-- ===== src/Query/Rank.antt =====
-- query/rank.go
pub mod Order
pub mod Aggregates
use Prim.Native.Char.{code}
use Prim.Native.String.{String}
use linea_core.Prelude.{
  ℕ, ◌+◌, Bool, true, false, not, List, [], ◌∷◌, map, foldl, length, ltb, ◌==◌, nat_Eq, string_Eq,
  if◌then◌else◌,
}
use linea_core.Prelude.Int.{ℤ, pos, ltb_ℤ, int_Eq, add64, sub64}
use linea_core.Model.Ids.{EntityId}
use linea_core.Model.Certainty.{Certainty, certain, rank}
use linea_core.Model.Continuity.{is_gapped}
use linea_core.Model.Relationship.{parent_child, marriage, gap_weight}
use linea_core.Query.Paths.{Step, GraphPath, PathClassification, path_lineage, path_affinal}

-- Go's `<` on strings: that of their UTF-8 bytes, which is that of their code points.
unfoldable pub text_less : String → String → Bool
text_less String.[] String.[] = false
text_less String.[] (String.◌∷◌ d t) = true
text_less (String.◌∷◌ c s) String.[] = false
text_less (String.◌∷◌ c s) (String.◌∷◌ d t) =
    let rest = text_less s t in
    if ltb (code c) (code d) then true else if code c == code d then rest else false

unfoldable pub node_signature : GraphPath → List EntityId
node_signature p = elim p.steps [
  | [] ↦ []
  | s ∷ ss ↦ s.from_person ∷ map (λ t. t.to_person) (s ∷ ss)
]

-- The loop over two signatures and the comparison of their lengths below it.
unfoldable pub signature_less : List EntityId → List EntityId → Bool
unfolding text_less
signature_less [] [] = false
signature_less [] (b ∷ qs) = true
signature_less (a ∷ ps) [] = false
signature_less (a ∷ ps) (b ∷ qs) =
    let rest = signature_less ps qs in if not (a == b) then text_less a b else rest

unfoldable pub less : GraphPath → GraphPath → Bool
unfolding signature_less node_signature
less a b =
    if not (rank a.certainty == rank b.certainty)
    then ltb (rank b.certainty) (rank a.certainty)
    else if not (a.total_gap == b.total_gap)
    then ltb_ℤ a.total_gap b.total_gap
    else if not (a.gap_edges == b.gap_edges)
    then ltb a.gap_edges b.gap_edges
    else if not (a.length == b.length)
    then ltb a.length b.length
    else signature_less (node_signature a) (node_signature b)

-- The results of computeAggregate, which are the variables of its loop.
pub record Aggregate : Type 0 where
  pub certainty : Certainty
  pub total_gap : ℤ
  pub gap_edges : ℕ
  pub length : ℕ
  pub classification : PathClassification

-- The body of the loop. `length` is not touched.
unfoldable pub aggregate_step : Aggregate → Step → Aggregate
aggregate_step g s =
    let c = s.relationship.certainty in
    let weight = gap_weight s.relationship in
    record {
      certainty = if ltb (rank c) (rank g.certainty) then c else g.certainty;
      total_gap =
          if s.relationship.rel_type == parent_child
          then (if ltb_ℤ (pos 1) weight
              then add64 g.total_gap (sub64 weight (pos 1))
              else g.total_gap)
          else g.total_gap;
      gap_edges = if is_gapped s.relationship.continuity then g.gap_edges + 1 else g.gap_edges;
      length = g.length;
      classification =
          if s.relationship.rel_type == marriage then path_affinal else g.classification;
    }

unfoldable pub compute_aggregate : List Step → Aggregate
unfolding aggregate_step
compute_aggregate [] = record {
  certainty = certain;
  total_gap = pos 0;
  gap_edges = 0;
  length = 0;
  classification = path_lineage;
}
compute_aggregate (s ∷ ss) =
    foldl aggregate_step
      (record {
        certainty = s.relationship.certainty;
        total_gap = pos 0;
        gap_edges = 0;
        length = length (s ∷ ss);
        classification = path_lineage;
      })
      (s ∷ ss)
