-- ===== src/Examples/Data.antt =====
-- model and query on single edges.
use linea_core.Prelude.{
  ℕ, ◌-◌, ◌^◌, ◌<◌, ◌≤◌, ◌≡◌, ◌⊎◌, refl, List, [], ◌∷◌, true, false, map, some, In, keep, exists,
  length, if◌then◌else◌,
}
use linea_core.Prelude.Int.{pos, negsuc, ltb_ℤ, ◌≤ℤ◌}
use linea_core.Errors.{ok, err, plain}
use linea_core.Model.Certainty.{Certainty, rank, combine_certainties}
use linea_core.Model.Certainty.Weakest.{combine_certainties_weakest}
use linea_core.Model.Continuity.{Continuity, new_gapped, gapped}
use linea_core.Model.TimeRange.{no_range}
use linea_core.Model.Relationship.{
  Relationship, RelationshipOptions, parent_child, marriage, new_relationship, gap_weight,
}
use linea_core.Model.Relationship.Validity.{
  IsLegal, built, new_relationship_cases, gap_weight_cases,
}
use linea_core.Query.Paths.{Step, GraphPath, path_lineage, path_affinal}
use linea_core.Query.Rank.{node_signature, less, compute_aggregate}
use linea_core.Query.Rank.Order.{less-IsStrictOrder}
use linea_core.Query.Rank.Aggregates.{
  certainty_of, is_gap, is_marriage, all_skipped, skipped, compute_aggregate_lem,
}
use linea_core.Examples.{edge}

combine_certainties_weakest_example :
    (d : Certainty) × (combine_certainties (3 ∷ 1 ∷ 2 ∷ []) ≡ some d)
    × In d (3 ∷ 1 ∷ 2 ∷ [])
    × ((x : Certainty) → In x (3 ∷ 1 ∷ 2 ∷ []) → rank d ≤ rank x)
combine_certainties_weakest_example = combine_certainties_weakest 3 (1 ∷ 2 ∷ [])

-- A gap of two generations.
abbrev two_missing : Continuity
two_missing = new_gapped (record { known_size = true; size = pos 2 })

abbrev opts : RelationshipOptions
opts = record { time_range = no_range; notes = ""; sources = [] }

abbrev gapped_edge : Relationship
gapped_edge = built "r" "A" "B" parent_child 2 two_missing opts

new_relationship_cases_example :
    (IsLegal "r" "A" "B" parent_child 2 two_missing
      → new_relationship "r" "A" "B" parent_child 2 two_missing opts ≡ ok gapped_edge)
    × (¬ IsLegal "r" "A" "B" parent_child 2 two_missing
        → new_relationship "r" "A" "B" parent_child 2 two_missing opts ≡ err plain)
new_relationship_cases_example = new_relationship_cases "r" "A" "B" parent_child 2 two_missing opts

gapped_edge-made : new_relationship "r" "A" "B" parent_child 2 two_missing opts ≡ ok gapped_edge
unfolding new_relationship
gapped_edge-made = refl

gap_weight_cases_example :
    (parent_child ≡ marriage → gap_weight gapped_edge ≡ pos 0)
    × (parent_child ≡ parent_child
        → ltb_ℤ (pos 2) (pos (2 ^ 63 - 1)) ≡ true
        → ◌≤ℤ◌ (pos 1) (gap_weight gapped_edge))
    × (parent_child ≡ parent_child
        → gapped ≡ gapped
        → true ≡ true
        → pos 2 ≡ pos (2 ^ 63 - 1)
        → gap_weight gapped_edge ≡ negsuc (2 ^ 63 - 1))
gap_weight_cases_example =
    gap_weight_cases "r" "A" "B" parent_child 2 two_missing opts gapped_edge gapped_edge-made

abbrev down : Step
down = record { relationship = gapped_edge; direction = 1; from_person = "A"; to_person = "B" }

abbrev further_down : Step
further_down = record {
  relationship = edge "s" "B" "C";
  direction = 1;
  from_person = "B";
  to_person = "C";
}

compute_aggregate_lem_example :
    let ss = down ∷ further_down ∷ [] in
    let g = compute_aggregate ss in
    (combine_certainties (map certainty_of ss) ≡ some g.certainty)
    × (g.gap_edges ≡ length (keep is_gap ss))
    × (g.length ≡ length ss)
    × (g.classification ≡ (if exists is_marriage ss then path_affinal else path_lineage))
    × (all_skipped ss < 2 ^ 63 → g.total_gap ≡ pos (all_skipped ss))
    × ((t : Step)
        → t.relationship.rel_type ≡ parent_child
        → is_gap t ≡ true
        → t.relationship.continuity.gap.known_size ≡ false
        → skipped t ≡ 999_999)
compute_aggregate_lem_example = compute_aggregate_lem down (further_down ∷ [])

abbrev path_of : List Step → ℕ → GraphPath
path_of steps gaps = record {
  steps = steps;
  certainty = 2;
  total_gap = pos 2;
  gap_edges = gaps;
  length = length steps;
  classification = path_lineage;
  graph_version = 1;
}

abbrev short : GraphPath
short = path_of (down ∷ []) 1

abbrev long : GraphPath
long = path_of (down ∷ further_down ∷ []) 1

abbrev gappy : GraphPath
gappy = path_of (down ∷ []) 2

less-IsStrictOrder_example :
    (less short short ≡ false)
    × (less short long ≡ true → less long gappy ≡ true → less short gappy ≡ true)
    × ((less short long ≡ true)
        ⊎ (less long short ≡ true)
        ⊎ ((short.certainty ≡ long.certainty)
            × (short.total_gap ≡ long.total_gap)
            × (short.gap_edges ≡ long.gap_edges)
            × (short.length ≡ long.length)
            × (node_signature short ≡ node_signature long)))
less-IsStrictOrder_example = less-IsStrictOrder short long gappy

ranked : less short long ≡ true
unfolding less
ranked = refl
