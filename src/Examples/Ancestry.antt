-- ===== src/Examples/Ancestry.antt =====
-- The search for common ancestors and the explanations on the small family.
use linea_core.Prelude.{
  ℕ, ◌≡◌, ◌≢◌, ◌⊎◌, ◌≤◌, refl, true, false, [], ◌∷◌, some, In, Map, lookup, insert, values,
  string_Eq,
}
use linea_core.Prelude.Int.{pos}
use linea_core.Errors.{Error, ok, err, err_no_known_connection}
use linea_core.Model.Ids.{EntityId}
use linea_core.Model.Person.{Person}
use linea_core.Model.Certainty.{rank}
use linea_core.Model.Continuity.{is_gapped, new_continuous}
use linea_core.Model.Relationship.{gap_weight}
use linea_core.Query.Rank.{compute_aggregate}
use linea_core.Store.Memory.State.{get_person, iterate_parents}
use linea_core.Store.Memory.{reading}
use linea_core.Query.Paths.{Step, GraphPath, from, to}
use linea_core.Query.Engine.{depth_of, make_path, step_up}
use linea_core.Query.Ancestors.{
  Frame, AncestorEntry, CommonAncestor, first_frame, is_cheaper, is_nearer, entry_of, self_entry,
  ancestor_paths, nearest_known_common_ancestor,
}
use linea_core.Query.Ancestors.Climbs.{Climbs}
use linea_core.Query.Ancestors.Best.{ancestor_paths_best}
use linea_core.Query.Ancestors.Nearest.{IsCandidate, IsMissing, nearest_known_common_ancestor_cases}
use linea_core.Explain.{EdgeExplanation, PathExplanation, explain_path}
use linea_core.Explain.Edges.{AreEdges, IsFlagged, IsLost, explain_path_cases}
use linea_core.Explain.Weakest.{explain_path-weakest}
use linea_core.Examples.{edge, family}
use linea_core.Examples.Searches.{opts}

abbrev rise : Step
rise = step_up "B" (edge "r" "A" "B")

abbrev way : GraphPath
way = record {
  steps = rise ∷ [];
  certainty = 3;
  total_gap = pos 0;
  gap_edges = 0;
  length = 1;
  classification = 1;
  graph_version = 1;
}

ancestor_paths_best_example :
    ((e : Error)
      → get_person family "B" ≡ err e
      → (fuel : ℕ) → ancestor_paths reading family fuel "B" opts ≡ err e)
    × ((p : Person)
        → get_person family "B" ≡ ok p
        → (out : Map EntityId AncestorEntry) × ((k : ℕ) × ((fuel : ℕ)
              → k ≤ fuel
              → ancestor_paths reading family fuel "B" opts ≡ ok out))
          × ((m : ℕ) (g : Frame)
              → Climbs reading family (first_frame "B") m g
              → m ≤ depth_of opts
              → g.id ≢ "B"
              → (e : AncestorEntry) × (lookup g.id out ≡ some e) × (is_cheaper g e ≡ false))
          × ((id : EntityId) (e : AncestorEntry)
              → lookup id out ≡ some e
              → (id ≢ "B")
                × ((m : ℕ) × (g : Frame) × (m ≤ depth_of opts)
                    × Climbs reading family (first_frame "B") m g
                    × (g.id ≡ id)
                    × (entry_of reading family g ≡ e))))
ancestor_paths_best_example = ancestor_paths_best reading family "B" opts

abbrev above_B : Map EntityId AncestorEntry
above_B = ("A", record { path = way; dist = pos 1; cert = 3 }) ∷ []

found_A : ancestor_paths reading family 5 "A" opts ≡ ok []
unfolding ancestor_paths get_person lookup iterate_parents values
found_A = refl

found_B : ancestor_paths reading family 5 "B" opts ≡ ok above_B
unfolding ancestor_paths get_person lookup iterate_parents values insert compute_aggregate
found_B = refl

abbrev all_a : Map EntityId AncestorEntry
all_a = insert "A" (self_entry reading family) []

abbrev all_b : Map EntityId AncestorEntry
all_b = insert "B" (self_entry reading family) above_B

nearest_known_common_ancestor_cases_example :
    let result = nearest_known_common_ancestor reading family 5 "A" "B" opts in
    ((best : CommonAncestor) × (result ≡ ok best)
      × IsCandidate reading family all_b all_a best
      × ((c : CommonAncestor)
          → IsCandidate reading family all_b all_a c
          → is_nearer c best ≡ false))
    ⊎ ((result ≡ err err_no_known_connection)
        × ((c : CommonAncestor) → ¬ IsCandidate reading family all_b all_a c))
    ⊎ ((e : Error) × (result ≡ err e) × IsMissing reading family all_b all_a e)
nearest_known_common_ancestor_cases_example =
    nearest_known_common_ancestor_cases reading family 5 "A" "B" opts [] above_B refl found_A
      found_B

explain_path_cases_example :
    ((x : PathExplanation) × (explain_path reading family way ≡ ok x)
      × ((x.from ≡ from way)
          × (x.to ≡ to way)
          × (x.length ≡ way.length)
          × (x.classification ≡ way.classification)
          × (x.overall_certainty ≡ way.certainty)
          × (x.total_gap_generations ≡ way.total_gap)
          × (x.gap_edge_count ≡ way.gap_edges)
          × (x.graph_version ≡ way.graph_version))
      × AreEdges reading family 0 way.steps x.edges
      × IsFlagged way.certainty x.edges)
    ⊎ ((e : Error) × (explain_path reading family way ≡ err e) × IsLost reading family way.steps e)
explain_path_cases_example = explain_path_cases reading family way

abbrev explained : PathExplanation
explained = record {
  from = "B";
  to = "A";
  length = 1;
  classification = 1;
  overall_certainty = 3;
  total_gap_generations = pos 0;
  gap_edge_count = 0;
  edges =
      record {
        index = 0;
        from_person = "B";
        to_person = "A";
        from_is_unknown_ancestor = false;
        to_is_unknown_ancestor = false;
        relationship_id = "r";
        type = 1;
        direction = 2;
        certainty = 3;
        continuity = new_continuous;
        source_ids = [];
        is_weakest_link = true;
      }
      ∷ [];
  graph_version = 1;
}

way_explained : explain_path reading family (make_path reading family (rise ∷ [])) ≡ ok explained
unfolding explain_path make_path get_person lookup compute_aggregate gap_weight is_gapped
way_explained = refl

explain_path-weakest_example :
    (e : EdgeExplanation) × In e explained.edges
    × (e.is_weakest_link ≡ true)
    × ((f : EdgeExplanation) → In f explained.edges → rank e.certainty ≤ rank f.certainty)
explain_path-weakest_example = explain_path-weakest reading family rise [] explained way_explained
