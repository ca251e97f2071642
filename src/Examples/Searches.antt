-- ===== src/Examples/Searches.antt =====
-- FindPaths of query/engine.go on the small family.
use linea_core.Prelude.{
  ◌≡◌, ◌≢◌, ◌⊎◌, ◌≤◌, inl, refl, false, List, [], ◌∷◌, In, length, arith, lookup, values, string_Eq,
}
use text.Mathlib.TextEquality.{eq_iff}
use linea_core.Prelude.Int.{pos}
use linea_core.Errors.{ok, err, err_no_known_connection}
use linea_core.Model.Ids.{EntityId}
use linea_core.Model.Continuity.{is_gapped}
use linea_core.Model.Relationship.{gap_weight}
use linea_core.Query.Rank.{compute_aggregate}
use linea_core.Store.Memory.State.{get_person, iterate_children, iterate_parents}
use linea_core.Store.Memory.{reading}
use linea_core.Query.Paths.{Step, GraphPath}
use linea_core.Query.Engine.{Options, find_paths, make_path, depth_of, step_down}
use linea_core.Query.Engine.Answers.{IsRoute, find_paths_answers}
use linea_core.Query.Engine.Ranked.{IsOrdered, IsOutranked, find_paths-IsOrdered}
use linea_core.Query.Engine.Simple.{IsLinked, MeetsNew, find_paths-IsLinked}
use linea_core.Examples.{person, edge, family}

abbrev pub opts : Options
opts = record { max_depth = pos 0; max_paths = pos 0; include_affinal = false }

abbrev down : Step
down = step_down "A" (edge "r" "A" "B")

abbrev the_path : GraphPath
the_path = record {
  steps = down ∷ [];
  certainty = 3;
  total_gap = pos 0;
  gap_edges = 0;
  length = 1;
  classification = 1;
  graph_version = 1;
}

a_to_b : find_paths reading family "A" "B" opts ≡ ok (the_path ∷ [])
unfolding find_paths get_person iterate_children iterate_parents values lookup compute_aggregate
    gap_weight is_gapped
a_to_b = refl

find_paths-IsLinked_example :
    IsLinked "A" (down ∷ []) "B"
    × MeetsNew ("A" ∷ []) (down ∷ [])
    × (length (down ∷ []) ≤ depth_of opts)
find_paths-IsLinked_example =
    find_paths-IsLinked reading family "A" "B" opts (the_path ∷ []) the_path a_to_b (inl refl)

a_stored : get_person family "A" ≡ ok (person "A")
unfolding get_person lookup
a_stored = refl

b_stored : get_person family "B" ≡ ok (person "B")
unfolding get_person lookup
b_stored = refl

a_and_b : (◌≢◌ {A = EntityId} "A" "") × (◌≢◌ {A = EntityId} "B" "") × (◌≢◌ {A = EntityId} "A" "B")
a_and_b = (
  λ e. absurd (ground (arith, e, eq_iff "A" "")),
  λ e. absurd (ground (arith, e, eq_iff "B" "")),
  λ e. absurd (ground (arith, e, eq_iff "A" "B")),
)

find_paths_answers_example :
    ((find_paths reading family "A" "B" opts ≡ err err_no_known_connection)
      × ((ss : List Step) → ¬ IsRoute reading family "A" "B" opts ss))
    ⊎ ((ps : List GraphPath) × (find_paths reading family "A" "B" opts ≡ ok ps)
        × ((p : GraphPath)
            → In p ps
            → (ss : List Step) × IsRoute reading family "A" "B" opts ss
              × (p ≡ make_path reading family ss))
        × (pos 0 ≡ pos 0
            → (ss : List Step) → IsRoute reading family "A" "B" opts ss
            → In (make_path reading family ss) ps))
find_paths_answers_example =
    find_paths_answers reading family "A" "B" opts (person "A") (person "B") a_and_b a_stored
      b_stored

find_paths-IsOrdered_example :
    IsOrdered (the_path ∷ [])
    × ((ss : List Step)
        → IsRoute reading family "A" "B" opts ss
        → In (make_path reading family ss) (the_path ∷ [])
          ⊎ IsOutranked (pos 0) (make_path reading family ss) (the_path ∷ []))
find_paths-IsOrdered_example =
    find_paths-IsOrdered reading family "A" "B" opts (the_path ∷ []) a_to_b
