-- ===== src/Query/Engine.antt =====
-- FindPaths of query/engine.go, over any adapter that fills the storage port. The errors that the
-- scans return are dropped, as in the code.
pub mod Found
pub mod Answers
pub mod Simple
pub mod Ranked
use linea_core.Prelude.{
  ℕ, zero, suc, Bool, true, false, not, ◌&&◌, ◌||◌, List, [], ◌∷◌, ◌++◌, map, ◌==◌, nat_Eq,
  string_Eq, exists, length, ltb, take, if◌then◌else◌,
}
use linea_core.Prelude.Int.{ℤ, pos, negsuc}
use linea_core.Errors.{
  Result, ok, err, new, invalid_argument, err_no_known_connection, ◌>>=◌, ◌>>◌, refuse_if,
}
use linea_core.Model.Ids.{EntityId, is_zero}
use linea_core.Model.Relationship.{Relationship}
use linea_core.Store.Port.{ReadTx}
use linea_core.Query.Paths.{Step, GraphPath, edge_forward, edge_reverse, path_lineage}
use linea_core.Query.Rank.{compute_aggregate, less}

pub record Options : Type 0 where
  pub max_depth : ℤ
  pub max_paths : ℤ
  pub include_affinal : Bool

abbrev pub default_max_depth : ℕ
default_max_depth = 16

-- o.maxDepth()
unfoldable pub depth_of : Options → ℕ
depth_of o = elim o.max_depth [
  | pos zero ↦ default_max_depth
  | pos (suc n) ↦ suc n
  | negsuc _ ↦ default_max_depth
]

abbrev pub step_down : EntityId → Relationship → Step
step_down node rel = record {
  relationship = rel;
  direction = edge_forward;
  from_person = node;
  to_person = rel.to;
}

abbrev pub step_up : EntityId → Relationship → Step
step_up node rel = record {
  relationship = rel;
  direction = edge_reverse;
  from_person = node;
  to_person = rel.from;
}

abbrev pub step_across : EntityId → Relationship → Step
step_across node rel = if rel.to == node then step_up node rel else step_down node rel

abbrev pub flat_map : {A B : Type 0} → (A → List B) → List A → List B
flat_map f [] = []
flat_map f (x ∷ xs) = f x ++ flat_map f xs

-- found = append(found, …), sorted stably: `x` goes before the first that it is ranked before.
abbrev pub place : {A : Type 0} → (A → A → Bool) → A → List A → List A
place before x [] = x ∷ []
place before x (y ∷ ys) =
    let rest = place before x ys in if before x y then x ∷ y ∷ ys else y ∷ rest

abbrev pub sort_from : {A : Type 0} → (A → A → Bool) → List A → List A → List A
sort_from before sorted [] = sorted
sort_from before sorted (x ∷ xs) = sort_from before (place before x sorted) xs

-- The order of the final sort.
unfoldable pub ranked_before : GraphPath → GraphPath → Bool
ranked_before p q =
    if not (p.classification == q.classification)
    then p.classification == path_lineage
    else less p q

module _ (R : ReadTx) (tx : R.Tx) where
  unfoldable pub make_path : List Step → GraphPath
  make_path steps =
      let g = compute_aggregate steps in
      record {
        steps = steps;
        certainty = g.certainty;
        total_gap = g.total_gap;
        gap_edges = g.gap_edges;
        length = g.length;
        classification = g.classification;
        graph_version = R.version tx;
      }

  module _ (opts : Options) (to : EntityId) where
    -- The edges that a person is left by, in the order of the three scans.
    unfoldable pub steps_from : EntityId → List Step
    steps_from node =
        map (step_down node) (R.iterate_children tx node).items
        ++ map (step_up node) (R.iterate_parents tx node).items
        ++ (if opts.include_affinal
            then map (step_across node) (R.iterate_marriages tx node).items
            else [])

    -- The body of the three yields. `visited` and `steps` are restored after it, so the next one
    -- sees them as they were. `go` is the recursive call.
    abbrev pub try_step :
        (List EntityId → List Step → EntityId → List (List Step))
        → List EntityId
        → List Step
        → Step
        → List (List Step)
    try_step go visited steps s =
        if exists (λ v. v == s.to_person) visited
        then []
        else if s.to_person == to
        then (steps ++ s ∷ []) ∷ []
        else go (s.to_person ∷ visited) (steps ++ s ∷ []) s.to_person

    -- The first argument is maxDepth - len(steps). What `found` holds after the call, beyond what it
    -- held before.
    unfoldable pub dfs : ℕ → List EntityId → List Step → EntityId → List (List Step)
    unfolding steps_from
    dfs zero visited steps node = []
    dfs (suc n) visited steps node =
        flat_map (try_step (λ v ss x. dfs n v ss x) visited steps) (steps_from node)

  unfoldable pub find_paths : EntityId → EntityId → Options → Result (List GraphPath)
  unfolding dfs make_path ranked_before depth_of
  find_paths from to opts = do
    refuse_if (is_zero from || is_zero to) (new invalid_argument)
    refuse_if (from == to) (new invalid_argument)
    R.get_person tx from
    R.get_person tx to
    let found = map make_path (dfs opts to (depth_of opts) (from ∷ []) [] from)
    refuse_if (length found == 0) err_no_known_connection
    let sorted = sort_from ranked_before [] found
    ok (elim opts.max_paths [ pos (suc n) ↦ take (suc n) sorted | _ ↦ sorted ])
