-- ===== src/Explain.antt =====
-- explain/types.go and explain/explain.go, over any adapter that fills the storage port.
pub mod Edges
pub mod Weakest
use linea_core.Prelude.{
  ℕ, zero, suc, ◌+◌, Bool, true, false, List, [], ◌∷◌, Option, none, some, ◌==◌, nat_Eq, string_Eq,
  if◌then◌else◌,
}
use linea_core.Prelude.Int.{ℤ, pos}
use linea_core.Errors.{Result, ok, err, ◌>>=◌}
use linea_core.Model.Ids.{EntityId, is_zero}
use linea_core.Model.Certainty.{Certainty}
use linea_core.Model.Continuity.{Continuity, new_continuous}
use linea_core.Model.Relationship.{RelationshipType}
use linea_core.Store.Port.{ReadTx, Version}
use linea_core.Query.Paths.{Step, GraphPath, EdgeDirection, PathClassification, from, to}
use linea_core.Query.Ancestors.{CommonAncestor}

pub record EdgeExplanation : Type 0 where
  pub index : ℕ
  pub from_person : EntityId
  pub to_person : EntityId
  pub from_is_unknown_ancestor : Bool
  pub to_is_unknown_ancestor : Bool
  pub relationship_id : EntityId
  pub type : RelationshipType
  pub direction : EdgeDirection
  pub certainty : Certainty
  pub continuity : Continuity
  pub source_ids : List EntityId
  pub is_weakest_link : Bool

pub record PathExplanation : Type 0 where
  pub from : EntityId
  pub to : EntityId
  pub length : ℕ
  pub classification : PathClassification
  pub overall_certainty : Certainty
  pub total_gap_generations : ℤ
  pub gap_edge_count : ℕ
  pub edges : List EdgeExplanation
  pub graph_version : Version

pub record CommonAncestorExplanation : Type 0 where
  pub ancestor_id : EntityId
  pub ancestor_is_unknown : Bool
  pub total_generations : ℤ
  pub combined_certainty : Certainty
  pub graph_version : Version
  pub path_from_a : Option PathExplanation
  pub path_from_b : Option PathExplanation

abbrev pub nothing_explained : CommonAncestorExplanation
nothing_explained = record {
  ancestor_id = "";
  ancestor_is_unknown = false;
  total_generations = pos 0;
  combined_certainty = 0;
  graph_version = 0;
  path_from_a = none;
  path_from_b = none;
}

-- weakestIdx, where -1 is `none`: the first edge from index `i` on with the certainty.
unfoldable pub weakest_idx : Certainty → ℕ → List Step → Option ℕ
weakest_idx c i [] = none
weakest_idx c i (s ∷ ss) =
    let rest = weakest_idx c (i + 1) ss in if s.relationship.certainty == c then some i else rest

abbrev pub is_index : ℕ → Option ℕ → Bool
is_index i none = false
is_index i (some j) = i == j

module _ (R : ReadTx) (tx : R.Tx) where
  unfoldable pub is_unknown_person : EntityId → Result Bool
  is_unknown_person id = if is_zero id then ok false else R.get_person tx id >>= λ p. ok p.unknown

  unfoldable pub explain_edge : Option ℕ → ℕ → Step → Result EdgeExplanation
  unfolding is_unknown_person
  explain_edge weakest i s = do
    from_unknown ← is_unknown_person s.from_person
    to_unknown ← is_unknown_person s.to_person
    ok (record {
      index = i;
      from_person = s.from_person;
      to_person = s.to_person;
      from_is_unknown_ancestor = from_unknown;
      to_is_unknown_ancestor = to_unknown;
      relationship_id = s.relationship.id;
      type = s.relationship.rel_type;
      direction = s.direction;
      certainty = s.relationship.certainty;
      continuity = s.relationship.continuity;
      source_ids = s.relationship.sources;
      is_weakest_link = is_index i weakest;
    })

  -- The loop over the steps, from index `i` on.
  unfoldable pub explain_edges : Option ℕ → ℕ → List Step → Result (List EdgeExplanation)
  unfolding explain_edge
  explain_edges weakest i [] = ok []
  explain_edges weakest i (s ∷ ss) = do
    e ← explain_edge weakest i s
    es ← explain_edges weakest (i + 1) ss
    ok (e ∷ es)

  -- Path
  unfoldable pub explain_path : GraphPath → Result PathExplanation
  unfolding explain_edges weakest_idx from to
  explain_path p = do
    edges ← explain_edges (weakest_idx p.certainty 0 p.steps) 0 p.steps
    ok (record {
      from = from p;
      to = to p;
      length = p.length;
      classification = p.classification;
      overall_certainty = p.certainty;
      total_gap_generations = p.total_gap;
      gap_edge_count = p.gap_edges;
      edges = edges;
      graph_version = p.graph_version;
    })

  -- if len(p.Steps) > 0 { … }
  unfoldable pub explain_some : GraphPath → Result (Option PathExplanation)
  unfolding explain_path
  explain_some p = elim p.steps [ [] ↦ ok none | s ∷ ss ↦ explain_path p >>= λ x. ok (some x) ]

  -- CommonAncestor; a nil pointer is `none`.
  unfoldable pub explain_common_ancestor : Option CommonAncestor → Result CommonAncestorExplanation
  unfolding explain_some
  explain_common_ancestor none = ok nothing_explained
  explain_common_ancestor (some ca) = do
    pa ← explain_some ca.path_from_a
    pb ← explain_some ca.path_from_b
    ok (record {
      ancestor_id = ca.ancestor_id;
      ancestor_is_unknown = ca.unknown;
      total_generations = ca.total_generations;
      combined_certainty = ca.combined_certainty;
      graph_version = ca.graph_version;
      path_from_a = pa;
      path_from_b = pb;
    })
