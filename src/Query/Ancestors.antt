-- ===== src/Query/Ancestors.antt =====
-- ancestorPaths and NearestKnownCommonAncestor of query/engine.go, over any adapter that fills the
-- storage port. A Go map is an association list: iteration has one of the orders that Go allows.
pub mod Climbs
pub mod Best
pub mod Nearest
use linea_core.Prelude.{
  ℕ, zero, suc, Bool, true, false, not, ◌&&◌, ◌||◌, List, [], ◌∷◌, ◌++◌, map, Option, none, some,
  ◌==◌, nat_Eq, string_Eq, length, ltb, Map, lookup, insert, if◌then◌else◌,
}
use linea_core.Prelude.Int.{ℤ, pos, ltb_ℤ, int_Eq, add64}
use linea_core.Errors.{
  Result, ok, err, new, invalid_argument, err_no_known_connection, out_of_fuel, ◌>>=◌, ◌>>◌,
  refuse_if,
}
use linea_core.Model.Ids.{EntityId}
use linea_core.Model.Certainty.{Certainty, certain, rank, min_certainty}
use linea_core.Model.Continuity.{is_gapped}
use linea_core.Model.Relationship.{Relationship, gap_weight}
use linea_core.Store.Port.{ReadTx, Version}
use linea_core.Query.Paths.{Step, GraphPath}
use linea_core.Query.Rank.{text_less}
use linea_core.Query.Engine.{Options, depth_of, step_up, make_path}

pub record CommonAncestor : Type 0 where
  pub ancestor_id : EntityId
  pub unknown : Bool
  pub path_from_a : GraphPath
  pub path_from_b : GraphPath
  pub combined_certainty : Certainty
  pub total_generations : ℤ
  pub graph_version : Version

pub record AncestorEntry : Type 0 where
  pub path : GraphPath
  pub dist : ℤ
  pub cert : Certainty

pub record Frame : Type 0 where
  pub id : EntityId
  pub steps : List Step
  pub dist : ℤ
  pub cert : Certainty

abbrev pub first_frame : EntityId → Frame
first_frame from = record { id = from; steps = []; dist = pos 0; cert = certain }

unfoldable pub weight : Relationship → ℤ
unfolding is_gapped gap_weight add64
weight rel =
    if is_gapped rel.continuity
    then (if rel.continuity.gap.known_size
        then add64 (pos 1) rel.continuity.gap.size
        else gap_weight rel)
    else pos 1

unfoldable pub next_frame : Frame → Relationship → Frame
unfolding weight add64 min_certainty
next_frame f rel = record {
  id = rel.from;
  steps = f.steps ++ step_up f.id rel ∷ [];
  dist = add64 f.dist (weight rel);
  cert = min_certainty f.cert rel.certainty;
}

-- The test on an entry that is there already.
abbrev pub is_cheaper : Frame → AncestorEntry → Bool
is_cheaper f cur =
    ltb_ℤ f.dist cur.dist || (f.dist == cur.dist && ltb (rank cur.cert) (rank f.cert))

-- The stack, top first, once the frames are pushed one after the other.
abbrev pub push_all : List Frame → List Frame → List Frame
push_all [] stack = stack
push_all (f ∷ fs) stack = push_all fs (f ∷ stack)

-- The order among candidates.
abbrev pub is_nearer : CommonAncestor → CommonAncestor → Bool
is_nearer candidate best =
    ltb_ℤ candidate.total_generations best.total_generations
    || (candidate.total_generations == best.total_generations
        && ltb (rank best.combined_certainty) (rank candidate.combined_certainty))
    || (candidate.total_generations == best.total_generations
        && candidate.combined_certainty == best.combined_certainty
        && text_less candidate.ancestor_id best.ancestor_id)

unfoldable pub pick : CommonAncestor → Option CommonAncestor → CommonAncestor
pick candidate none = candidate
pick candidate (some best) = if is_nearer candidate best then candidate else best

module _ (R : ReadTx) (tx : R.Tx) where
  unfoldable pub entry_of : Frame → AncestorEntry
  unfolding make_path
  entry_of f = record { path = make_path R tx f.steps; dist = f.dist; cert = f.cert }

  -- What a popped frame leaves in `out`.
  unfoldable pub visit : EntityId → Map EntityId AncestorEntry → Frame → Map EntityId AncestorEntry
  unfolding entry_of
  visit from out f = if f.id == from then out else elim (lookup f.id out) [
    | none ↦ insert f.id (entry_of f) out
    | some cur ↦ if is_cheaper f cur then insert f.id (entry_of f) out else out
  ]

  -- The frames that the yield pushes. The error that IterateParents returns is dropped, as in the
  -- code.
  unfoldable pub parents_of : Frame → List Frame
  unfolding next_frame
  parents_of f = map (next_frame f) (R.iterate_parents tx f.id).items

  -- The loop over the stack. The first argument bounds its rounds.
  unfoldable pub climb :
      EntityId
      → ℕ
      → ℕ
      → List Frame
      → Map EntityId AncestorEntry
      → Result (Map EntityId AncestorEntry)
  unfolding visit parents_of
  climb from max_depth zero stack out = err out_of_fuel
  climb from max_depth (suc fuel) [] out = ok out
  climb from max_depth (suc fuel) (f ∷ stack) out =
      let skip = climb from max_depth fuel stack out in
      let go = climb from max_depth fuel (push_all (parents_of f) stack) (visit from out f) in
      if ltb max_depth (length f.steps) then skip else go

  unfoldable pub ancestor_paths : ℕ → EntityId → Options → Result (Map EntityId AncestorEntry)
  unfolding climb depth_of
  ancestor_paths fuel from opts = do
    R.get_person tx from
    climb from (depth_of opts) fuel (first_frame from ∷ []) []

  -- A person counts as an ancestor of themselves.
  abbrev pub self_entry : AncestorEntry
  self_entry = record {
    path = record {
      steps = [];
      certainty = 0;
      total_gap = pos 0;
      gap_edges = 0;
      length = 0;
      classification = 0;
      graph_version = R.version tx;
    };
    dist = pos 0;
    cert = certain;
  }

  unfoldable pub candidate_of : EntityId → Bool → AncestorEntry → AncestorEntry → CommonAncestor
  unfolding add64 min_certainty
  candidate_of id unknown ea eb = record {
    ancestor_id = id;
    unknown = unknown;
    path_from_a = ea.path;
    path_from_b = eb.path;
    combined_certainty = min_certainty ea.cert eb.cert;
    total_generations = add64 ea.dist eb.dist;
    graph_version = R.version tx;
  }

  -- The loop over the ancestors of a.
  unfoldable pub find_best :
      Map EntityId AncestorEntry
      → Map EntityId AncestorEntry
      → Option CommonAncestor
      → Result (Option CommonAncestor)
  unfolding candidate_of pick
  find_best bs [] best = ok best
  find_best bs ((id, ea) ∷ rest) best = elim (lookup id bs) [
    | none ↦ find_best bs rest best
    | some eb ↦ R.get_person tx id >>= λ anc.
        find_best bs rest (some (pick (candidate_of id anc.unknown ea eb) best))
  ]

  abbrev pub found_best : Option CommonAncestor → Result CommonAncestor
  found_best none = err err_no_known_connection
  found_best (some best) = ok best

  unfoldable pub nearest_known_common_ancestor :
      ℕ → EntityId → EntityId → Options → Result CommonAncestor
  unfolding ancestor_paths find_best
  nearest_known_common_ancestor fuel a b opts = do
    refuse_if (a == b) (new invalid_argument)
    for_a ← ancestor_paths fuel a opts
    for_b ← ancestor_paths fuel b opts
    best ← find_best (insert b self_entry for_b) (insert a self_entry for_a) none
    found_best best
