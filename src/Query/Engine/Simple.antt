-- ===== src/Query/Engine/Simple.antt =====
-- The shape of the routes that FindPaths of query/engine.go follows.
use linea_core.Prelude.{
  ℕ, ◌≤◌, ◌≡◌, inl, inr, refl, ap, ◌∙◌, Bool, true, false, List, [], ◌∷◌, ◌++◌, map, string_Eq, In,
  length, arith, if◌then◌else◌,
}
use linea_core.Model.Ids.{EntityId}
use linea_core.Model.Relationship.{Relationship}
use linea_core.Store.Port.{ReadTx}
use linea_core.Query.Paths.{Step, GraphPath}
use linea_core.Errors.{ok}
use linea_core.Query.Engine.Answers.{find_paths-IsRoute}
use linea_core.Query.Engine.{
  Options, find_paths, make_path, depth_of, steps_from, step_down, step_up, step_across,
}
use linea_core.Query.Engine.Found.{Route, arrive, pass, In-append}

-- The steps lead from `a` to `b`, each from where the one before ended.
abbrev pub IsLinked : EntityId → List Step → EntityId → Type 0
IsLinked a [] b = a ≡ b
IsLinked a (s ∷ ss) b = (s.from_person ≡ a) × IsLinked s.to_person ss b

-- Nobody is met twice, nor anybody of `met`.
abbrev pub MeetsNew : List EntityId → List Step → Type 0
MeetsNew met [] = Unit {0}
MeetsNew met (s ∷ ss) = (¬ In s.to_person met) × MeetsNew (s.to_person ∷ met) ss

In-map_from :
    (f : Relationship → Step) (node : EntityId) (rs : List Relationship) (s : Step)
    → ((r : Relationship) → (f r).from_person ≡ node)
    → In s (map f rs)
    → s.from_person ≡ node
In-map_from f node [] s h i = absurd i
In-map_from f node (r ∷ rs) s h (inl e) = ap (λ (x : Step). x.from_person) e ∙ h r
In-map_from f node (r ∷ rs) s h (inr i) = In-map_from f node rs s h i

step_across-from : (node : EntityId) (r : Relationship) → (step_across node r).from_person ≡ node
step_across-from node r = ground arith

across-from :
    (b : Bool) (node : EntityId) (rs : List Relationship) (s : Step)
    → In s (if b then map (step_across node) rs else [])
    → s.from_person ≡ node
across-from true node rs s i = In-map_from (step_across node) node rs s (step_across-from node) i
across-from false node rs s i = absurd i

module _ (R : ReadTx) (tx : R.Tx) (opts : Options) (to : EntityId) where
  steps_from-from :
      (node : EntityId) (s : Step) → In s (steps_from R tx opts to node) → s.from_person ≡ node
  unfolding steps_from
  steps_from-from node s i =
      let down = map (step_down node) (R.iterate_children tx node).items in
      let up = map (step_up node) (R.iterate_parents tx node).items in
      let across =
        if opts.include_affinal
        then map (step_across node) (R.iterate_marriages tx node).items
        else [] in
      elim ((In-append s (down ++ up) across).0 i) [
        | inl j ↦ elim ((In-append s down up).0 j) [
          | inl k ↦
              In-map_from (step_down node) node (R.iterate_children tx node).items s (λ r. refl) k
          | inr k ↦
              In-map_from (step_up node) node (R.iterate_parents tx node).items s (λ r. refl) k
        ]
        | inr j ↦ across-from opts.include_affinal node (R.iterate_marriages tx node).items s j
      ]

  Route-IsLinked :
      (visited : List EntityId) (node : EntityId) (n : ℕ) (ss : List Step)
      → Route R tx opts to visited node n ss
      → IsLinked node ss to × MeetsNew visited ss × (length ss ≤ n)
  Route-IsLinked visited node n ss (arrive s i new_one e) =
      ((steps_from-from node s i, e), (new_one, tt), omega arith)
  Route-IsLinked visited node n ss (pass {n = m} {ss = us} s i new_one ne r) =
      let ih = Route-IsLinked (s.to_person ∷ visited) s.to_person m us r in
      ((steps_from-from node s i, ih.0), (new_one, ih.1), omega (arith, ih.2))

-- Every path that FindPaths returns leads from the one person to the other, each step beginning where
-- the one before ended, meets nobody twice, and has as many steps as the depth allows or fewer.
pub find_paths-IsLinked :
    (R : ReadTx) (tx : R.Tx) (from to : EntityId) (opts : Options) (ps : List GraphPath)
    (p : GraphPath)
    → find_paths R tx from to opts ≡ ok ps
    → In p ps
    → IsLinked from p.steps to × MeetsNew (from ∷ []) p.steps × (length p.steps ≤ depth_of opts)
unfolding make_path
find_paths-IsLinked R tx from to opts ps p h i =
    let (ss, r, e) = find_paths-IsRoute R tx from to opts ps p h i in
    rw e (Route-IsLinked R tx opts to (from ∷ []) from (depth_of opts) ss r)
