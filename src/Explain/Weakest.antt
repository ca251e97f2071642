-- ===== src/Explain/Weakest.antt =====
-- The weakest link in the explanation of a path that makePath of query/engine.go built.
use mathlib.Core.Path.{subst}
use linea_core.Prelude.{
  ◌+◌, ◌≤◌, ◌≡◌, refl, sym, ap, ◌∙◌, inl, inr, true, List, [], ◌∷◌, map, same_some, In, ℕ,
}
use linea_core.Errors.{ok, same_ok}
use linea_core.Model.Certainty.{Certainty, rank}
use linea_core.Model.Certainty.Weakest.{combine_certainties_weakest}
use linea_core.Store.Port.{ReadTx}
use linea_core.Query.Paths.{Step}
use linea_core.Query.Rank.{compute_aggregate}
use linea_core.Query.Rank.Aggregates.{certainty_of, compute_aggregate_lem}
use linea_core.Query.Engine.{make_path}
use linea_core.Query.Ancestors.Climbs.{In-map_of}
use linea_core.Explain.{EdgeExplanation, PathExplanation, explain_path}
use linea_core.Explain.Edges.{IsFlagged, AreEdges, explain_path_cases}

certainty : EdgeExplanation → Certainty
certainty e = e.certainty

flagged :
    (c : Certainty) (es : List EdgeExplanation)
    → IsFlagged c es
    → In c (map certainty es)
    → (e : EdgeExplanation) × In e es × (e.is_weakest_link ≡ true) × (e.certainty ≡ c)
unfolding certainty
flagged c [] f i = absurd i
flagged c (e ∷ es) (inl (same, flag, none)) i = (e, inl refl, flag, same)
flagged c (e ∷ es) (inr (other, flag, f)) (inl h) = absurd (other (sym h))
flagged c (e ∷ es) (inr (other, flag, f)) (inr i) =
    let (x, j, k, l) = flagged c es f i in (x, inr j, k, l)

module _ (R : ReadTx) (tx : R.Tx) where
  certainties :
      (i : ℕ) (ss : List Step) (es : List EdgeExplanation)
      → AreEdges R tx i ss es
      → map certainty es ≡ map certainty_of ss
  unfolding certainty
  certainties i [] [] a = refl
  certainties i [] (e ∷ es) a = absurd a
  certainties i (s ∷ ss) [] a = absurd a
  certainties i (s ∷ ss) (e ∷ es) (edge, a) =
      ap (λ c. c ∷ map certainty es) edge.relationship.3
      ∙ ap (λ cs. certainty_of s ∷ cs) (certainties (i + 1) ss es a)

  aggregate-weakest :
      (s : Step) (ss : List Step)
      → let c = (compute_aggregate (s ∷ ss)).certainty in
        In c (map certainty_of (s ∷ ss))
        × ((x : Certainty) → In x (map certainty_of (s ∷ ss)) → rank c ≤ rank x)
  aggregate-weakest s ss =
      let (d, combined, i, least) =
        combine_certainties_weakest (certainty_of s) (map certainty_of ss) in
      let same : d ≡ (compute_aggregate (s ∷ ss)).certainty =
        same_some combined (compute_aggregate_lem s ss).0 in
      (
        subst (λ c. In c (map certainty_of (s ∷ ss))) same i,
        λ x j. subst (λ c. rank c ≤ rank x) same (least x j),
      )

  -- The explanation of a path of one step or more that makePath built flags an edge as its weakest
  -- link, and no edge of the path is weaker than that one.
  pub explain_path-weakest :
      (s : Step) (ss : List Step) (x : PathExplanation)
      → explain_path R tx (make_path R tx (s ∷ ss)) ≡ ok x
      → (e : EdgeExplanation) × In e x.edges
        × (e.is_weakest_link ≡ true)
        × ((f : EdgeExplanation) → In f x.edges → rank e.certainty ≤ rank f.certainty)
  unfolding make_path certainty
  explain_path-weakest s ss x h = elim (explain_path_cases R tx (make_path R tx (s ∷ ss))) [
    | inr (e, k, lost) ↦ absurd (cc)
    | inl (y, k, figures, are, flags) ↦
        let same : y ≡ x = same_ok k h in
        let c = (compute_aggregate (s ∷ ss)).certainty in
        let certs = certainties 0 (s ∷ ss) y.edges are in
        let (i, least) = aggregate-weakest s ss in
        let (e, j, flag, is_c) = flagged c y.edges flags (subst (In c) (sym certs) i) in
        subst
          (λ z.
            (e : EdgeExplanation) × In e z.edges
            × (e.is_weakest_link ≡ true)
            × ((f : EdgeExplanation) → In f z.edges → rank e.certainty ≤ rank f.certainty))
          same
          (
            e,
            j,
            flag,
            λ f l.
                subst (λ d. rank d ≤ rank f.certainty) (sym is_c)
                  (least f.certainty
                    (subst (In f.certainty) certs (In-map_of certainty f y.edges l))),
          )
  ]
