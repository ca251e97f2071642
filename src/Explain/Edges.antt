-- ===== src/Explain/Edges.antt =====
-- Path of explain/explain.go: one explanation for each step, and the weakest link.
use mathlib.Core.Path.{subst}
use linea_core.Prelude.{
  ℕ, ◌+◌, ◌<◌, ◌≡◌, ◌≢◌, ◌⊎◌, refl, sym, ◌∙◌, inl, inr, Bool, true, false, List, [], ◌∷◌, Option,
  some, In, ◌==◌, nat_Eq, string_Eq, Bool-cases, arith, nat_eq_iff,
}
use text.Mathlib.TextEquality.{eq_iff}
use linea_core.Errors.{Error, Result-cases, ok, err}
use linea_core.Model.Ids.{EntityId, is_zero}
use linea_core.Model.Person.{Person}
use linea_core.Model.Certainty.{Certainty}
use linea_core.Store.Port.{ReadTx}
use linea_core.Query.Paths.{Step, GraphPath, from, to}
use linea_core.Explain.{
  EdgeExplanation, PathExplanation, weakest_idx, is_index, is_unknown_person, explain_edge,
  explain_edges, explain_path,
}

-- Edges of which none is flagged.
abbrev pub IsUnflagged : List EdgeExplanation → Type 0
IsUnflagged [] = Unit
IsUnflagged (e ∷ es) = (e.is_weakest_link ≡ false) × IsUnflagged es

-- The one flagged edge, if there is one, is the first with the certainty.
abbrev pub IsFlagged : Certainty → List EdgeExplanation → Type 0
IsFlagged c [] = Unit
IsFlagged c (e ∷ es) =
    ((e.certainty ≡ c) × (e.is_weakest_link ≡ true) × IsUnflagged es)
    ⊎ ((e.certainty ≢ c) × (e.is_weakest_link ≡ false) × IsFlagged c es)

module _ (R : ReadTx) (tx : R.Tx) where
  -- Whether the person is a placeholder for an unknown ancestor.
  abbrev pub IsPlaceholder : EntityId → Bool → Type 0
  IsPlaceholder id b =
      ((id ≡ "") × (b ≡ false)) ⊎ ((p : Person) × (R.get_person tx id ≡ ok p) × (b ≡ p.unknown))

  -- What the edge at index `i` says of its step.
  pub record IsEdge (i : ℕ) (s : Step) (e : EdgeExplanation) : Type 0 where
    pub index : e.index ≡ i
    pub ends : (e.from_person ≡ s.from_person) × (e.to_person ≡ s.to_person)
    pub placeholders :
        IsPlaceholder s.from_person e.from_is_unknown_ancestor
        × IsPlaceholder s.to_person e.to_is_unknown_ancestor
    pub relationship :
        (e.relationship_id ≡ s.relationship.id)
        × (e.type ≡ s.relationship.rel_type)
        × (e.direction ≡ s.direction)
        × (e.certainty ≡ s.relationship.certainty)
        × (e.continuity ≡ s.relationship.continuity)
        × (e.source_ids ≡ s.relationship.sources)

  abbrev pub AreEdges : ℕ → List Step → List EdgeExplanation → Type 0
  AreEdges i [] [] = Unit
  AreEdges i [] (e ∷ es) = ⊥
  AreEdges i (s ∷ ss) [] = ⊥
  AreEdges i (s ∷ ss) (e ∷ es) = IsEdge i s e × AreEdges (i + 1) ss es

  -- A person of a step who cannot be read.
  abbrev pub IsLost : List Step → Error → Type 0
  IsLost ss e =
      (s : Step) × (id : EntityId) × In s ss
      × ((id ≡ s.from_person) ⊎ (id ≡ s.to_person))
      × (R.get_person tx id ≡ err e)

  is_unknown_person_cases :
      (id : EntityId)
      → ((b : Bool) × (is_unknown_person R tx id ≡ ok b) × IsPlaceholder id b)
        ⊎ ((e : Error) × (is_unknown_person R tx id ≡ err e) × (R.get_person tx id ≡ err e))
  unfolding is_unknown_person
  is_unknown_person_cases id = elim (Bool-cases (is_zero id)) [
    | inl b ↦ inl (false, rw (is_unknown_person, b) refl, inl ((eq_iff id "").0 b, refl))
    | inr b ↦ elim (Result-cases (R.get_person tx id)) [
      | inl (p, g) ↦ inl (p.unknown, rw (is_unknown_person, b, g) refl, inr (p, g, refl))
      | inr (e, g) ↦ inr (e, rw (is_unknown_person, b, g) refl, g)
    ]
  ]

  explain_edge_cases :
      (w : Option ℕ) (i : ℕ) (s : Step)
      → ((e : EdgeExplanation) × (explain_edge R tx w i s ≡ ok e)
          × IsEdge i s e
          × (e.is_weakest_link ≡ is_index i w))
        ⊎ ((e : Error) × (explain_edge R tx w i s ≡ err e)
            × ((id : EntityId) × ((id ≡ s.from_person) ⊎ (id ≡ s.to_person))
                × (R.get_person tx id ≡ err e)))
  unfolding explain_edge
  explain_edge_cases w i s = elim (is_unknown_person_cases s.from_person) [
    | inr (e, h, g) ↦ inr (e, rw (explain_edge, h) refl, (s.from_person, inl refl, g))
    | inl (b, h, p) ↦ elim (is_unknown_person_cases s.to_person) [
      | inr (e, k, g) ↦ inr (e, rw (explain_edge, h, k) refl, (s.to_person, inr refl, g))
      | inl (d, k, q) ↦ inl (
        record {
          index = i;
          from_person = s.from_person;
          to_person = s.to_person;
          from_is_unknown_ancestor = b;
          to_is_unknown_ancestor = d;
          relationship_id = s.relationship.id;
          type = s.relationship.rel_type;
          direction = s.direction;
          certainty = s.relationship.certainty;
          continuity = s.relationship.continuity;
          source_ids = s.relationship.sources;
          is_weakest_link = is_index i w;
        },
        rw (explain_edge, h, k) refl,
        record {
          index = refl;
          ends = (refl, refl);
          placeholders = (p, q);
          relationship = (refl, refl, refl, refl, refl, refl);
        },
        refl,
      )
    ]
  ]

  -- The flags of the edges from index `i` on are set by the index alone.
  abbrev AreSet : Option ℕ → ℕ → List EdgeExplanation → Type 0
  AreSet w i [] = Unit
  AreSet w i (e ∷ es) = (e.is_weakest_link ≡ is_index i w) × AreSet w (i + 1) es

  explain_edges_cases :
      (w : Option ℕ) (i : ℕ) (ss : List Step)
      → ((es : List EdgeExplanation) × (explain_edges R tx w i ss ≡ ok es)
          × AreEdges i ss es
          × AreSet w i es)
        ⊎ ((e : Error) × (explain_edges R tx w i ss ≡ err e) × IsLost ss e)
  unfolding explain_edges
  explain_edges_cases w i [] = inl ([], refl, tt, tt)
  explain_edges_cases w i (s ∷ ss) = elim (explain_edge_cases w i s) [
    | inr (e, h, (id, side, g)) ↦ inr (e, rw (explain_edges, h) refl, (s, id, inl refl, side, g))
    | inl (e, h, is_edge, flag) ↦ elim (explain_edges_cases w (i + 1) ss) [
      | inr (x, k, (t, id, j, side, g)) ↦
          inr (x, rw (explain_edges, h, k) refl, (t, id, inr j, side, g))
      | inl (es, k, are, set) ↦
          inl (e ∷ es, rw (explain_edges, h, k) refl, (is_edge, are), (flag, set))
    ]
  ]

  set-IsUnflagged :
      (j i : ℕ) (es : List EdgeExplanation) → j < i → AreSet (some j) i es → IsUnflagged es
  set-IsUnflagged j i [] l a = tt
  set-IsUnflagged j i (e ∷ es) l (f, a) =
      (f ∙ ground (arith, l), set-IsUnflagged j (i + 1) es (omega (arith, l)) a)

  weakest_idx_later :
      (c : Certainty) (i n : ℕ) (ss : List Step) → n < i → is_index n (weakest_idx c i ss) ≡ false
  unfolding weakest_idx
  weakest_idx_later c i n [] l = refl
  weakest_idx_later c i n (s ∷ ss) l = elim (Bool-cases (s.relationship.certainty == c)) [
    | inl b ↦ rw (weakest_idx, b) (ground (arith, l))
    | inr b ↦ rw (weakest_idx, b) (weakest_idx_later c (i + 1) n ss (omega (arith, l)))
  ]

  set-IsFlagged :
      (c : Certainty) (i : ℕ) (ss : List Step) (es : List EdgeExplanation)
      → AreEdges i ss es
      → AreSet (weakest_idx c i ss) i es
      → IsFlagged c es
  unfolding weakest_idx
  set-IsFlagged c i [] [] a f = tt
  set-IsFlagged c i [] (e ∷ es) a f = absurd a
  set-IsFlagged c i (s ∷ ss) [] a f = tt
  set-IsFlagged c i (s ∷ ss) (e ∷ es) (edge, a) f =
      elim (Bool-cases (s.relationship.certainty == c)) [
        | inl b ↦
            let w : weakest_idx c i (s ∷ ss) ≡ some i = rw (weakest_idx, b) refl in
            let here = subst (λ u. AreSet u i (e ∷ es)) w f in
            inl (
              edge.relationship.3 ∙ (nat_eq_iff s.relationship.certainty c).0 b,
              here.0 ∙ (nat_eq_iff i i).1 refl,
              set-IsUnflagged i (i + 1) es (omega arith) here.1,
            )
        | inr b ↦
            let w : weakest_idx c i (s ∷ ss) ≡ weakest_idx c (i + 1) ss =
              rw (weakest_idx, b) refl in
            let later = subst (λ u. AreSet u i (e ∷ es)) w f in
            inr (
              (λ h. absurd (
                  let b' =
                    (nat_eq_iff s.relationship.certainty c).1 (sym edge.relationship.3 ∙ h) in
                  cc)),
              later.0 ∙ weakest_idx_later c (i + 1) i ss (omega arith),
              set-IsFlagged c (i + 1) ss es a later.1,
            )
      ]

  -- The explanation of a path has the figures of the path, and for each step, in their order, an edge
  -- that says what the step and its relationship say and which of its ends are placeholders for
  -- unknown ancestors; of the edges, only the first whose certainty is that of the path is flagged as
  -- its weakest link. Or it is the error of GetPerson on a person of a step.
  pub explain_path_cases :
      (p : GraphPath)
      → ((x : PathExplanation) × (explain_path R tx p ≡ ok x)
          × ((x.from ≡ from p)
              × (x.to ≡ to p)
              × (x.length ≡ p.length)
              × (x.classification ≡ p.classification)
              × (x.overall_certainty ≡ p.certainty)
              × (x.total_gap_generations ≡ p.total_gap)
              × (x.gap_edge_count ≡ p.gap_edges)
              × (x.graph_version ≡ p.graph_version))
          × AreEdges 0 p.steps x.edges
          × IsFlagged p.certainty x.edges)
        ⊎ ((e : Error) × (explain_path R tx p ≡ err e) × IsLost p.steps e)
  unfolding explain_path
  explain_path_cases p = elim (explain_edges_cases (weakest_idx p.certainty 0 p.steps) 0 p.steps) [
    | inl (es, h, are, set) ↦ inl (
      record {
        from = from p;
        to = to p;
        length = p.length;
        classification = p.classification;
        overall_certainty = p.certainty;
        total_gap_generations = p.total_gap;
        gap_edge_count = p.gap_edges;
        edges = es;
        graph_version = p.graph_version;
      },
      rw (explain_path, h) refl,
      (refl, refl, refl, refl, refl, refl, refl, refl),
      are,
      set-IsFlagged p.certainty 0 p.steps es are set,
    )
    | inr (e, h, lost) ↦ inr (e, rw (explain_path, h) refl, lost)
  ]
