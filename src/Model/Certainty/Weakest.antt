-- ===== src/Model/Certainty/Weakest.antt =====
-- CombineCertainties of model/certainty.go and the order of certainties.
use linea_core.Prelude.{◌≤◌, ◌≡◌, ◌⊎◌, inl, inr, refl, ◌∙◌, List, [], ◌∷◌, foldl, some, arith, In}
use linea_core.Model.Certainty.{Certainty, rank, min_certainty, combine_certainties}

min_certainty_least :
    (c e : Certainty)
    → let m = min_certainty c e in ((m ≡ c) ⊎ (m ≡ e)) × (rank m ≤ rank c) × (rank m ≤ rank e)
unfolding min_certainty
min_certainty_least c e = ground arith

fold_weakest :
    (c : Certainty) (cs : List Certainty)
    → let d = foldl min_certainty c cs in
      ((d ≡ c) ⊎ In d cs) × (rank d ≤ rank c) × ((x : Certainty) → In x cs → rank d ≤ rank x)
fold_weakest c [] = (inl refl, omega arith, λ x i. absurd i)
fold_weakest c (e ∷ cs) =
    let ih = fold_weakest (min_certainty c e) cs in
    let m = min_certainty_least c e in
    (
      elim ih.0 [
        | inl q ↦ elim m.0 [ inl r ↦ inl (q ∙ r) | inr r ↦ inr (inl (q ∙ r)) ]
        | inr i ↦ inr (inr i)
      ],
      omega (arith, ih.1, m.1),
      λ x. elim [ inl q ↦ rw q (omega (arith, ih.1, m.2)) | inr i ↦ ih.2 x i ],
    )

-- The combination of one certainty or more exists, is one of them, and is at most as strong as each
-- of them.
pub combine_certainties_weakest :
    (c : Certainty) (cs : List Certainty)
    → (d : Certainty) × (combine_certainties (c ∷ cs) ≡ some d)
      × In d (c ∷ cs)
      × ((x : Certainty) → In x (c ∷ cs) → rank d ≤ rank x)
unfolding combine_certainties
combine_certainties_weakest c cs =
    let f = fold_weakest c cs in
    (foldl min_certainty c cs, refl, f.0, λ x. elim [ inl q ↦ rw q f.1 | inr i ↦ f.2 x i ])
