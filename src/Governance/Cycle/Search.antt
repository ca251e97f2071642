-- ===== src/Governance/Cycle/Search.antt =====
-- The loop of wouldCreateCycle of governance/apply.go, and descent to `parent`.
use linea_core.Prelude.{
  ℕ, zero, suc, ◌+◌, ◌<◌, ◌≡◌, ◌≢◌, ◌⊎◌, inl, inr, refl, sym, ap, ◌∙◌, Bool, true, false, List, [],
  ◌∷◌, nat_Eq, string_Eq, arith, In, keep, length, Bool-cases, none,
}
use mathlib.Core.Path.{subst}
use text.Mathlib.TextEquality.{eq_iff}
use linea_core.Errors.{ok}
use linea_core.Model.Ids.{EntityId}
use linea_core.Model.Relationship.{Relationship}
use linea_core.Store.Port.{ReadTx}
use linea_core.Store.Memory.State.{is_child_edge}
use linea_core.Governance.Cycle.{contains, scan_children, descend}
use linea_core.Governance.Cycle.Graph.{
  Edge, Descends, first, further, Descends-trans, In-keep, contains_iff, is_open, length-is_open,
}
use linea_core.Governance.Cycle.Scan.{
  push_all, length-push_all, In-push_all_stack, In-push_all_target, push_all-cases, scan-found,
  scan-missed,
}

module _ (R : ReadTx) (tx : R.Tx) (rs : List Relationship)
    (law : (n : EntityId)
      → R.iterate_children tx n ≡ record { items = keep (is_child_edge n) rs; failure = none })
    (parent : EntityId) where
  abbrev kids : EntityId → List Relationship
  kids n = keep (is_child_edge n) rs

  module _ (fuel : ℕ) (visited : List EntityId) (n : EntityId) (stack : List EntityId) where
    descend-seen :
        contains n visited ≡ true
        → descend R tx parent (suc fuel) visited (n ∷ stack)
          ≡ descend R tx parent fuel visited stack
    unfolding descend
    descend-seen h = rw (h, descend)

    descend-found :
        contains n visited ≡ false
        → (scan_children parent (kids n) stack).0 ≡ true
        → descend R tx parent (suc fuel) visited (n ∷ stack) ≡ ok true
    unfolding descend
    descend-found h f = rw (h, descend) (rw (law n) (rw f))

    descend-missed :
        contains n visited ≡ false
        → (scan_children parent (kids n) stack).0 ≡ false
        → descend R tx parent (suc fuel) visited (n ∷ stack)
          ≡ descend R tx parent fuel (n ∷ visited) (push_all (kids n) stack)
    unfolding descend
    descend-missed h f =
        rw (h, descend)
          (rw (law n) (
            rw f (
              rw (law n) (
                ap (descend R tx parent fuel (n ∷ visited))
                  (scan-missed parent (kids n) stack f).0))))

  Edge-kid : (n : EntityId) (r : Relationship) → In r (kids n) → Edge rs n r.to
  Edge-kid n r i =
      let h = (In-keep (is_child_edge n) r rs).0 i in
      (r, h.0, ground (arith, h.1), ground (arith, h.1, eq_iff r.from n), refl)

  kid-Edge : (n y : EntityId) → Edge rs n y → (r : Relationship) × In r (kids n) × (r.to ≡ y)
  kid-Edge n y (r, i, t, f, g) =
      (r, (In-keep (is_child_edge n) r rs).1 (i, ground (arith, eq_iff r.from n)), g)

  -- Each round uses up a stack entry or closes open edges.
  descend_ends :
      (fuel : ℕ) (visited stack : List EntityId)
      → length stack + length (keep (is_open visited) rs) < fuel
      → (b : Bool) × (descend R tx parent fuel visited stack ≡ ok b)
  descend_ends zero visited stack h = absurd (omega arith)
  descend_ends (suc fuel) visited [] h = (false, unfold descend in refl)
  descend_ends (suc fuel) visited (n ∷ stack) h = elim (Bool-cases (contains n visited)) [
    | inl seen ↦
        rw (descend-seen fuel visited n stack seen) (descend_ends fuel visited stack (omega arith))
    | inr fresh ↦ elim (Bool-cases (scan_children parent (kids n) stack).0) [
      | inl f ↦ (true, descend-found fuel visited n stack fresh f)
      | inr f ↦ rw (descend-missed fuel visited n stack fresh f) (
          descend_ends fuel (n ∷ visited) (push_all (kids n) stack)
            (omega (arith, length-push_all (kids n) stack, length-is_open n visited rs fresh)))
    ]
  ]

  extend :
      {n : EntityId} (stack : List EntityId) (m : EntityId)
      → Descends rs m parent
      → In m stack ⊎ ((r : Relationship) × In r (kids n) × (r.to ≡ m))
      → (x : EntityId) × In x (n ∷ stack) × Descends rs x parent
  extend stack m d (inl i) = (m, inr i, d)
  extend {n} stack m d (inr (r, i, e)) =
      (n, inl refl, Descends-trans (first (subst (Edge rs n) e (Edge-kid n r i))) d)

  -- `true` is right: `parent` is a descendant of something on the stack.
  descend_sound :
      (fuel : ℕ) (visited stack : List EntityId)
      → descend R tx parent fuel visited stack ≡ ok true
      → (n : EntityId) × In n stack × Descends rs n parent
  descend_sound zero visited stack h = absurd (unfold descend in cc)
  descend_sound (suc fuel) visited [] h = absurd (unfold descend in cc)
  descend_sound (suc fuel) visited (n ∷ stack) h = elim (Bool-cases (contains n visited)) [
    | inl seen ↦
        let (m, i, d) =
          descend_sound fuel visited stack (sym (descend-seen fuel visited n stack seen) ∙ h) in
        (m, inr i, d)
    | inr fresh ↦ elim (Bool-cases (scan_children parent (kids n) stack).0) [
      | inl f ↦
          let (r, i, e) = scan-found parent (kids n) stack f in
          (n, inl refl, first (subst (Edge rs n) e (Edge-kid n r i)))
      | inr f ↦
          let (m, i, d) =
            descend_sound fuel (n ∷ visited) (push_all (kids n) stack)
              (sym (descend-missed fuel visited n stack fresh f) ∙ h) in
          (extend stack m d (push_all-cases m (kids n) stack i))
    ]
  ]

  -- The visited ids, with what is on the stack, are closed under descent and miss `parent`.
  abbrev IsClosed : List EntityId → List EntityId → Type 0
  IsClosed visited stack =
      (x y : EntityId) → In x visited → Edge rs x y → (In y visited ⊎ In y stack) × (y ≢ parent)

  -- The ids that were on the stack belong to a set that is closed under descent and misses `parent`.
  abbrev Covers : List EntityId → List EntityId → List EntityId → Type 0
  Covers visited stack all =
      ((x : EntityId) → In x visited → In x all)
      × ((x : EntityId) → In x stack → In x all)
      × ((x y : EntityId) → In x all → Edge rs x y → In y all × (y ≢ parent))

  IsClosed-seen :
      (visited stack : List EntityId) (n : EntityId)
      → In n visited
      → IsClosed visited (n ∷ stack)
      → IsClosed visited stack
  IsClosed-seen visited stack n i c x y j e =
      let (at, ne) = c x y j e in
      (
        elim at [
          | inl v ↦ inl v
          | inr (inl q) ↦ inl (subst (λ z. In z visited) (sym q) i)
          | inr (inr s) ↦ inr s
        ],
        ne,
      )

  IsClosed-missed :
      (visited stack : List EntityId) (n : EntityId)
      → (scan_children parent (kids n) stack).0 ≡ false
      → IsClosed visited (n ∷ stack)
      → IsClosed (n ∷ visited) (push_all (kids n) stack)
  IsClosed-missed visited stack n f c x y (inl q) e =
      let (r, i, t) = kid-Edge n y (subst (λ z. Edge rs z y) q e) in
      (
        inr (subst (λ z. In z (push_all (kids n) stack)) t (In-push_all_target r (kids n) stack i)),
        λ p. (scan-missed parent (kids n) stack f).1 r i (t ∙ p),
      )
  IsClosed-missed visited stack n f c x y (inr j) e =
      let (at, ne) = c x y j e in
      (
        elim at [
          | inl v ↦ inl (inr v)
          | inr (inl q) ↦ inl (inl q)
          | inr (inr s) ↦ inr (In-push_all_stack y (kids n) stack s)
        ],
        ne,
      )

  -- `false` is right: whatever was on the stack lies in a closed set that misses `parent`.
  descend_complete :
      (fuel : ℕ) (visited stack : List EntityId)
      → descend R tx parent fuel visited stack ≡ ok false
      → IsClosed visited stack
      → (all : List EntityId) × Covers visited stack all
  descend_complete zero visited stack h c = absurd (unfold descend in cc)
  descend_complete (suc fuel) visited [] h c = (
    visited,
    (
      λ x i. i,
      λ x i. absurd i,
      λ x y i e. let (at, ne) = c x y i e in (elim at [ inl v ↦ v | inr s ↦ absurd s ], ne),
    ),
  )
  descend_complete (suc fuel) visited (n ∷ stack) h c = elim (Bool-cases (contains n visited)) [
    | inl seen ↦
        let i = (contains_iff n visited).0 seen in
        let (all, cov) =
          descend_complete fuel visited stack (sym (descend-seen fuel visited n stack seen) ∙ h)
            (IsClosed-seen visited stack n i c) in
        (
          all,
          (
            cov.0,
            λ x. elim [ inl q ↦ subst (λ z. In z all) (sym q) (cov.0 n i) | inr s ↦ cov.1 x s ],
            cov.2,
          ),
        )
    | inr fresh ↦ elim (Bool-cases (scan_children parent (kids n) stack).0) [
      | inl f ↦ absurd (cc (descend-found fuel visited n stack fresh f))
      | inr f ↦
          let (all, cov) =
            descend_complete fuel (n ∷ visited) (push_all (kids n) stack)
              (sym (descend-missed fuel visited n stack fresh f) ∙ h)
              (IsClosed-missed visited stack n f c) in
          (
            all,
            (
              λ x v. cov.0 x (inr v),
              λ x. elim [
                | inl q ↦ cov.0 x (inl q)
                | inr s ↦ cov.1 x (In-push_all_stack x (kids n) stack s)
              ],
              cov.2,
            ),
          )
    ]
  ]

  -- From a closed set that misses `parent` no descent leads to `parent`.
  Covers-Descends :
      (visited stack all : List EntityId) (x y : EntityId)
      → Covers visited stack all
      → In x all
      → Descends rs x y
      → In y all × (y ≢ parent)
  Covers-Descends visited stack all x y cov i (first e) = cov.2 x y i e
  Covers-Descends visited stack all x y cov i (further {b} d e) =
      cov.2 b y (Covers-Descends visited stack all x b cov i d).0 e

  -- From one person and with fuel for every edge, the search ends and says whether `parent` is a
  -- descendant of that person.
  pub descend_decides :
      (fuel : ℕ) (start : EntityId)
      → length (keep (is_open []) rs) + 1 < fuel
      → ((descend R tx parent fuel [] (start ∷ []) ≡ ok true) × Descends rs start parent)
        ⊎ ((descend R tx parent fuel [] (start ∷ []) ≡ ok false) × ¬ Descends rs start parent)
  descend_decides fuel start room = decide (descend_ends fuel [] (start ∷ []) (omega arith))
    where
      refuted : descend R tx parent fuel [] (start ∷ []) ≡ ok false → ¬ Descends rs start parent
      refuted h d =
          let (all, cov) = descend_complete fuel [] (start ∷ []) h (λ x y i e. absurd i) in
          (Covers-Descends [] (start ∷ []) all start parent cov (cov.1 start (inl refl)) d).1 refl

      found : descend R tx parent fuel [] (start ∷ []) ≡ ok true → Descends rs start parent
      found h =
          let (n, i, d) = descend_sound fuel [] (start ∷ []) h in
          elim i [ inl q ↦ subst (λ z. Descends rs z parent) q d | inr s ↦ absurd s ]

      decide :
          (b : Bool) × (descend R tx parent fuel [] (start ∷ []) ≡ ok b)
          → ((descend R tx parent fuel [] (start ∷ []) ≡ ok true) × Descends rs start parent)
            ⊎ ((descend R tx parent fuel [] (start ∷ []) ≡ ok false) × ¬ Descends rs start parent)
      decide (true, h) = inl (h, found h)
      decide (false, h) = inr (h, refuted h)
