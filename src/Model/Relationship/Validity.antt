-- ===== src/Model/Relationship/Validity.antt =====
-- Which relationships NewRelationship of model/relationship.go makes.
use linea_core.Prelude.{
  ◌≡◌, ◌≢◌, ◌⊎◌, ◌^◌, ◌-◌, inl, inr, refl, true, false, string_Eq, nat_Eq, arith,
}
use text.Mathlib.TextEquality.{eq_iff}
use linea_core.Prelude.Int.{ℤ, pos, negsuc, ◌≤ℤ◌, ltb_ℤ, add64, add64_pos}
use linea_core.Errors.{ok, err, plain}
use linea_core.Model.Ids.{EntityId}
use linea_core.Model.Certainty.{Certainty, uncertain, probable, certain}
use linea_core.Model.Continuity.{Continuity, continuous, gapped}
use linea_core.Model.Relationship.{
  Relationship, RelationshipType, RelationshipOptions, parent_child, marriage, new_relationship,
  gap_weight,
}

-- CCGGS §5: an edge between two persons, a known type and a known certainty, and a gap, of one
-- generation or more where its size is known, on a ParentChild edge only.
pub record IsLegal (id from to : EntityId) (t : RelationshipType) (c : Certainty) (k : Continuity)
    : Type 0 where
  named : id ≢ ""
  ends : (from ≢ "") × (to ≢ "") × (from ≢ to)
  type : (t ≡ parent_child) ⊎ (t ≡ marriage)
  certainty : (c ≡ uncertain) ⊎ (c ≡ probable) ⊎ (c ≡ certain)
  continuity :
      (k.state ≡ continuous)
      ⊎ ((k.state ≡ gapped)
          × (t ≡ parent_child)
          × ((k.gap.known_size ≡ false) ⊎ (◌≤ℤ◌ (pos 1) k.gap.size)))

abbrev pub built :
    EntityId
    → EntityId
    → EntityId
    → RelationshipType
    → Certainty
    → Continuity
    → RelationshipOptions
    → Relationship
built id from to t c k opts = record {
  id = id;
  from = from;
  to = to;
  rel_type = t;
  certainty = c;
  continuity = k;
  time_range = opts.time_range;
  notes = opts.notes;
  sources = opts.sources;
}

weight_marriage : (r : Relationship) → r.rel_type ≡ marriage → gap_weight r ≡ pos 0
unfolding gap_weight
weight_marriage r m = ground arith

add_one :
    (z : ℤ) → ◌≤ℤ◌ (pos 1) z → ltb_ℤ z (pos (2 ^ 63 - 1)) ≡ true → ◌≤ℤ◌ (pos 1) (add64 z (pos 1))
add_one (pos n) h k = rw (add64_pos n 1 (ground arith)) (omega arith)
add_one (negsuc n) h k = absurd (omega (arith, h))

weight_parent_child :
    (r : Relationship)
    → r.rel_type ≡ parent_child
    → (r.continuity.state ≡ continuous)
      ⊎ ((r.continuity.state ≡ gapped)
          × (r.rel_type ≡ parent_child)
          × ((r.continuity.gap.known_size ≡ false) ⊎ (◌≤ℤ◌ (pos 1) r.continuity.gap.size)))
    → ltb_ℤ r.continuity.gap.size (pos (2 ^ 63 - 1)) ≡ true
    → ◌≤ℤ◌ (pos 1) (gap_weight r)
unfolding gap_weight
weight_parent_child r pc l small = ground (arith, add_one r.continuity.gap.size)

weight_largest :
    (r : Relationship)
    → r.rel_type ≡ parent_child
    → r.continuity.state ≡ gapped
    → r.continuity.gap.known_size ≡ true
    → r.continuity.gap.size ≡ pos (2 ^ 63 - 1)
    → gap_weight r ≡ negsuc (2 ^ 63 - 1)
unfolding gap_weight
weight_largest r pc g u m = rw (pc, g, u, m) refl

module _ (id from to : EntityId) (t : RelationshipType) (c : Certainty) (k : Continuity)
    (opts : RelationshipOptions) where
  legal-ok :
      IsLegal id from to t c k
      → new_relationship id from to t c k opts ≡ ok (built id from to t c k opts)
  unfolding new_relationship
  legal-ok l =
      let n = l.named in
      let e = l.ends in
      let y = l.type in
      let z = l.certainty in
      let w = l.continuity in
      ground (arith, eq_iff id "", eq_iff from "", eq_iff to "", eq_iff from to)

  ok-IsLegal :
      (r : Relationship) → new_relationship id from to t c k opts ≡ ok r → IsLegal id from to t c k
  unfolding new_relationship
  ok-IsLegal r h = record {
    named = λ e. absurd (ground (arith, eq_iff id ""));
    ends = (
      λ e. absurd (ground (arith, eq_iff from "")),
      λ e. absurd (ground (arith, eq_iff to "")),
      λ e. absurd (ground (arith, eq_iff from to)),
    );
    type = ground arith;
    certainty = ground arith;
    continuity = ground arith;
  }

  outcomes :
      (new_relationship id from to t c k opts ≡ ok (built id from to t c k opts))
      ⊎ (new_relationship id from to t c k opts ≡ err plain)
  unfolding new_relationship
  outcomes = ground arith

  made :
      (r : Relationship)
      → new_relationship id from to t c k opts ≡ ok r
      → r ≡ built id from to t c k opts
  made r h = elim outcomes [ inl h' ↦ ground (arith, h, h') | inr h' ↦ absurd (cc) ]

  -- NewRelationship returns the relationship with the given parts if they are legal by the rules of
  -- CCGGS §5, and an error without a code if they are not. Of a type that is not allowed, too, it
  -- reports no code, though model/doc.go promises typed errors and errors/errors.go has the code
  -- FORBIDDEN_RELATIONSHIP for that.
  pub new_relationship_cases :
      (IsLegal id from to t c k
        → new_relationship id from to t c k opts ≡ ok (built id from to t c k opts))
      × (¬ IsLegal id from to t c k → new_relationship id from to t c k opts ≡ err plain)
  new_relationship_cases = (
    legal-ok,
    λ bad. elim outcomes [
      | inl h ↦ absurd (bad (ok-IsLegal (built id from to t c k opts) h))
      | inr h ↦ h
    ],
  )

  -- An edge that NewRelationship makes weighs 0 if it is a marriage, and otherwise 1 or more, as
  -- long as a known size of its gap is below the largest int. At the largest int the weight is the
  -- smallest int.
  pub gap_weight_cases :
      (r : Relationship)
      → new_relationship id from to t c k opts ≡ ok r
      → (r.rel_type ≡ marriage → gap_weight r ≡ pos 0)
        × (r.rel_type ≡ parent_child
            → ltb_ℤ k.gap.size (pos (2 ^ 63 - 1)) ≡ true
            → ◌≤ℤ◌ (pos 1) (gap_weight r))
        × (r.rel_type ≡ parent_child
            → k.state ≡ gapped
            → k.gap.known_size ≡ true
            → k.gap.size ≡ pos (2 ^ 63 - 1)
            → gap_weight r ≡ negsuc (2 ^ 63 - 1))
  gap_weight_cases r h = rw (made r h) (
    weight_marriage (built id from to t c k opts),
    λ pc small.
        weight_parent_child (built id from to t c k opts) pc (ok-IsLegal r h).continuity small,
    weight_largest (built id from to t c k opts),
  )
