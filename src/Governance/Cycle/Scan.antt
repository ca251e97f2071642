-- ===== src/Governance/Cycle/Scan.antt =====
-- One round of the loop of wouldCreateCycle of governance/apply.go: the scan of a person's edges, and
-- the stack that it leaves.
use linea_core.Prelude.{
  ◌+◌, ◌≡◌, ◌≢◌, ◌⊎◌, inl, inr, refl, sym, ap, true, false, List, [], ◌∷◌, ◌==◌, nat_Eq, string_Eq,
  arith, In, length, Bool-cases,
}
use text.Mathlib.TextEquality.{eq_iff}
use linea_core.Model.Ids.{EntityId}
use linea_core.Model.Relationship.{Relationship}
use linea_core.Governance.Cycle.{scan_children}

-- The stack after the targets of all edges are pushed.
abbrev pub push_all : List Relationship → List EntityId → List EntityId
push_all [] stack = stack
push_all (r ∷ rs) stack = push_all rs (r.to ∷ stack)

pub length-push_all :
    (rs : List Relationship) (stack : List EntityId)
    → length (push_all rs stack) ≡ length stack + length rs
length-push_all [] stack = omega arith
length-push_all (r ∷ rs) stack = omega (arith, length-push_all rs (r.to ∷ stack))

pub In-push_all_stack :
    (x : EntityId) (rs : List Relationship) (stack : List EntityId)
    → In x stack
    → In x (push_all rs stack)
In-push_all_stack x [] stack h = h
In-push_all_stack x (r ∷ rs) stack h = In-push_all_stack x rs (r.to ∷ stack) (inr h)

pub In-push_all_target :
    (r : Relationship) (rs : List Relationship) (stack : List EntityId)
    → In r rs
    → In r.to (push_all rs stack)
In-push_all_target r [] stack h = absurd h
In-push_all_target r (s ∷ rs) stack (inl e) =
    In-push_all_stack r.to rs (s.to ∷ stack) (inl (ap (λ (y : Relationship). y.to) e))
In-push_all_target r (s ∷ rs) stack (inr h) = In-push_all_target r rs (s.to ∷ stack) h

-- What stands on the stack afterwards stood there before or is a target.
pub push_all-cases :
    (x : EntityId) (rs : List Relationship) (stack : List EntityId)
    → In x (push_all rs stack)
    → In x stack ⊎ ((r : Relationship) × In r rs × (r.to ≡ x))
push_all-cases x [] stack h = inl h
push_all-cases x (r ∷ rs) stack h = elim (push_all-cases x rs (r.to ∷ stack) h) [
  | inl (inl e) ↦ inr (r, inl refl, sym e)
  | inl (inr i) ↦ inl i
  | inr (s, i, e) ↦ inr (s, inr i, e)
]

module _ (parent : EntityId) where
  -- Whether the scan meets an edge to `parent`; if not, it pushes every target.
  pub scan-found :
      (rs : List Relationship) (stack : List EntityId)
      → (scan_children parent rs stack).0 ≡ true
      → (r : Relationship) × In r rs × (r.to ≡ parent)
  unfolding scan_children
  scan-found [] stack h = absurd (cc)
  scan-found (r ∷ rs) stack h = elim (Bool-cases (r.to == parent)) [
    | inl e ↦ (r, inl refl, (eq_iff r.to parent).0 e)
    | inr e ↦ let (s, i, q) = scan-found rs (r.to ∷ stack) (ground arith) in (s, inr i, q)
  ]

  pub scan-missed :
      (rs : List Relationship) (stack : List EntityId)
      → (scan_children parent rs stack).0 ≡ false
      → ((scan_children parent rs stack).1 ≡ push_all rs stack)
        × ((r : Relationship) → In r rs → r.to ≢ parent)
  unfolding scan_children
  scan-missed [] stack h = (refl, λ r i. absurd i)
  scan-missed (r ∷ rs) stack h = elim (Bool-cases (r.to == parent)) [
    | inl e ↦ absurd (ground arith)
    | inr e ↦
        let rest = scan-missed rs (r.to ∷ stack) (ground arith) in
        rw e (
          rest.0,
          λ s. elim [ inl q ↦ λ k. ground (arith, eq_iff r.to parent) | inr i ↦ rest.1 s i ],
        )
  ]

-- An adapter whose IterateChildren yields the ParentChild edges of a list that leave the person.
