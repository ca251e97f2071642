-- ===== src/Governance/Cycle/Graph.antt =====
-- Descent along ParentChild edges: the specification of wouldCreateCycle of governance/apply.go.
use linea_core.Prelude.{
  ◌+◌, ◌≡◌, inl, inr, Bool, true, false, ◌&&◌, not, List, [], ◌∷◌, ◌==◌, nat_Eq, string_Eq, arith,
  In, keep, length, Bool-cases, ◌↔◌,
}
use text.Mathlib.TextEquality.{eq_iff}
use linea_core.Model.Ids.{EntityId}
use linea_core.Model.Relationship.{Relationship, parent_child}
use linea_core.Store.Memory.State.{is_child_edge}
use linea_core.Governance.Cycle.{contains}

-- `b` is a child of `a` by an edge of the list.
abbrev pub Edge : List Relationship → EntityId → EntityId → Type 0
Edge rs a b = (r : Relationship) × In r rs × (r.rel_type ≡ parent_child) × (r.from ≡ a) × (r.to ≡ b)

-- `b` is a descendant of `a`, by one edge or more.
pub data Descends (rs : List Relationship) (a : EntityId) : EntityId → Type 0 where
  first : {b : EntityId} → Edge rs a b → Descends rs a b
  further : {b c : EntityId} → Descends rs a b → Edge rs b c → Descends rs a c

-- Nobody is a descendant of themselves.
abbrev pub IsAcyclic : List Relationship → Type 0
IsAcyclic rs = (a : EntityId) → ¬ Descends rs a a

pub Descends-trans :
    {rs : List Relationship} {a b c : EntityId}
    → Descends rs a b
    → Descends rs b c
    → Descends rs a c
Descends-trans d (first e) = further d e
Descends-trans d (further d' e) = further (Descends-trans d d') e

pub In-keep :
    {A : Type 0} (p : A → Bool) (x : A) (xs : List A) → In x (keep p xs) ↔ (In x xs × (p x ≡ true))
In-keep p x [] = (λ h. absurd h, λ h. h.0)
In-keep p x (y ∷ ys) =
    let ih = In-keep p x ys in
    elim (Bool-cases (p y)) [
      | inl h ↦ rw h (λ i. ground (arith, ih.0), λ i. ground (arith, ih.1))
      | inr h ↦ rw h (λ i. ground (arith, ih.0), λ i. ground (arith, ih.1))
    ]

pub contains_iff : (n : EntityId) (vs : List EntityId) → (contains n vs ≡ true) ↔ In n vs
contains_iff n [] = ground arith
contains_iff n (v ∷ vs) = ground (arith, contains_iff n vs, eq_iff v n)

-- The edges whose parent is not visited yet.
abbrev pub is_open : List EntityId → Relationship → Bool
is_open visited r = r.rel_type == parent_child && not (contains r.from visited)

-- A visit to `n` closes the edges that leave it.
pub length-is_open :
    (n : EntityId) (visited : List EntityId) (rs : List Relationship)
    → contains n visited ≡ false
    → length (keep (is_open (n ∷ visited)) rs) + length (keep (is_child_edge n) rs)
      ≡ length (keep (is_open visited) rs)
length-is_open n visited [] h = omega arith
length-is_open n visited (r ∷ rs) h =
    ground (arith, length-is_open n visited rs h, eq_iff n r.from, eq_iff r.from n)
