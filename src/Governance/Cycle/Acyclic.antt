-- ===== src/Governance/Cycle/Acyclic.antt =====
-- What wouldCreateCycle of governance/apply.go has to do with descent and with cycles.
use linea_core.Prelude.{
  ℕ, ◌+◌, ◌≤◌, ◌<◌, ◌≡◌, ◌⊎◌, inl, inr, sym, ◌∙◌, Bool, true, false, List, [], ◌∷◌, ◌==◌, string_Eq,
  arith, In, keep, length, Bool-cases, none, Map, insert, erase, values,
}
use mathlib.Core.Path.{subst}
use text.Mathlib.TextEquality.{eq_iff}
use linea_core.Errors.{ok}
use linea_core.Model.Ids.{EntityId}
use linea_core.Model.Relationship.{Relationship}
use linea_core.Store.Port.{ReadTx}
use linea_core.Store.Memory.State.{is_child_edge}
use linea_core.Governance.Cycle.{would_create_cycle}
use linea_core.Governance.Cycle.Graph.{
  Edge, Descends, first, further, Descends-trans, IsAcyclic, is_open,
}
use linea_core.Governance.Cycle.Search.{descend_decides}

length-keep : {A : Type 0} (p : A → Bool) (xs : List A) → length (keep p xs) ≤ length xs
length-keep p [] = omega arith
length-keep p (x ∷ xs) = ground (arith, length-keep p xs)

-- What the search is after: `parent` is the child itself or one of its descendants.
abbrev pub IsOver : List Relationship → EntityId → EntityId → Type 0
IsOver rs parent child = (parent ≡ child) ⊎ Descends rs child parent

-- On an adapter whose IterateChildren yields the ParentChild edges of a list that leave a person,
-- with one more round of fuel than edges and one for the end, wouldCreateCycle returns, and it
-- returns true exactly if the parent is the child or a descendant of the child.
pub would_create_cycle_decides :
    (R : ReadTx) (tx : R.Tx) (rs : List Relationship) (fuel : ℕ) (parent child : EntityId)
    → ((n : EntityId)
        → R.iterate_children tx n ≡ record { items = keep (is_child_edge n) rs; failure = none })
    → length rs + 1 < fuel
    → ((would_create_cycle R fuel tx parent child ≡ ok true) × IsOver rs parent child)
      ⊎ ((would_create_cycle R fuel tx parent child ≡ ok false) × ¬ IsOver rs parent child)
would_create_cycle_decides R tx rs fuel parent child law room =
    elim (Bool-cases (parent == child)) [
      | inl same ↦ inl (unfold would_create_cycle in rw same, inl ((eq_iff parent child).0 same))
      | inr other ↦
          elim (descend_decides R tx rs law parent fuel child
            (omega (arith, length-keep (is_open []) rs))) [
              | inl (h, d) ↦ inl (unfold would_create_cycle in rw other h, inr d)
              | inr (h, nd) ↦ inr (
                unfold would_create_cycle in rw other h,
                elim [ inl e ↦ absurd (ground (arith, eq_iff parent child)) | inr d ↦ nd d ],
              )
            ]
    ]

-- The edges of `rs'` are those of `rs` and perhaps one more, from `f` to `t`.
abbrev pub IsExtension : List Relationship → List Relationship → EntityId → EntityId → Type 0
IsExtension rs' rs f t = (a b : EntityId) → Edge rs' a b → Edge rs a b ⊎ ((a ≡ f) × (b ≡ t))

abbrev Reaches : List Relationship → EntityId → EntityId → Type 0
Reaches rs a b = (a ≡ b) ⊎ Descends rs a b

Reaches-Edge :
    {rs : List Relationship} {a b c : EntityId} → Reaches rs a b → Edge rs b c → Descends rs a c
Reaches-Edge {rs} {c = c} (inl e) s = first (subst (λ z. Edge rs z c) (sym e) s)
Reaches-Edge (inr d) s = further d s

module _ (rs' rs : List Relationship) (f t : EntityId) (ext : IsExtension rs' rs f t) where
  -- A descent of the extension is one of `rs`, or goes through the new edge.
  Descends-extension :
      {a b : EntityId} → Descends rs' a b → Descends rs a b ⊎ (Reaches rs a f × Reaches rs t b)
  Descends-extension {a} (first {b} e) = elim (ext a b e) [
    | inl s ↦ inl (first s)
    | inr (p, q) ↦ inr (inl p, inl (sym q))
  ]
  Descends-extension {a} (further {b} {c} d e) = elim (Descends-extension d) [
    | inl d' ↦ elim (ext b c e) [
      | inl s ↦ inl (further d' s)
      | inr (p, q) ↦ inr (inr (subst (Descends rs a) p d'), inl (sym q))
    ]
    | inr (x, y) ↦ elim (ext b c e) [
      | inl s ↦ inr (x, inr (Reaches-Edge y s))
      | inr (p, q) ↦ inr (x, inl (sym q))
    ]
  ]

  pub extension-IsAcyclic : IsAcyclic rs → ¬ IsOver rs f t → IsAcyclic rs'
  extension-IsAcyclic acyclic clear a d = elim (Descends-extension d) [
    | inl d' ↦ acyclic a d'
    | inr (inl p, inl q) ↦ clear (inl (sym p ∙ sym q))
    | inr (inl p, inr e) ↦ clear (inr (subst (Descends rs t) p e))
    | inr (inr e, inl q) ↦ clear (inr (subst (λ z. Descends rs z f) (sym q) e))
    | inr (inr e, inr e') ↦ clear (inr (Descends-trans e' e))
  ]

-- Fewer edges close no cycle either.
pub Descends-mono :
    {rs' rs : List Relationship} {a b : EntityId}
    → ((x y : EntityId) → Edge rs' x y → Edge rs x y)
    → Descends rs' a b
    → Descends rs a b
Descends-mono {a} sub (first {b} e) = first (sub a b e)
Descends-mono sub (further {b} {c} d e) = further (Descends-mono sub d) (sub b c e)

pub In-values-insert :
    {V : Type 0} (x v : V) (k : EntityId) (m : Map EntityId V)
    → In x (values (insert k v m))
    → (x ≡ v) ⊎ In x (values m)
unfolding values insert
In-values-insert x v k [] i = i
In-values-insert x v k ((j, w) ∷ m) i = ground (arith, In-values-insert x v k m)

pub In-values-erase :
    {V : Type 0} (x : V) (k : EntityId) (m : Map EntityId V)
    → In x (values (erase k m))
    → In x (values m)
unfolding values erase
In-values-erase x k [] i = i
In-values-erase x k ((j, w) ∷ m) i = ground (arith, In-values-erase x k m)
