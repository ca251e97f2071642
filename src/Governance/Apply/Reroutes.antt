-- ===== src/Governance/Apply/Reroutes.antt =====
-- The edges that applyMerge of governance/apply.go moves from one person to another.
use linea_core.Prelude.{
  ◌≡◌, sym, true, false, List, [], ◌∷◌, none, some, ◌==◌, string_Eq, nat_Eq, In, arith, lookup,
  values, keep, In-lookup,
}
use mathlib.Core.Path.{subst}
use text.Mathlib.TextEquality.{eq_iff}
use linea_core.Errors.{ok}
use linea_core.Errors.Ensures.{Ensures, Ensures-bind, Ensures-ok, Ensures-if}
use linea_core.Model.Ids.{EntityId}
use linea_core.Model.Relationship.{
  Relationship, RelationshipType, RelationshipOptions, is_valid, new_relationship,
}
use linea_core.Model.Certainty.{Certainty}
use linea_core.Model.Continuity.{Continuity}
use linea_core.Store.Memory.State.{State}
use linea_core.Store.Memory.WriteTx
use linea_core.Store.Memory.WriteTx.{WriteTx, new_write_tx}
use linea_core.Store.Memory.Effects.{put_relationship-ok, delete_relationship-ok}
use linea_core.Store.Memory.Refines.{contents, seen-insert}
use linea_core.Store.Memory.{writing}
use linea_core.Governance.Cycle.Graph.{In-keep}
use linea_core.Governance.Apply.{touches, redirect, merge_edge, merge_edges}
use linea_core.Governance.Apply.Endpoints.{
  IsIntact, put_relationship-IsIntact, delete_relationship-IsIntact,
}

-- The edges that touch the person are among the given ones.
pub record IsRerouted (secondary : EntityId) (rs : List Relationship) (w : WriteTx) : Type 0 where
  pub intact : IsIntact w
  pub left :
      (id : EntityId) (r : Relationship)
      → (contents w).relationships id ≡ some r
      → touches secondary r ≡ true
      → In r rs

pub new_relationship-parts :
    (id from to : EntityId) (t : RelationshipType) (c : Certainty) (k : Continuity)
    (opts : RelationshipOptions) {r : Relationship}
    → new_relationship id from to t c k opts ≡ ok r
    → (is_valid r.rel_type ≡ true) × (r.from ≡ from) × (r.to ≡ to)
unfolding new_relationship
new_relationship-parts id from to t c k opts h = ground arith

module _ {secondary : EntityId} {rs : List Relationship} where
  delete_relationship-IsRerouted :
      {w : WriteTx} (r : Relationship)
      → IsRerouted secondary (r ∷ rs) w
      → Ensures (IsRerouted secondary rs) (WriteTx.delete_relationship w r.id)
  delete_relationship-IsRerouted {w} r h = record {
    at = λ x e. record {
      intact = (delete_relationship-IsIntact h.intact r.id).at x e;
      left = rw (delete_relationship-ok w x r.id e).1 (
          subst
            (λ f.
              (id : EntityId) (s : Relationship)
              → f id ≡ some s
              → touches secondary s ≡ true
              → In s rs)
            (sym (seen-insert w.rel_over w.base.relationships r.id none))
            (λ id s found t. ground (arith, h.left id s, h.intact.whole.at id s, eq_iff r.id id)));
    };
  }

  put_relationship-IsRerouted :
      {w : WriteTx} (r : Relationship)
      → IsRerouted secondary rs w
      → is_valid r.rel_type ≡ true
      → touches secondary r ≡ false
      → Ensures (IsRerouted secondary rs) (WriteTx.put_relationship w r)
  put_relationship-IsRerouted {w} r h valid free = record {
    at = λ x e. record {
      intact = (put_relationship-IsIntact h.intact r valid).at x e;
      left = rw (put_relationship-ok w x r e).3 (
          subst
            (λ f.
              (id : EntityId) (s : Relationship)
              → f id ≡ some s
              → touches secondary s ≡ true
              → In s rs)
            (sym (seen-insert w.rel_over w.base.relationships r.id (some r)))
            (λ id s found t. ground (arith, h.left id s)));
    };
  }

  merge_edge-IsRerouted :
      (target : EntityId) {w : WriteTx} (r : Relationship)
      → target == secondary ≡ false
      → IsRerouted secondary (r ∷ rs) w
      → Ensures (IsRerouted secondary rs) (merge_edge writing target secondary w r)
  unfolding merge_edge
  merge_edge-IsRerouted target {w} r differ h =
      Ensures-if _ _ _ (λ _. delete_relationship-IsRerouted r h)
        (λ _. Ensures-bind _ _ λ s made. Ensures-bind _ _ λ x dropped.
          let (valid, from, to) =
            new_relationship-parts r.id (redirect target secondary r.from)
              (redirect target secondary r.to) r.rel_type r.certainty r.continuity
              (record { time_range = r.time_range; notes = r.notes; sources = r.sources }) made in
          put_relationship-IsRerouted s ((delete_relationship-IsRerouted r h).at x dropped) valid
            (ground (arith, from, to)))

pub merge_edges-IsRerouted :
    (target : EntityId) {secondary : EntityId} {w : WriteTx} (rs : List Relationship)
    → target == secondary ≡ false
    → IsRerouted secondary rs w
    → Ensures (IsRerouted secondary []) (merge_edges writing target secondary w rs)
unfolding merge_edges
merge_edges-IsRerouted target {secondary} {w} [] differ h = Ensures-ok w h
merge_edges-IsRerouted target {secondary} {w} (r ∷ rs) differ h = Ensures-bind _ _ λ x e.
    merge_edges-IsRerouted target rs differ ((merge_edge-IsRerouted target r differ h).at x e)

pub begun-IsRerouted :
    (b : State) (secondary : EntityId)
    → IsIntact (new_write_tx b)
    → IsRerouted secondary (keep (touches secondary) (values b.relationships)) (new_write_tx b)
unfolding lookup
begun-IsRerouted b secondary intact = record {
  intact = intact;
  left = λ id r e t.
      (In-keep (touches secondary) r (values b.relationships)).1
        (In-lookup id r b.relationships e, t);
}
