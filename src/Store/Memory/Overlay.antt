-- ===== src/Store/Memory/Overlay.antt =====
-- What commitState makes of the pending writes of store/memory/writetx.go.
use linea_core.Prelude.{
  ◌≡◌, string_Eq, refl, [], ◌∷◌, Option, none, some, Map, lookup, insert, erase, lookup-insert,
  lookup-erase, IsIndex, IsPending, insert-IsIndex, erase-IsIndex, arith,
}
use text.Mathlib.TextEquality.{eq_iff}
use linea_core.Model.Ids.{EntityId}
use linea_core.Store.Memory.WriteTx.{Overlay, apply_overlay}

-- What a key holds under a pending write.
abbrev pub overlaid : {V : Type 0} → Option (Option V) → Option V → Option V
overlaid none base = base
overlaid (some v) base = v

module _ {V : Type 0} (id : V → EntityId) where
  pub lookup-apply_overlay :
      (k : EntityId) (dst : Map EntityId V) (over : Overlay V)
      → IsPending id over
      → lookup k (apply_overlay dst over) ≡ overlaid (lookup k over) (lookup k dst)
  unfolding apply_overlay lookup
  lookup-apply_overlay k dst [] d = refl
  lookup-apply_overlay k dst ((j, none) ∷ over) d =
      ground
        (arith, lookup-apply_overlay k (erase j dst) over d.1, lookup-erase j k dst, eq_iff j k)
  lookup-apply_overlay k dst ((j, some v) ∷ over) d =
      ground (
        arith,
        lookup-apply_overlay k (insert j v dst) over d.2,
        lookup-insert j k v dst,
        eq_iff j k,
      )

  pub apply_overlay-IsIndex :
      (dst : Map EntityId V) (over : Overlay V)
      → IsPending id over
      → IsIndex id dst
      → IsIndex id (apply_overlay dst over)
  unfolding apply_overlay
  apply_overlay-IsIndex dst [] d h = h
  apply_overlay-IsIndex dst ((j, none) ∷ over) d h =
      apply_overlay-IsIndex (erase j dst) over d.1 (erase-IsIndex id j dst h)
  apply_overlay-IsIndex dst ((j, some v) ∷ over) d h =
      apply_overlay-IsIndex (insert j v dst) over d.2 (insert-IsIndex id j v dst d.0 h)
