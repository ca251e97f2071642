-- ===== src/Prelude/Index.antt =====
-- Maps whose values carry their own key, and pending changes to such maps.
use linea_core.Prelude.Tests.{Eq, ◌==◌, Bool-cases}
use linea_core.Prelude.Lists.{In}
use linea_core.Prelude.Maps.{Map, lookup, insert, erase, values, lookup-insert, lookup-erase}
use mathlib.Core.Path.{◌≡◌, refl}
use mathlib.Core.Logic.{inl, inr}
use mathlib.Core.Option.{Option, none, some}
use mathlib.Core.List.{[], ◌∷◌}
use native.Mathlib.Omega.{arith}

module _ {K V : Type 0} ⦃e : Eq K⦄ (id : V → K) where
  -- Every value stands under its own key, and no key stands twice.
  abbrev pub IsIndex : Map K V → Type 0
  IsIndex [] = Unit
  IsIndex ((k, v) ∷ m) = (id v ≡ k) × (lookup k m ≡ none) × IsIndex m

  -- Every pending value stands under its own key, and no key stands twice.
  abbrev pub IsPending : Map K (Option V) → Type 0
  IsPending [] = Unit
  IsPending ((k, none) ∷ m) = (lookup k m ≡ none) × IsPending m
  IsPending ((k, some v) ∷ m) = (id v ≡ k) × (lookup k m ≡ none) × IsPending m

  pub insert-IsIndex : (k : K) (v : V) (m : Map K V) → id v ≡ k → IsIndex m → IsIndex (insert k v m)
  unfolding insert lookup
  insert-IsIndex k v [] h d = (h, refl, tt)
  insert-IsIndex k v ((i, w) ∷ m) h d =
      ground (arith, e.agrees i k, e.agrees k i, lookup-insert k i v m, insert-IsIndex k v m h d.2)

  pub erase-IsIndex : (k : K) (m : Map K V) → IsIndex m → IsIndex (erase k m)
  unfolding erase
  erase-IsIndex k [] d = tt
  erase-IsIndex k ((i, w) ∷ m) d =
      ground (arith, e.agrees k i, lookup-erase k i m, erase-IsIndex k m d.2)

  pub insert-IsPending-some :
      (k : K) (v : V) (m : Map K (Option V))
      → id v ≡ k
      → IsPending m
      → IsPending (insert k (some v) m)
  unfolding insert lookup
  insert-IsPending-some k v [] h d = (h, refl, tt)
  insert-IsPending-some k v ((i, none) ∷ m) h d = ground (
    arith,
    e.agrees i k,
    e.agrees k i,
    lookup-insert k i (some v) m,
    insert-IsPending-some k v m h d.1,
  )
  insert-IsPending-some k v ((i, some w) ∷ m) h d = ground (
    arith,
    e.agrees i k,
    e.agrees k i,
    lookup-insert k i (some v) m,
    insert-IsPending-some k v m h d.2,
  )

  pub insert-IsPending-none :
      (k : K) (m : Map K (Option V)) → IsPending m → IsPending (insert k none m)
  unfolding insert lookup
  insert-IsPending-none k [] d = (refl, tt)
  insert-IsPending-none k ((i, none) ∷ m) d = ground (
    arith,
    e.agrees i k,
    e.agrees k i,
    lookup-insert {V = Option V} k i none m,
    insert-IsPending-none k m d.1,
  )
  insert-IsPending-none k ((i, some w) ∷ m) d = ground (
    arith,
    e.agrees i k,
    e.agrees k i,
    lookup-insert {V = Option V} k i none m,
    insert-IsPending-none k m d.2,
  )

  pub id-lookup : (k : K) (v : V) (m : Map K V) → IsIndex m → lookup k m ≡ some v → id v ≡ k
  unfolding lookup
  id-lookup k v [] d h = cc
  id-lookup k v ((i, w) ∷ m) d h = ground (arith, e.agrees i k, id-lookup k v m d.2)

  pub lookup-In : (v : V) (m : Map K V) → IsIndex m → In v (values m) → lookup (id v) m ≡ some v
  unfolding lookup values
  lookup-In v [] d h = absurd h
  lookup-In v ((i, w) ∷ m) d (inl h) = ground (arith, e.agrees i (id v))
  lookup-In v ((i, w) ∷ m) d (inr h) = ground (arith, e.agrees i (id v), lookup-In v m d.2 h)

module _ {K V : Type 0} ⦃e : Eq K⦄ where
  pub In-lookup : (k : K) (v : V) (m : Map K V) → lookup k m ≡ some v → In v (values m)
  unfolding lookup values
  In-lookup k v [] h = absurd (cc)
  In-lookup k v ((i, w) ∷ m) h = elim (Bool-cases (i == k)) [
    | inl b ↦ inl (ground arith)
    | inr b ↦ inr (In-lookup k v m (ground arith))
  ]
