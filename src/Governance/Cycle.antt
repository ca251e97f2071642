-- ===== src/Governance/Cycle.antt =====
-- wouldCreateCycle of governance/apply.go, over any adapter. The loop takes fuel: one round for each
-- id that leaves the stack.
pub mod Graph
pub mod Scan
pub mod Search
pub mod Acyclic
use linea_core.Prelude.{
  ℕ, zero, suc, Bool, true, false, List, [], ◌∷◌, ◌==◌, string_Eq, exists, if◌then◌else◌,
}
use linea_core.Errors.{Result, ok, err, out_of_fuel, ◌>>=◌}
use linea_core.Model.Ids.{EntityId}
use linea_core.Model.Relationship.{Relationship}
use linea_core.Store.Port.{ReadTx, finish}

-- _, seen := visited[n]
abbrev pub contains : EntityId → List EntityId → Bool
contains n = exists (λ v. v == n)

-- The function that is handed to IterateChildren: whether it found `parent`, and the stack, whose
-- top is the head of the list.
unfoldable pub scan_children : EntityId → List Relationship → List EntityId → Bool × List EntityId
scan_children parent [] stack = (false, stack)
scan_children parent (rel ∷ rels) stack =
    if rel.to == parent then (true, stack) else scan_children parent rels (rel.to ∷ stack)

module _ (R : ReadTx) (tx : R.Tx) (parent : EntityId) where
  -- An iteration that `yield` stopped returns no error.
  unfoldable pub descend : ℕ → List EntityId → List EntityId → Result Bool
  unfolding scan_children
  descend zero visited stack = err out_of_fuel
  descend (suc fuel) visited [] = ok false
  descend (suc fuel) visited (n ∷ stack) = elim (contains n visited) [
    | true ↦ descend fuel visited stack
    | false ↦
        let scan = R.iterate_children tx n in
        let (found, stack') = scan_children parent scan.items stack in
        let ended : Result (Unit {0}) = finish scan.failure tt in
        elim found [ true ↦ ok true | false ↦ ended >>= λ _. descend fuel (n ∷ visited) stack' ]
  ]

unfoldable pub would_create_cycle : (R : ReadTx) → ℕ → R.Tx → EntityId → EntityId → Result Bool
unfolding descend
would_create_cycle R fuel tx parent child =
    if parent == child then ok true else descend R tx parent fuel [] (child ∷ [])
