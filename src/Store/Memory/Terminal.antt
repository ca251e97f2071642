-- ===== src/Store/Memory/Terminal.antt =====
-- Proposals in a terminal state, across transactions of store/memory.
use linea_core.Prelude.{
  ◌≡◌, refl, ◌==◌, string_Eq, nat_Eq, some, lookup, insert, lookup-insert, arith, true, false, ◌∙◌,
  ap, inl, inr, Bool-cases,
}
use text.Mathlib.TextEquality.{eq_iff}
use linea_core.Errors.{ok}
use linea_core.Model.Ids.{EntityId}
use linea_core.Model.Proposal.{Proposal, is_terminal}
use linea_core.Store.Port.{Version}
use linea_core.Store.Memory.State.{State}
use linea_core.Store.Memory.State
use linea_core.Store.Memory.WriteTx.{WriteTx, commit_state, is_frozen}
use linea_core.Store.Memory.Effects.{
  put_person-ok, delete_person-ok, put_relationship-ok, delete_relationship-ok, put_source-ok,
  delete_source-ok, put_proposal-ok,
}
use linea_core.Store.Memory.Writes
use linea_core.Store.Memory.Writes.{Writes, Write, begin, then_write, Writes-IsSound, IsSound}
use linea_core.Store.Memory.Refines.{contents}
use linea_core.Store.Memory.Commit.{commit-lookup}

-- The transaction holds a proposal under the id, in the state that the proposal `p` has.
abbrev Keeps : EntityId → Proposal → WriteTx → Type 0
Keeps id p w = (q : Proposal) × ((contents w).proposals id ≡ some q) × (q.state ≡ p.state)

module _ (b : State) (id : EntityId) (p : Proposal) (stored : lookup id b.proposals ≡ some p)
    (terminal : is_terminal p.state ≡ true) where
  put_proposal-Keeps :
      (w x : WriteTx) (q : Proposal)
      → w.base ≡ b
      → is_frozen (lookup q.id w.base.proposals) q ≡ false
      → x ≡ record w { prop_over = insert q.id (some q) w.prop_over }
      → Keeps id p w
      → Keeps id p x
  put_proposal-Keeps w x q base free e k = elim (Bool-cases (q.id == id)) [
    | inl same ↦ (
      q,
      rw e (ground (arith, lookup-insert q.id id (some q) w.prop_over)),
      ground (arith, eq_iff q.id id, ap (λ (y : State). lookup id y.proposals) base),
    )
    | inr other ↦ (k.0, rw e (ground (arith, lookup-insert q.id id (some q) w.prop_over)), k.2)
  ]

  Write-Keeps : {w x : WriteTx} → w.base ≡ b → Write w x → Keeps id p w → Keeps id p x
  Write-Keeps {w} {x} base (Writes.put_person y h) k = rw (put_person-ok w x y h).1 k
  Write-Keeps {w} {x} base (Writes.delete_person y h) k = rw (delete_person-ok w x y h).1 k
  Write-Keeps {w} {x} base (Writes.put_relationship y h) k = rw (put_relationship-ok w x y h).3 k
  Write-Keeps {w} {x} base (Writes.delete_relationship y h) k =
      rw (delete_relationship-ok w x y h).1 k
  Write-Keeps {w} {x} base (Writes.put_source y h) k = rw (put_source-ok w x y h).1 k
  Write-Keeps {w} {x} base (Writes.delete_source y h) k = rw (delete_source-ok w x y h).1 k
  Write-Keeps {w} {x} base (Writes.put_proposal q h) k =
      let f = put_proposal-ok w x q h in put_proposal-Keeps w x q base f.1 f.2 k

  Writes-Keeps : {w : WriteTx} → Writes b w → Keeps id p w
  unfolding lookup
  Writes-Keeps begin = (p, stored, refl)
  Writes-Keeps (then_write {w} ws s) = Write-Keeps (Writes-IsSound ws).base s (Writes-Keeps ws)

-- A proposal that was stored in a terminal state is there in the same state after every
-- transaction, whatever mutators were called in it.
pub terminal_final :
    (b : State) (w : WriteTx) (v : Version) (id : EntityId) (p : Proposal)
    → Writes b w
    → State.get_proposal b id ≡ ok p
    → is_terminal p.state ≡ true
    → (q : Proposal) × (State.get_proposal (commit_state w v) id ≡ ok q) × (q.state ≡ p.state)
unfolding State.get_proposal
terminal_final b w v id p ws h t =
    let (q, e, s) = Writes-Keeps b id p (ground arith) t ws in
    (q, rw ((commit-lookup v id ws).3 ∙ e), s)
