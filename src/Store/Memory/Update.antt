-- ===== src/Store/Memory/Update.antt =====
-- Update, View and ViewAt of store/memory/memory.go.
use linea_core.Prelude.{
  ℕ, ◌+◌, ◌-◌, ◌≡◌, refl, ◌==◌, nat_Eq, ltb, Bool, true, false, not, ◌&&◌, ◌||◌, [], ◌∷◌, none, Map,
  lookup, insert, lookup-insert, arith, if◌then◌else◌, Bool-cases, inl, inr,
}
use linea_core.Errors.{
  Result, Error, ok, err, new, invalid_argument, version_not_found, Result-cases,
}
use linea_core.Store.Port.{Version}
use linea_core.Store.Memory.State.{State}
use linea_core.Store.Memory.WriteTx.{WriteTx, commit_state, new_write_tx}
use linea_core.Store.Memory.{
  Store, view, view_at, current_version, update, next_version, prune_below, prune_history,
}

-- Whether a version is no longer kept when `cur` is current: neither the first one nor the current
-- one, and more than `limit` behind, where there is a limit.
abbrev pub is_pruned : ℕ → Version → Version → Bool
is_pruned limit cur v = not (limit == 0) && not (v == 0) && not (v == cur) && ltb (v + limit) cur

lookup-prune_below :
    (cur keep_from v : Version) (h : Map Version State)
    → lookup v (prune_below cur keep_from h)
      ≡ (if not (v == 0 || v == cur) && ltb v keep_from then none else lookup v h)
unfolding prune_below lookup
lookup-prune_below cur keep_from v [] = ground arith
lookup-prune_below cur keep_from v ((i, st) ∷ h) =
    ground (arith, lookup-prune_below cur keep_from v h)

-- Update on a closed store, and with a function that fails: the error comes back, and the store is
-- as it was.
pub update_rolls_back :
    {A : Type 0} (s : Store) (f : WriteTx → Result (A × WriteTx)) (e : Error)
    → (s.closed ≡ true → update s f ≡ (err (new invalid_argument), s))
      × (s.closed ≡ false → f (new_write_tx s.current) ≡ err e → update s f ≡ (err e, s))
unfolding update
update_rolls_back s f e = (λ c. simp c, λ c h. simp (c, h))

-- The state that a successful transaction commits.
abbrev pub next_state : Store → WriteTx → State
next_state s w = commit_state w (next_version s.current.version)

-- The store after that, before pruning.
abbrev extended : Store → WriteTx → Store
extended s w = record s {
  history = insert (next_version s.current.version) (next_state s w) s.history;
  current = next_state s w;
}

pub version-commit : (w : WriteTx) (v : Version) → (commit_state w v).version ≡ v
unfolding commit_state
version-commit w v = refl

pub update-ok :
    {A : Type 0} (s : Store) (f : WriteTx → Result (A × WriteTx)) (a : A) (w : WriteTx)
    → s.closed ≡ false
    → f (new_write_tx s.current) ≡ ok (a, w)
    → update s f ≡ (ok (a, next_version s.current.version), prune_history (extended s w))
unfolding update commit_state
update-ok s f a w c h = simp (c, h)

prune-fields :
    (s : Store)
    → ((prune_history s).current ≡ s.current)
      × ((prune_history s).max_keep ≡ s.max_keep)
      × ((prune_history s).closed ≡ s.closed)
unfolding prune_history
prune-fields s = ground arith

pub update-fields :
    {A : Type 0} (s : Store) (f : WriteTx → Result (A × WriteTx)) (a : A) (w : WriteTx)
    → s.closed ≡ false
    → f (new_write_tx s.current) ≡ ok (a, w)
    → ((update s f).1.current ≡ next_state s w)
      × ((update s f).1.max_keep ≡ s.max_keep)
      × ((update s f).1.closed ≡ s.closed)
update-fields s f a w c h = rw (update-ok s f a w c h) (prune-fields (extended s w))

lookup-prune_history :
    (s : Store) (v : Version)
    → lookup v (prune_history s).history
      ≡ (if is_pruned s.max_keep s.current.version v then none else lookup v s.history)
unfolding prune_history
lookup-prune_history s v = ground (
  arith,
  lookup-prune_below s.current.version (s.current.version - s.max_keep) v s.history,
  lookup-prune_below s.current.version 0 v s.history,
)

-- A transaction that succeeds on an open store returns the next version, and the store stays open
-- with the committed state as its current one. ViewAt then finds that state under the new version,
-- no longer finds the versions that the limit prunes, and finds under every other version what it
-- found before.
pub update_commits :
    {A : Type 0} (s : Store) (f : WriteTx → Result (A × WriteTx)) (a : A) (w : WriteTx)
    → s.closed ≡ false
    → f (new_write_tx s.current) ≡ ok (a, w)
    → let s' = (update s f).1 in
      let v = next_version s.current.version in
      ((update s f).0 ≡ ok (a, v))
      × (view s' ≡ ok (next_state s w))
      × (current_version s' ≡ ok v)
      × ((u : Version)
          → view_at s' u ≡ (
              if u == v
              then ok (next_state s w)
              else if is_pruned s.max_keep v u
              then err (new version_not_found)
              else view_at s u))
unfolding view view_at current_version
update_commits s f a w c h =
    let fields = prune-fields (extended s w) in
    let v = next_version s.current.version in
    rw (update-ok s f a w c h) (
      refl,
      ground (arith, fields),
      ground (arith, fields, version-commit w v),
      λ u. ground (
        arith,
        fields,
        version-commit w v,
        lookup-prune_history (extended s w) u,
        lookup-insert v u (next_state s w) s.history,
      ),
    )

-- What holds of the current state, and of every state that the function may commit, holds of the
-- current state after Update, whether that succeeds or fails.
pub update-current :
    {A : Type 0} (P : State → Type 0) (s : Store) (f : WriteTx → Result (A × WriteTx))
    → P s.current
    → ((a : A) (w : WriteTx) → f (new_write_tx s.current) ≡ ok (a, w) → P (next_state s w))
    → P (update s f).1.current
update-current P s f now then_holds = elim (Bool-cases s.closed) [
  | inl c ↦ rw ((update_rolls_back s f (new invalid_argument)).0 c) now
  | inr c ↦ elim (Result-cases (f (new_write_tx s.current))) [
    | inr (e, h) ↦ rw ((update_rolls_back s f e).1 c h) now
    | inl ((a, w), h) ↦ rw (update-fields s f a w c h).0 (then_holds a w h)
  ]
]
