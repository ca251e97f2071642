-- ===== src/Store/Memory/Versions.antt =====
-- Which versions a store of store/memory still shows after any run of updates.
use linea_core.Prelude.{
  ℕ, suc, ◌<◌, ◌^◌, ◌≡◌, refl, ap, ◌∙◌, ◌==◌, nat_Eq, leb, Bool, true, false, not, ◌&&◌, lookup,
  arith, if◌then◌else◌,
}
use linea_core.Prelude.Int.{ℤ, pos, negsuc}
use linea_core.Errors.{Result, Error, ok, err, new, version_not_found}
use linea_core.Store.Port.{Version}
use linea_core.Store.Memory.State.{State}
use linea_core.Store.Memory.WriteTx.{WriteTx, new_write_tx}
use linea_core.Store.Memory.Writes.{Writes}
use linea_core.Store.Memory.Commit.{IsWellFormed, commit-IsWellFormed}
use linea_core.Store.Memory.{Store, new_store, view_at, update, next_version}
use linea_core.Store.Memory.Update.{
  is_pruned, update_commits, update_rolls_back, update-fields, version-commit, next_state,
}

-- The stores that `n` successful updates, and any failing ones, make of a new store. Each update
-- function works by the mutators.
pub data Ran (A : Type 0) (limit : ℤ) : ℕ → Store → Type 0 where
  started : Ran A limit 0 (new_store limit)
  failed :
      {n : ℕ} {s : Store} (f : WriteTx → Result (A × WriteTx)) (e : Error)
      → Ran A limit n s
      → f (new_write_tx s.current) ≡ err e
      → Ran A limit n (update s f).1
  committed :
      {n : ℕ} {s : Store} (f : WriteTx → Result (A × WriteTx)) (a : A) (w : WriteTx)
      → Ran A limit n s
      → f (new_write_tx s.current) ≡ ok (a, w)
      → Writes s.current w
      → Ran A limit (suc n) (update s f).1

-- WithHistoryLimit: a negative limit counts as none.
abbrev pub limit_of : ℤ → ℕ
limit_of (pos k) = k
limit_of (negsuc k) = 0

-- After `n` updates: the versions up to the current one that are not pruned.
abbrev pub is_kept : ℕ → ℕ → Version → Bool
is_kept limit n v = leb v n && not (is_pruned limit n v)

abbrev pub is_ok : {A : Type 0} → Result A → Bool
is_ok (ok a) = true
is_ok (err e) = false

pub record IsConsistent (limit : ℕ) (n : ℕ) (s : Store) : Type 0 where
  pub is_open : s.closed ≡ false
  pub keep : s.max_keep ≡ limit
  pub version : s.current.version ≡ n
  pub formed : IsWellFormed s.current
  pub shown : (v : Version) → is_ok (view_at s v) ≡ is_kept limit n v

started-IsConsistent : (limit : ℤ) → IsConsistent (limit_of limit) 0 (new_store limit)
unfolding new_store view_at lookup
started-IsConsistent (pos k) = record {
  is_open = refl;
  keep = refl;
  version = refl;
  formed = record { persons = tt; relationships = tt; sources = tt; proposals = tt };
  shown = λ v. ground arith;
}
started-IsConsistent (negsuc k) = record {
  is_open = refl;
  keep = refl;
  version = refl;
  formed = record { persons = tt; relationships = tt; sources = tt; proposals = tt };
  shown = λ v. ground arith;
}

-- One more version, and the answers of `view_at` as `update_commits` says.
shown_step :
    (limit n u keep v : ℕ) (st : State) (before : Result State)
    → keep ≡ limit
    → v ≡ suc n
    → is_ok before ≡ is_kept limit n u
    → is_ok (
        if u == v
        then ok st
        else if is_pruned keep v u
        then err (new version_not_found)
        else before)
      ≡ is_kept limit (suc n) u
shown_step limit n u keep v st before k e h = ground arith

committed-IsConsistent :
    {A : Type 0} (limit n : ℕ) (s : Store) (f : WriteTx → Result (A × WriteTx)) (a : A)
    (w : WriteTx)
    → suc n < 2 ^ 64
    → IsConsistent limit n s
    → f (new_write_tx s.current) ≡ ok (a, w)
    → Writes s.current w
    → IsConsistent limit (suc n) (update s f).1
committed-IsConsistent limit n s f a w room c runs ws =
    let fields = update-fields s f a w c.is_open runs in
    let after = update_commits s f a w c.is_open runs in
    let v : next_version s.current.version ≡ suc n = rw c.version (omega arith) in
    record {
      is_open = fields.2 ∙ c.is_open;
      keep = fields.1 ∙ c.keep;
      version =
          ap (λ (t : State). t.version) fields.0
          ∙ version-commit w (next_version s.current.version)
          ∙ v;
      formed = rw fields.0 (commit-IsWellFormed (next_version s.current.version) c.formed ws);
      shown = λ u. rw (after.3 u) (
          shown_step limit n u s.max_keep (next_version s.current.version) (next_state s w)
            (view_at s u) c.keep v (c.shown u));
    }

Ran-IsConsistent :
    {A : Type 0} {limit : ℤ} {n : ℕ} {s : Store}
    → Ran A limit n s
    → n < 2 ^ 64
    → IsConsistent (limit_of limit) n s
Ran-IsConsistent {A} {limit} started h = started-IsConsistent limit
Ran-IsConsistent (failed {n} {s} f e r bad) h =
    let c = Ran-IsConsistent r h in rw ((update_rolls_back s f e).1 c.is_open bad) c
Ran-IsConsistent {A} {limit} (committed {n} {s} f a w r runs ws) h =
    committed-IsConsistent (limit_of limit) n s f a w h (Ran-IsConsistent r (omega arith)) runs ws

-- However updates succeeded and failed, after `n` successful ones (fewer than 2 ^ 64) the current
-- version is `n`, its state is well formed, and ViewAt succeeds for exactly the versions up to `n`
-- that are 0, or `n`, or at most the limit behind `n`, and for all of them if there is no limit. So a
-- limit of 2 keeps version 3 at version 5, besides 4, 5 and 0, and a comment in
-- store/memory/memory_test.go, which names 4, 5 and 0 alone, says otherwise.
pub versions_kept :
    {A : Type 0} (limit : ℤ) (n : ℕ) (s : Store)
    → Ran A limit n s
    → n < 2 ^ 64
    → (s.current.version ≡ n)
      × IsWellFormed s.current
      × ((v : Version) → is_ok (view_at s v) ≡ is_kept (limit_of limit) n v)
versions_kept limit n s r h = let c = Ran-IsConsistent r h in (c.version, c.formed, c.shown)
