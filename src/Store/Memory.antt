-- ===== src/Store/Memory.antt =====
-- store/memory/memory.go. The mutex makes every method one step: a Store is a value, and a method
-- returns the next one.
pub mod State
pub mod WriteTx
pub mod Effects
pub mod Refines
pub mod Overlay
pub mod Writes
pub mod Commit
pub mod Terminal
pub mod Update
pub mod Versions
use linea_core.Prelude.{
  ℕ, zero, ◌+◌, ◌-◌, ◌%◌, ◌^◌, Bool, true, false, ◌&&◌, ◌||◌, not, List, [], ◌∷◌, Option, none,
  some, ◌==◌, nat_Eq, ltb, Map, lookup, insert, if◌then◌else◌, String,
}
use linea_core.Prelude.Int.{ℤ, pos, negsuc}
use linea_core.Errors.{
  Result, Error, ok, err, new, invalid_argument, version_not_found, ◌>>=◌, ◌>>◌, refuse_if,
}
use linea_core.Store.Port
use linea_core.Store.Port.{Version}
use State.{empty_state}
use WriteTx.{new_write_tx, commit_state}

pub record Store : Type 0 where
  pub current : State.State
  pub history : Map Version State.State
  pub max_keep : ℕ
  pub closed : Bool

-- New(WithHistoryLimit(n)); without the option n is 0.
unfoldable pub new_store : ℤ → Store
new_store n = record {
  current = empty_state;
  history = (0, empty_state) ∷ [];
  max_keep = elim n [ pos k ↦ k | negsuc _ ↦ 0 ];
  closed = false;
}

unfoldable pub current_version : Store → Result Version
current_version s = do refuse_if s.closed (new invalid_argument); ok s.current.version

unfoldable pub view : Store → Result State.State
view s = do refuse_if s.closed (new invalid_argument); ok s.current

unfoldable pub view_at : Store → Version → Result State.State
view_at s v = do
  refuse_if s.closed (new invalid_argument)
  elim (lookup v s.history) [ none ↦ err (new version_not_found) | some st ↦ ok st ]

-- The loop of pruneHistoryLocked.
prune_below : Version → Version → Map Version State.State → Map Version State.State
prune_below cur keep_from [] = []
prune_below cur keep_from ((v, st) ∷ h) =
    let rest = prune_below cur keep_from h in
    if not (v == 0 || v == cur) && ltb v keep_from then rest else (v, st) ∷ rest

unfoldable pub prune_history : Store → Store
unfolding prune_below
prune_history s =
    if s.max_keep == 0
    then s
    else let cur = s.current.version in
      let keep_from = if ltb s.max_keep cur then cur - s.max_keep else 0 in
      record s { history = prune_below cur keep_from s.history }

-- The uint64 successor.
abbrev pub next_version : Version → Version
next_version v = (v + 1) % 2 ^ 64

unfoldable pub update :
    {A : Type 0}
    → Store
    → (WriteTx.WriteTx → Result (A × WriteTx.WriteTx))
    → Result (A × Version) × Store
unfolding commit_state prune_history
update s f =
    if s.closed then (err (new invalid_argument), s) else elim (f (new_write_tx s.current)) [
      | err e ↦ (err e, s)
      | ok (a, tx) ↦
          let next = commit_state tx (next_version s.current.version) in
          (
            ok (a, next.version),
            prune_history
                (record s { history = insert next.version next s.history; current = next }),
          )
    ]

unfoldable pub close : Store → Store
close s = record s { closed = true; history = [] }

-- The adapter as an implementation of the port.
abbrev pub reading : Port.ReadTx
reading = record {
  Tx = State.State;
  version = λ s. s.version;
  get_person = State.get_person;
  get_relationship = State.get_relationship;
  get_source = State.get_source;
  get_proposal = State.get_proposal;
  iterate_children = State.iterate_children;
  iterate_parents = State.iterate_parents;
  iterate_marriages = State.iterate_marriages;
  iterate_persons = State.iterate_persons;
  iterate_relationships = State.iterate_relationships;
  iterate_sources = State.iterate_sources;
  iterate_proposals = State.iterate_proposals;
}

-- A write transaction: its own getters, and the embedded iterators over the base state.
abbrev pub writing : Port.WriteTx
writing = record {
  read = record {
    Tx = WriteTx.WriteTx;
    version = λ w. w.base.version;
    get_person = WriteTx.get_person;
    get_relationship = WriteTx.get_relationship;
    get_source = WriteTx.get_source;
    get_proposal = WriteTx.get_proposal;
    iterate_children = λ w. State.iterate_children w.base;
    iterate_parents = λ w. State.iterate_parents w.base;
    iterate_marriages = λ w. State.iterate_marriages w.base;
    iterate_persons = λ w. State.iterate_persons w.base;
    iterate_relationships = λ w. State.iterate_relationships w.base;
    iterate_sources = λ w. State.iterate_sources w.base;
    iterate_proposals = λ w. State.iterate_proposals w.base;
  };
  put_person = WriteTx.put_person;
  delete_person = WriteTx.delete_person;
  put_relationship = WriteTx.put_relationship;
  delete_relationship = WriteTx.delete_relationship;
  put_source = WriteTx.put_source;
  delete_source = WriteTx.delete_source;
  put_proposal = WriteTx.put_proposal;
}

abbrev pub store : Port.Store
store = record { writing = writing; State = Store; update = update }
