-- ===== src/Examples/Storage.antt =====
-- store/memory and errors/errors.go on the small family.
use linea_core.Prelude.{
  Bool, ◌≡◌, refl, String, [], ◌∷◌, true, arith, some, insert, lookup, ◌==◌, nat_Eq, string_Eq,
  if◌then◌else◌,
}
use linea_core.Prelude.Int.{pos}
use linea_core.Errors.{
  Result, ok, err, new, wrap, plain, invalid_argument, has_code, as_code, code_eq, errors_is,
  has_code-errors_is, map_ok, person_not_found, relationship_not_found, source_not_found,
  proposal_not_found, version_not_found,
}
use linea_core.Model.Ids.{EntityId}
use linea_core.Model.Person.{Person}
use linea_core.Model.Relationship.{Relationship}
use linea_core.Model.Source.{Source}
use linea_core.Model.Proposal.{Proposal, is_terminal, withdrawn, create, relationship_kind}
use linea_core.Store.Port.{Version}
use linea_core.Store.Contents
use linea_core.Store.Memory.State
use linea_core.Store.Memory.State.{empty_state, get_proposal}
use linea_core.Store.Memory.WriteTx
use linea_core.Store.Memory.WriteTx.{WriteTx, new_write_tx, put_person}
use linea_core.Store.Memory.Writes
use linea_core.Store.Memory.Writes.{Writes, begin, then_write}
use linea_core.Store.Memory.{new_store, update, view, view_at, current_version, next_version}
use linea_core.Store.Memory.Refines.{contents, mutators-contents, getters-contents}
use linea_core.Store.Memory.Commit.{IsWellFormed, commit-getters}
use linea_core.Store.Memory.Terminal.{terminal_final}
use linea_core.Store.Memory.Update.{is_pruned, next_state, update_commits}
use linea_core.Store.Memory.Versions.{
  Ran, started, committed, limit_of, is_kept, is_ok, versions_kept,
}
use linea_core.Examples.{person, family, family_store, proposal}

-- A transaction that has added C.
abbrev with_c : WriteTx
with_c = record (new_write_tx family) { person_over = ("C", some (person "C")) ∷ [] }

put_c : put_person (new_write_tx family) (person "C") ≡ ok with_c
unfolding put_person insert
put_c = refl

with_c-Writes : Writes family with_c
with_c-Writes = then_write begin (Writes.put_person (person "C") put_c)

stored_q : get_proposal family "q" ≡ ok (proposal "q" withdrawn create relationship_kind)
unfolding get_proposal lookup
stored_q = refl

abbrev failing : WriteTx → Result (String × WriteTx)
failing w = err (new invalid_argument)

abbrev adding : WriteTx → Result (String × WriteTx)
adding w = ok ("done", with_c)

has_code-errors_is_example : errors_is (wrap invalid_argument plain) invalid_argument ≡ true
unfolding has_code as_code code_eq
has_code-errors_is_example = has_code-errors_is (wrap invalid_argument plain) invalid_argument refl

mutators-contents_example :
    ((p : Person)
      → map_ok contents (WriteTx.put_person with_c p) ≡ Contents.put_person (contents with_c) p)
    × ((id : EntityId)
        → map_ok contents (WriteTx.delete_person with_c id)
          ≡ Contents.delete_person (contents with_c) id)
    × ((r : Relationship)
        → map_ok contents (WriteTx.put_relationship with_c r)
          ≡ Contents.put_relationship (contents with_c) r)
    × ((id : EntityId)
        → map_ok contents (WriteTx.delete_relationship with_c id)
          ≡ Contents.delete_relationship (contents with_c) id)
    × ((s : Source)
        → map_ok contents (WriteTx.put_source with_c s) ≡ Contents.put_source (contents with_c) s)
    × ((id : EntityId)
        → map_ok contents (WriteTx.delete_source with_c id)
          ≡ Contents.delete_source (contents with_c) id)
    × ((p : Proposal)
        → (refused : Bool) × (map_ok contents (WriteTx.put_proposal with_c p)
            ≡ Contents.put_proposal (contents with_c) refused p)
          × Contents.RefusesStateChanges (lookup p.id with_c.base.proposals) p refused)
mutators-contents_example = mutators-contents with_c

getters-contents_example :
    (WriteTx.get_person with_c "C" ≡ State.found person_not_found ((contents with_c).persons "C"))
    × (WriteTx.get_relationship with_c "C"
        ≡ State.found relationship_not_found ((contents with_c).relationships "C"))
    × (WriteTx.get_source with_c "C" ≡ State.found source_not_found ((contents with_c).sources "C"))
    × (WriteTx.get_proposal with_c "C"
        ≡ State.found proposal_not_found ((contents with_c).proposals "C"))
getters-contents_example = getters-contents with_c "C"

commit-getters_example :
    (State.get_person (WriteTx.commit_state with_c 2) "C" ≡ WriteTx.get_person with_c "C")
    × (State.get_relationship (WriteTx.commit_state with_c 2) "C"
        ≡ WriteTx.get_relationship with_c "C")
    × (State.get_source (WriteTx.commit_state with_c 2) "C" ≡ WriteTx.get_source with_c "C")
    × (State.get_proposal (WriteTx.commit_state with_c 2) "C" ≡ WriteTx.get_proposal with_c "C")
commit-getters_example = commit-getters family with_c 2 "C" with_c-Writes

terminal_final_example :
    (q : Proposal) × (State.get_proposal (WriteTx.commit_state with_c 2) "q" ≡ ok q)
    × (q.state ≡ withdrawn)
terminal_final_example =
    terminal_final family with_c 2 "q" (proposal "q" withdrawn create relationship_kind)
      with_c-Writes stored_q (unfold is_terminal in refl)

update_commits_example :
    ((update family_store adding).0 ≡ ok ("done", next_version 1))
    × (view (update family_store adding).1 ≡ ok (next_state family_store with_c))
    × (current_version (update family_store adding).1 ≡ ok (next_version 1))
    × ((u : Version)
        → view_at (update family_store adding).1 u ≡ (
            if u == next_version 1
            then ok (next_state family_store with_c)
            else if is_pruned 0 (next_version 1) u
            then err (new version_not_found)
            else view_at family_store u))
update_commits_example = update_commits family_store adding "done" with_c refl refl

-- A new store with a limit of 2, and one update that changes nothing.
abbrev touching : WriteTx → Result (String × WriteTx)
touching w = ok ("done", w)

touched : Ran String (pos 2) 1 (update (new_store (pos 2)) touching).1
unfolding new_store
touched = committed touching "done" (new_write_tx empty_state) started refl begin

versions_kept_example :
    ((update (new_store (pos 2)) touching).1.current.version ≡ 1)
    × IsWellFormed (update (new_store (pos 2)) touching).1.current
    × ((v : Version)
        → is_ok (view_at (update (new_store (pos 2)) touching).1 v)
          ≡ is_kept (limit_of (pos 2)) 1 v)
versions_kept_example =
    versions_kept (pos 2) 1 (update (new_store (pos 2)) touching).1 touched (omega arith)
