-- ===== src/Store/Badger/WriteTx.antt =====
-- store/badger/writetx.go, over any database and encoding.
use linea_core.Prelude.{Bool, false, not, ◌&&◌, String, ◌==◌, nat_Eq, string_Eq, if◌then◌else◌}
use linea_core.Errors.{
  Result, ok, err, new, Code, person_not_found, source_not_found, invalid_argument,
  immutable_terminal_proposal, ◌>>=◌, ◌>>◌, refuse_if,
}
use linea_core.Model.Ids.{EntityId, is_zero}
use linea_core.Model.Person.{Person}
use linea_core.Model.Relationship.{Relationship, parent_child, marriage}
use linea_core.Model.Source.{Source}
use linea_core.Model.Proposal.{Proposal, is_terminal}
use linea_core.Store.Badger.Wire.{Encoding}
use linea_core.Store.Badger.Codec.{
  encode_person, encode_relationship, encode_source, encode_proposal,
}
use linea_core.Store.Badger.Keys.{
  person_key, rel_key, source_key, proposal_key, pc_from_index_key, pc_to_index_key,
  marriage_index_key,
}
use linea_core.Store.Badger.Txn.{Txn, Got}
use linea_core.Store.Badger.ReadTx.{ReadTx, get_relationship, get_proposal}

module _ (C : Encoding) (T : Txn C.Bytes) where
  -- w.tx.Set and w.tx.Delete
  unfoldable pub set : ReadTx T → String → C.Bytes → Result (ReadTx T)
  set w k v = do tx ← T.set w.tx k v; ok (record w { tx = tx })

  unfoldable pub delete : ReadTx T → String → Result (ReadTx T)
  delete w k = do tx ← T.delete w.tx k; ok (record w { tx = tx })

  -- A Get whose item is not read: ErrKeyNotFound becomes the code.
  unfoldable pub require_key : ReadTx T → String → Code → Result (Unit {0})
  require_key w k c = elim (T.get w.tx k) [
    | Got.key_not_found ↦ err (new c)
    | Got.failed e ↦ err e
    | Got.item _ ↦ ok tt
  ]

  unfoldable pub put_person : ReadTx T → Person → Result (ReadTx T)
  unfolding set
  put_person w p = do
    refuse_if (is_zero p.id) (new invalid_argument)
    buf ← encode_person C.person p
    set w (person_key p.id) buf

  unfoldable pub delete_person : ReadTx T → EntityId → Result (ReadTx T)
  unfolding require_key delete
  delete_person w id = do require_key w (person_key id) person_not_found; delete w (person_key id)

  unfoldable pub require_person_exists : ReadTx T → EntityId → Result (Unit {0})
  unfolding require_key
  require_person_exists w person = require_key w (person_key person) person_not_found

  unfoldable pub write_rel_indices : ReadTx T → Relationship → Result (ReadTx T)
  unfolding set
  write_rel_indices w r =
      if r.rel_type == parent_child
      then (do
        w' ← set w (pc_from_index_key r.from r.id) C.no_bytes
        set w' (pc_to_index_key r.to r.id) C.no_bytes)
      else if r.rel_type == marriage
      then (do
        w' ← set w (marriage_index_key r.from r.id) C.no_bytes
        set w' (marriage_index_key r.to r.id) C.no_bytes)
      else ok w

  unfoldable pub remove_rel_indices : ReadTx T → Relationship → Result (ReadTx T)
  unfolding delete
  remove_rel_indices w r =
      if r.rel_type == parent_child
      then (do w' ← delete w (pc_from_index_key r.from r.id); delete w' (pc_to_index_key r.to r.id))
      else if r.rel_type == marriage
      then (do
        w' ← delete w (marriage_index_key r.from r.id)
        delete w' (marriage_index_key r.to r.id))
      else ok w

  -- The indices of what is stored under the id, if it can be read.
  unfoldable pub drop_previous : ReadTx T → EntityId → Result (ReadTx T)
  unfolding remove_rel_indices
  drop_previous w id = elim (get_relationship C T w id) [
    | ok prev ↦ remove_rel_indices w prev
    | err _ ↦ ok w
  ]

  unfoldable pub put_relationship : ReadTx T → Relationship → Result (ReadTx T)
  unfolding require_person_exists drop_previous set write_rel_indices
  put_relationship w r = do
    refuse_if (is_zero r.id) (new invalid_argument)
    require_person_exists w r.from
    require_person_exists w r.to
    w' ← drop_previous w r.id
    buf ← encode_relationship C.relationship r
    w'' ← set w' (rel_key r.id) buf
    write_rel_indices w'' r

  unfoldable pub delete_relationship : ReadTx T → EntityId → Result (ReadTx T)
  unfolding remove_rel_indices delete
  delete_relationship w id = do
    prev ← get_relationship C T w id
    w' ← remove_rel_indices w prev
    delete w' (rel_key id)

  unfoldable pub put_source : ReadTx T → Source → Result (ReadTx T)
  unfolding set
  put_source w s = do
    refuse_if (is_zero s.id) (new invalid_argument)
    buf ← encode_source C.source s
    set w (source_key s.id) buf

  unfoldable pub delete_source : ReadTx T → EntityId → Result (ReadTx T)
  unfolding require_key delete
  delete_source w id = do require_key w (source_key id) source_not_found; delete w (source_key id)

  -- Whether the stored proposal, if it can be read, refuses the new state.
  abbrev pub is_frozen : Result Proposal → Proposal → Bool
  is_frozen (ok existing) p = is_terminal existing.state && not (existing.state == p.state)
  is_frozen (err _) p = false

  unfoldable pub put_proposal : ReadTx T → Proposal → Result (ReadTx T)
  unfolding set
  put_proposal w p = do
    refuse_if (is_zero p.id) (new invalid_argument)
    refuse_if (is_frozen (get_proposal C T w p.id) p) (new immutable_terminal_proposal)
    buf ← encode_proposal C.proposal p
    set w (proposal_key p.id) buf
