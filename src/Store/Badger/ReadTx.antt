-- ===== src/Store/Badger/ReadTx.antt =====
-- store/badger/readtx.go, over any database and encoding.
use linea_core.Prelude.{String, List, [], ◌∷◌, none, some, if◌then◌else◌}
use linea_core.Errors.{
  Result, Error, ok, err, new, Code, person_not_found, relationship_not_found, source_not_found,
  proposal_not_found, has_code, ◌>>=◌,
}
use linea_core.Model.Ids.{EntityId}
use linea_core.Model.Person.{Person}
use linea_core.Model.Relationship.{Relationship}
use linea_core.Model.Source.{Source}
use linea_core.Model.Proposal.{Proposal}
use linea_core.Store.Port.{Version, Scan}
use linea_core.Store.Badger.Wire.{Encoding}
use linea_core.Store.Badger.Codec.{
  decode_person, decode_relationship, decode_source, decode_proposal,
}
use linea_core.Store.Badger.Keys.{
  person_key, rel_key, source_key, proposal_key, pc_from_prefix, pc_to_prefix, marriage_prefix,
  rel_id,
}
use linea_core.Store.Badger.Txn.{Txn, Got}

-- A readTx, and also the writeTx that embeds it.
pub record ReadTx {Bytes : Type 0} (T : Txn Bytes) : Type 0 where
  pub tx : T.Tx
  pub version : Version

-- The scan goes on with `rest` after `yield a`.
abbrev yield : {A : Type 0} → A → Scan A → Scan A
yield a rest = record { items = a ∷ rest.items; failure = rest.failure }

abbrev pub done : {A : Type 0} → Scan A
done = record { items = []; failure = none }

abbrev stop : {A : Type 0} → Error → Scan A
stop e = record { items = []; failure = some e }

-- A stale entry, whose relationship is not there, is skipped.
unfoldable pub yield_found : Result Relationship → Scan Relationship → Scan Relationship
yield_found (ok rel) rest = yield rel rest
yield_found (err e) rest = if has_code e relationship_not_found then rest else stop e

unfoldable pub yield_decoded : {A : Type 0} → Result A → Scan A → Scan A
yield_decoded (ok a) rest = yield a rest
yield_decoded (err e) rest = stop e

module _ (C : Encoding) (T : Txn C.Bytes) where
  unfoldable pub fetch : {A : Type 0} → ReadTx T → String → Code → (C.Bytes → Result A) → Result A
  fetch r k c decode = elim (T.get r.tx k) [
    | Got.key_not_found ↦ err (new c)
    | Got.failed e ↦ err e
    | Got.item v ↦ v >>= decode
  ]

  unfoldable pub get_person : ReadTx T → EntityId → Result Person
  unfolding fetch
  get_person r id = fetch r (person_key id) person_not_found (decode_person C.person)

  unfoldable pub get_relationship : ReadTx T → EntityId → Result Relationship
  unfolding fetch
  get_relationship r id =
      fetch r (rel_key id) relationship_not_found (decode_relationship C.relationship)

  unfoldable pub get_source : ReadTx T → EntityId → Result Source
  unfolding fetch
  get_source r id = fetch r (source_key id) source_not_found (decode_source C.source)

  unfoldable pub get_proposal : ReadTx T → EntityId → Result Proposal
  unfolding fetch
  get_proposal r id = fetch r (proposal_key id) proposal_not_found (decode_proposal C.proposal)

  -- The loop of scanRelIndex. A key that does not end in an id is skipped.
  unfoldable pub rel_entries : ReadTx T → List (String × Result C.Bytes) → Scan Relationship
  unfolding yield_found
  rel_entries r [] = done
  rel_entries r ((k, v) ∷ kvs) =
      let rest = rel_entries r kvs in
      elim (rel_id k) [ none ↦ rest | some rid ↦ yield_found (get_relationship r rid) rest ]

  unfoldable pub scan_rel_index : ReadTx T → String → Scan Relationship
  unfolding rel_entries
  scan_rel_index r prefix = rel_entries r (T.scan r.tx prefix)

  unfoldable pub iterate_children : ReadTx T → EntityId → Scan Relationship
  unfolding scan_rel_index
  iterate_children r parent = scan_rel_index r (pc_from_prefix parent)

  unfoldable pub iterate_parents : ReadTx T → EntityId → Scan Relationship
  unfolding scan_rel_index
  iterate_parents r child = scan_rel_index r (pc_to_prefix child)

  unfoldable pub iterate_marriages : ReadTx T → EntityId → Scan Relationship
  unfolding scan_rel_index
  iterate_marriages r person = scan_rel_index r (marriage_prefix person)

  -- The loop of scanByPrefix.
  unfoldable pub decode_entries :
      {A : Type 0} → (C.Bytes → Result A) → List (String × Result C.Bytes) → Scan A
  unfolding yield_decoded
  decode_entries decode [] = done
  decode_entries decode ((k, v) ∷ kvs) =
      let rest = decode_entries decode kvs in yield_decoded (v >>= decode) rest

  unfoldable pub scan_by_prefix : {A : Type 0} → ReadTx T → String → (C.Bytes → Result A) → Scan A
  unfolding decode_entries
  scan_by_prefix r prefix decode = decode_entries decode (T.scan r.tx prefix)

  unfoldable pub iterate_persons : ReadTx T → Scan Person
  unfolding scan_by_prefix
  iterate_persons r = scan_by_prefix r "p/" (decode_person C.person)

  unfoldable pub iterate_relationships : ReadTx T → Scan Relationship
  unfolding scan_by_prefix
  iterate_relationships r = scan_by_prefix r "r/" (decode_relationship C.relationship)

  unfoldable pub iterate_sources : ReadTx T → Scan Source
  unfolding scan_by_prefix
  iterate_sources r = scan_by_prefix r "s/" (decode_source C.source)

  unfoldable pub iterate_proposals : ReadTx T → Scan Proposal
  unfolding scan_by_prefix
  iterate_proposals r = scan_by_prefix r "q/" (decode_proposal C.proposal)
