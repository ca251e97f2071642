-- ===== src/Store/Badger.antt =====
-- store/badger: the adapter that keeps the graph in a Badger database. Here badger.go, the files below
-- have the rest. A Store is its database; Close, which only hands on, is left out.
pub mod Wire
pub mod Fields
pub mod Codec
pub mod Keys
pub mod Txn
pub mod ReadTx
pub mod WriteTx
pub mod Represents
pub mod Indices
pub mod Update
use linea_core.Prelude.{ℕ, ◌+◌, ◌%◌, ◌^◌, Bool, not, ◌==◌, nat_Eq, if◌then◌else◌}
use linea_core.Errors.{
  Result, Error, ok, err, new, plain, annotated, version_not_found, ◌>>=◌, ◌>>◌, refuse_if,
}
use linea_core.Store.Port
use linea_core.Store.Port.{Version}
use Wire.{Encoding}
use Fields.{annotate}
use Keys.{meta_version_key}
use Txn.{Got, Database}

module _ (C : Encoding) (T : Txn.Txn C.Bytes) where
  -- The function given to item.Value.
  unfoldable pub decode_version : C.Bytes → Result Version
  decode_version buf = do refuse_if (not (C.len buf == 8)) plain; ok (C.uint64 buf)

  -- ErrKeyNotFound has no code of this program.
  unfoldable pub read_version : T.Tx → Result Version
  unfolding decode_version
  read_version tx = elim (T.get tx meta_version_key) [
    | Got.key_not_found ↦ err (annotated plain)
    | Got.failed e ↦ err (annotated e)
    | Got.item v ↦ v >>= decode_version
  ]

  -- The function that initIfEmpty gives to Update.
  unfoldable pub seed_version : T.Tx → Result (Unit {0} × T.Tx)
  seed_version tx = elim (T.get tx meta_version_key) [
    | Got.item _ ↦ ok (tt, tx)
    | Got.failed e ↦ err e
    | Got.key_not_found ↦ T.set tx meta_version_key (C.put_uint64 0) >>= λ x. ok (tt, x)
  ]

  -- The uint64 successor.
  abbrev pub next_version : Version → Version
  next_version v = (v + 1) % 2 ^ 64

  -- The function that Update gives to the database.
  unfoldable pub run_update :
      {A : Type 0}
      → (ReadTx.ReadTx T → Result (A × ReadTx.ReadTx T))
      → T.Tx
      → Result ((A × Version) × T.Tx)
  unfolding read_version
  run_update f btx = do
    cur_ver ← read_version btx
    done ← f (record { tx = btx; version = cur_ver })
    let new_ver = next_version cur_ver
    tx ← T.set done.1.tx meta_version_key (C.put_uint64 new_ver)
    ok ((done.0, new_ver), tx)

  module _ (D : Database T) where
    unfoldable pub init_if_empty : D.Db → Result (Unit {0}) × D.Db
    unfolding seed_version
    init_if_empty db = D.update db seed_version

    -- Open, from what badgerdb.Open returns.
    unfoldable pub open_store : Result D.Db → Result D.Db
    unfolding init_if_empty
    open_store opened = do db ← annotate opened; let (r, db') = init_if_empty db; r; ok db'

    unfoldable pub current_version : D.Db → Result Version
    unfolding decode_version
    current_version db = elim (T.get (D.begin db) meta_version_key) [
      | Got.key_not_found ↦ err plain
      | Got.failed e ↦ err e
      | Got.item v ↦ v >>= decode_version
    ]

    unfoldable pub view : D.Db → Result (ReadTx.ReadTx T)
    unfolding read_version
    view db = do v ← read_version (D.begin db); ok (record { tx = D.begin db; version = v })

    unfoldable pub view_at : D.Db → Version → Result (ReadTx.ReadTx T)
    unfolding current_version view
    view_at db want = do
      cur ← current_version db
      refuse_if (not (want == cur)) (new version_not_found)
      view db

    unfoldable pub update :
        {A : Type 0}
        → D.Db
        → (ReadTx.ReadTx T → Result (A × ReadTx.ReadTx T))
        → Result (A × Version) × D.Db
    unfolding run_update
    update db f = D.update db (run_update f)

  -- The adapter as an implementation of the port.
  abbrev pub writing : Port.WriteTx
  writing = record {
    read = record {
      Tx = ReadTx.ReadTx T;
      version = λ r. r.version;
      get_person = ReadTx.get_person C T;
      get_relationship = ReadTx.get_relationship C T;
      get_source = ReadTx.get_source C T;
      get_proposal = ReadTx.get_proposal C T;
      iterate_children = ReadTx.iterate_children C T;
      iterate_parents = ReadTx.iterate_parents C T;
      iterate_marriages = ReadTx.iterate_marriages C T;
      iterate_persons = ReadTx.iterate_persons C T;
      iterate_relationships = ReadTx.iterate_relationships C T;
      iterate_sources = ReadTx.iterate_sources C T;
      iterate_proposals = ReadTx.iterate_proposals C T;
    };
    put_person = WriteTx.put_person C T;
    delete_person = WriteTx.delete_person C T;
    put_relationship = WriteTx.put_relationship C T;
    delete_relationship = WriteTx.delete_relationship C T;
    put_source = WriteTx.put_source C T;
    delete_source = WriteTx.delete_source C T;
    put_proposal = WriteTx.put_proposal C T;
  }

  abbrev pub store : Database T → Port.Store
  store D = record { writing = writing; State = D.Db; update = update D }
