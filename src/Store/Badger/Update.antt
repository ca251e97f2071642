-- ===== src/Store/Badger/Update.antt =====
-- Versions and transactions of store/badger/badger.go.
use linea_core.Prelude.{◌≡◌, String, ◌==◌, nat_Eq, string_Eq, if◌then◌else◌}
use linea_core.Errors.{ok, err, new, version_not_found}
use linea_core.Store.Contents.{Contents}
use linea_core.Store.Port.{Version}
use linea_core.Store.Badger.Wire.{Encoding, IsFaithful}
use linea_core.Store.Badger.Keys.{meta_version_key}
use linea_core.Store.Badger.Txn.{Txn, Got, IsKeyed, Database, IsTransactional}
use linea_core.Store.Badger.ReadTx.{ReadTx}
use linea_core.Store.Badger.Represents.{Represents}
use linea_core.Store.Badger.{current_version, view, view_at}

module _ (C : Encoding) (T : Txn C.Bytes) (good : IsFaithful C) (law : IsKeyed T) (D : Database T)
    (tr : IsTransactional D) where
  -- A readTx on the present state of the database.
  abbrev pub at_version : D.Db → Version → ReadTx T
  at_version db v = record { tx = D.begin db; version = v }

  -- The store holds what the transaction held, under the next version.
  pub record IsCommitted (v : Version) (w : ReadTx T) (next : D.Db) : Type 0 where
    pub current : current_version C T D next ≡ ok v
    pub viewed : view C T D next ≡ ok (at_version next v)
    pub viewed_at :
        (u : Version)
        → view_at C T D next u
          ≡ (if u == v then ok (at_version next v) else err (new version_not_found))
    pub contents : (c : Contents) → Represents C T w c → Represents C T (at_version next v) c

  -- Opening a database that has no version: version 0 is written, and nothing else.
  pub record IsSeeded (db next : D.Db) : Type 0 where
    pub current : current_version C T D next ≡ ok 0
    pub rest :
        (k : String)
        → T.get (D.begin next) k
          ≡ (if meta_version_key == k then Got.item (ok (C.put_uint64 0)) else T.get (D.begin db) k)
