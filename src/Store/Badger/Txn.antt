-- ===== src/Store/Badger/Txn.antt =====
-- What store/badger asks of package badgerdb: parameters of the adapter, and what is documented of
-- them.
use text.Mathlib.TextBridge.{IsPrefix}
use linea_core.Prelude.{◌≡◌, ◌↔◌, ◌⊎◌, String, List, ◌==◌, string_Eq, In, if◌then◌else◌}
use linea_core.Errors.{Result, Error, ok, err}

-- What (*Txn).Get returns: ErrKeyNotFound, another error, or an item, whose value can be read or not.
pub data Got (Bytes : Type 0) : Type 0 where
  key_not_found : Got Bytes
  failed : Error → Got Bytes
  item : Result Bytes → Got Bytes

-- A transaction. Set and Delete change it, and may refuse to. `scan` has the items that an iterator
-- with a prefix visits, in their order.
pub record Txn (Bytes : Type 0) : Type 1 where
  pub Tx : Type 0
  pub get : Tx → String → Got Bytes
  pub set : Tx → String → Bytes → Result Tx
  pub delete : Tx → String → Result Tx
  pub scan : Tx → String → List (String × Result Bytes)

-- What is documented of a transaction: where Set or Delete accepts a write, Get sees it, and the write
-- touches no other key. Either may refuse: a key or a value is too long, the transaction has grown
-- too big, or it is for reading only. An iterator visits the items whose keys have the prefix.
pub record IsKeyed {Bytes : Type 0} (T : Txn Bytes) : Type 0 where
  pub sets :
      (tx : T.Tx) (k : String) (v : Bytes) (x : T.Tx)
      → T.set tx k v ≡ ok x
      → (j : String) → T.get x j ≡ (if k == j then Got.item (ok v) else T.get tx j)
  pub deletes :
      (tx : T.Tx) (k : String) (x : T.Tx)
      → T.delete tx k ≡ ok x
      → (j : String) → T.get x j ≡ (if k == j then Got.key_not_found else T.get tx j)
  pub In-scan :
      (tx : T.Tx) (p k : String) (v : Result Bytes)
      → In (k, v) (T.scan tx p) ↔ (IsPrefix p k × (T.get tx k ≡ Got.item v))

-- The error is one that Set or Delete refused a write with.
abbrev pub IsRefusal : {Bytes : Type 0} → Txn Bytes → Error → Type 0
IsRefusal {Bytes} T e =
    ((tx : T.Tx) × (k : String) × (v : Bytes) × (T.set tx k v ≡ err e))
    ⊎ ((tx : T.Tx) × (k : String) × (T.delete tx k ≡ err e))

-- A database: `begin` is NewTransaction and the transaction that View hands out, `update` is Update.
pub record Database {Bytes : Type 0} (T : Txn Bytes) : Type 1 where
  pub Db : Type 0
  pub begin : Db → T.Tx
  pub update : {A : Type 0} → Db → (T.Tx → Result (A × T.Tx)) → Result A × Db

-- Update relays the error of the function and keeps nothing of it; else it commits what the
-- transaction holds, or reports that it could not.
pub record IsTransactional {Bytes : Type 0} {T : Txn Bytes} (D : Database T) : Type 1 where
  pub rolls_back :
      {A : Type 0} (db : D.Db) (f : T.Tx → Result (A × T.Tx)) (e : Error)
      → f (D.begin db) ≡ err e
      → D.update db f ≡ (err e, db)
  pub commits :
      {A : Type 0} (db : D.Db) (f : T.Tx → Result (A × T.Tx)) (a : A) (tx : T.Tx)
      → f (D.begin db) ≡ ok (a, tx)
      → ((next : D.Db) × (D.update db f ≡ (ok a, next))
          × ((k : String) → T.get (D.begin next) k ≡ T.get tx k))
        ⊎ ((e : Error) × (D.update db f ≡ (err e, db)))
