-- ===== src/Store/Badger/Indices.antt =====
-- The indices of store/badger: what IterateChildren and IterateParents find through them.
use Prim.Native.String.{◌++◌}
use linea_core.Prelude.{◌≡◌, String, none, string_Eq, nat_Eq, In}
use linea_core.Errors.{ok}
use linea_core.Errors.Ensures.{Ensures}
use linea_core.Model.Relationship.{Relationship}
use linea_core.Store.Contents.{Contents}
use linea_core.Store.Contents
use linea_core.Store.Port.{Scan}
use linea_core.Store.Badger.Wire.{Encoding, IsFaithful}
use linea_core.Store.Badger.Keys.{pc_from_index_key, pc_to_index_key}
use linea_core.Store.Badger.Txn.{Txn, Got, IsKeyed}
use linea_core.Store.Badger.ReadTx.{ReadTx, iterate_children, iterate_parents}
use linea_core.Store.Badger.Represents.{Represents}

-- The scan yields the edge and meets no error.
abbrev pub Yields : Relationship → Scan Relationship → Type 0
Yields rel s = In rel s.items × (s.failure ≡ none)

module _ (C : Encoding) (T : Txn C.Bytes) (good : IsFaithful C) (law : IsKeyed T) where
  -- Both entries of a ParentChild edge.
  pub record IsIndexed (rel : Relationship) (x : ReadTx T) : Type 0 where
    pub by_parent : T.get x.tx (pc_from_index_key rel.from rel.id) ≡ Got.item (ok C.no_bytes)
    pub by_child : T.get x.tx (pc_to_index_key rel.to rel.id) ≡ Got.item (ok C.no_bytes)

  -- The edge is stored, and is yielded for both its persons, and wherever else its keys come up.
  pub record IsYielded (rel : Relationship) (c : Contents) (x : ReadTx T) : Type 0 where
    pub stored : Represents C T x c
    pub children :
        (owner rest : String) → owner ++ rest ≡ rel.from → Yields rel (iterate_children C T x owner)
    pub parents :
        (owner rest : String) → owner ++ rest ≡ rel.to → Yields rel (iterate_parents C T x owner)
