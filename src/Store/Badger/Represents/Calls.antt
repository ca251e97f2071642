-- ===== src/Store/Badger/Represents/Calls.antt =====
-- Calls of store/badger that do what is promised, and what the indices do to the contents.
use linea_core.Prelude.{
  ◌≡◌, refl, String, Bool, true, false, Option, none, some, ◌==◌, string_Eq, nat_Eq, inl, inr,
  if◌then◌else◌,
}
use linea_core.Errors.{Result, Result-cases, Error, Code, ok, err, ◌>>=◌, ◌>>◌, refuse_if}
use linea_core.Model.Ids.{EntityId}
use linea_core.Model.Relationship.{Relationship, parent_child, marriage}
use linea_core.Store.Contents.{Contents, require}
use linea_core.Store.Badger.Wire.{Encoding}
use linea_core.Store.Badger.Keys.{make_index_key}
use linea_core.Store.Badger.Txn.{Txn, IsKeyed, IsRefusal}
use linea_core.Store.Badger.ReadTx.{ReadTx, get_relationship}
use linea_core.Store.Badger.WriteTx.{
  set, delete, require_key, write_rel_indices, remove_rel_indices, drop_previous,
}
use linea_core.Store.Badger.Represents.{Holds, Represents}
use linea_core.Store.Badger.Represents.Writes.{
  Runs, ran, refused_by, Runs-bind, Runs-mono, set-Written, delete-Written, index_written,
}

module _ (C : Encoding) (T : Txn C.Bytes) where
  -- The call fails with the error that is promised, or succeeds with the contents that are promised,
  -- or fails where it is promised to succeed with an error that the database refused a write with.
  pub data Implements : Result Contents → Result (ReadTx T) → Type 0 where
    fails : (e : Error) → Implements (err e) (err e)
    succeeds : {c : Contents} {x : ReadTx T} → Represents C T x c → Implements (ok c) (ok x)
    is_refused : {c : Contents} (e : Error) → IsRefusal T e → Implements (ok c) (err e)

  pub Runs-Implements :
      {c : Contents} {r : Result (ReadTx T)}
      → Runs T (λ x. Represents C T x c) r
      → Implements (ok c) r
  Runs-Implements (ran x h) = succeeds h
  Runs-Implements (refused_by e h) = is_refused e h

  -- Both refuse for the same reason, or both go on.
  pub refused :
      (b : Bool) (e : Error) {s : Result Contents} {r : Result (ReadTx T)}
      → Implements s r
      → Implements (refuse_if b e >> s) (refuse_if b e >> r)
  refused true e i = fails e
  refused false e i = i

  pub require_key-Holds :
      {A : Type 0} (decode : C.Bytes → Result A) (o : Option A) (w : ReadTx T) (k : String)
      (c : Code)
      → Holds decode o (T.get w.tx k)
      → require_key C T w k c ≡ require o c
  unfolding require_key
  require_key-Holds decode none w k c h = rw (require_key, h) refl
  require_key-Holds decode (some a) w k c (buf, h, d) = rw (require_key, h) refl

  pub by_type :
      (b m : Bool) {P : ReadTx T → Type 0} {p q : Result (ReadTx T)} {w : ReadTx T}
      → Runs T P p
      → Runs T P q
      → P w
      → Runs T P (if b then p else if m then q else ok w)
  by_type true m hp hq r = hp
  by_type false true hp hq r = hq
  by_type false false {w} hp hq r = ran w r

module _ (C : Encoding) (T : Txn C.Bytes) (law : IsKeyed T) where
  abbrev pub Holding : Contents → ReadTx T → Type 0
  Holding c x = Represents C T x c

  module _ {w : ReadTx T} {c : Contents} (r : Represents C T w c) where
    -- Two entries of the indices of a relationship are written, or removed.
    two_set :
        (a b o o' a' b' rid : String)
        → Runs T (Holding c) (
            set C T w (make_index_key a b o rid) C.no_bytes >>= λ w'.
            set C T w' (make_index_key a' b' o' rid) C.no_bytes)
    two_set a b o o' a' b' rid =
        Runs-bind _ (set-Written C T law w (make_index_key a b o rid) C.no_bytes) λ x h.
          Runs-mono (set-Written C T law x (make_index_key a' b' o' rid) C.no_bytes)
            λ y h'. index_written C T law c a' b' o' rid h' (index_written C T law c a b o rid h r)

    two_deleted :
        (a b o o' a' b' rid : String)
        → Runs T (Holding c) (
            delete C T w (make_index_key a b o rid) >>= λ w'.
            delete C T w' (make_index_key a' b' o' rid))
    two_deleted a b o o' a' b' rid =
        Runs-bind _ (delete-Written C T law w (make_index_key a b o rid)) λ x h.
          Runs-mono (delete-Written C T law x (make_index_key a' b' o' rid))
            λ y h'. index_written C T law c a' b' o' rid h' (index_written C T law c a b o rid h r)

    pub write_rel_indices-Represents :
        (rel : Relationship) → Runs T (Holding c) (write_rel_indices C T w rel)
    unfolding write_rel_indices
    write_rel_indices-Represents rel =
        by_type C T (rel.rel_type == parent_child) (rel.rel_type == marriage)
          (two_set "pc" "f" rel.from rel.to "pc" "t" rel.id)
          (two_set "m" "" rel.from rel.to "m" "" rel.id) r

    pub remove_rel_indices-Represents :
        (rel : Relationship) → Runs T (Holding c) (remove_rel_indices C T w rel)
    unfolding remove_rel_indices
    remove_rel_indices-Represents rel =
        by_type C T (rel.rel_type == parent_child) (rel.rel_type == marriage)
          (two_deleted "pc" "f" rel.from rel.to "pc" "t" rel.id)
          (two_deleted "m" "" rel.from rel.to "m" "" rel.id) r

    pub drop_previous-Represents : (id : EntityId) → Runs T (Holding c) (drop_previous C T w id)
    unfolding drop_previous
    drop_previous-Represents id = elim (Result-cases (get_relationship C T w id)) [
      | inl (prev, e) ↦ rw (drop_previous, e) (remove_rel_indices-Represents prev)
      | inr (e, h) ↦ rw (drop_previous, h) (ran w r)
    ]
