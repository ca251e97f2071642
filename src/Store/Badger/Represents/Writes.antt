-- ===== src/Store/Badger/Represents/Writes.antt =====
-- One Set or Delete of store/badger/writetx.go, and what it does to the contents.
use mathlib.Core.Path.{subst}
use linea_core.Prelude.{
  ℕ, ◌<◌, ◌≡◌, ◌≢◌, refl, sym, ◌∙◌, String, Bool, true, false, Option, ◌==◌, string_Eq, arith, inl,
  inr, if◌then◌else◌,
}
use linea_core.Errors.{Result, Error, ok, err, Result-cases, ◌>>=◌}
use linea_core.Errors.Ensures.{Ensures, Ensures-ok, Ensures-err}
use linea_core.Model.Ids.{EntityId}
use linea_core.Model.Person.{Person}
use linea_core.Model.Relationship.{Relationship}
use linea_core.Model.Source.{Source}
use linea_core.Model.Proposal.{Proposal}
use linea_core.Store.Contents.{Contents, update}
use linea_core.Store.Badger.Wire.{Encoding}
use linea_core.Store.Badger.Codec.{
  decode_person, decode_relationship, decode_source, decode_proposal,
}
use linea_core.Store.Badger.Keys.{
  person_key, rel_key, source_key, proposal_key, make_id_key, make_index_key,
}
use linea_core.Store.Badger.Keys.Laws.{
  kind, kind-person, kind-rel, kind-source, kind-proposal, kind-index, kinds_differ,
  make_id_key-test,
}
use linea_core.Store.Badger.Txn.{Txn, Got, IsKeyed, IsRefusal}
use linea_core.Store.Badger.ReadTx.{ReadTx}
use linea_core.Store.Badger.WriteTx.{set, delete}
use linea_core.Store.Badger.Represents.{Holds, Represents}

differ : {m n p q : ℕ} → m ≡ p → n ≡ q → p ≢ q → m ≢ n
differ e f d h = d (sym e ∙ h ∙ f)

choose :
    {Bytes A : Type 0} (g old got : Got Bytes) (b : Bool) (decode : Bytes → Result A)
    (v o : Option A)
    → got ≡ (if b then g else old)
    → Holds decode v g
    → Holds decode o old
    → Holds decode (if b then v else o) got
choose g old got true decode v o e new held = subst (Holds decode v) (sym e) new
choose g old got false decode v o e new held = subst (Holds decode o) (sym e) held

-- The call succeeds with a transaction that has the property, or fails with an error that the
-- database refused a write with.
pub data Runs {Bytes : Type 0} (T : Txn Bytes) (P : ReadTx T → Type 0)
    : Result (ReadTx T) → Type 0 where
  ran : (x : ReadTx T) → P x → Runs T P (ok x)
  refused_by : (e : Error) → IsRefusal T e → Runs T P (err e)

module _ {Bytes : Type 0} {T : Txn Bytes} {P Q : ReadTx T → Type 0} where
  pub Runs-bind :
      {r : Result (ReadTx T)} (f : ReadTx T → Result (ReadTx T))
      → Runs T P r
      → ((x : ReadTx T) → P x → Runs T Q (f x))
      → Runs T Q (r >>= f)
  Runs-bind f (ran x p) k = k x p
  Runs-bind f (refused_by e h) k = refused_by e h

  pub Runs-mono : {r : Result (ReadTx T)} → Runs T P r → ((x : ReadTx T) → P x → Q x) → Runs T Q r
  Runs-mono (ran x p) k = ran x (k x p)
  Runs-mono (refused_by e h) k = refused_by e h

pub Runs-Ensures :
    {Bytes : Type 0} {T : Txn Bytes} {P : ReadTx T → Type 0} {r : Result (ReadTx T)}
    → Runs T P r
    → Ensures P r
Runs-Ensures (ran x p) = Ensures-ok x p
Runs-Ensures (refused_by e h) = Ensures-err e

module _ (C : Encoding) (T : Txn C.Bytes) (law : IsKeyed T) where
  -- Get gives `g` for the key, and for every other key what it gave before.
  pub record Written (w x : ReadTx T) (k : String) (g : Got C.Bytes) : Type 0 where
    pub at : (j : String) → T.get x.tx j ≡ (if k == j then g else T.get w.tx j)

  pub set-Written :
      (w : ReadTx T) (k : String) (v : C.Bytes)
      → Runs T (λ x. Written w x k (Got.item (ok v))) (set C T w k v)
  unfolding set
  set-Written w k v = elim (Result-cases (T.set w.tx k v)) [
    | inl (tx, e) ↦ rw e (ran (record w { tx = tx }) (record { at = law.sets w.tx k v tx e }))
    | inr (e, h) ↦ rw h (refused_by e (inl (w.tx, k, v, h)))
  ]

  pub delete-Written :
      (w : ReadTx T) (k : String) → Runs T (λ x. Written w x k Got.key_not_found) (delete C T w k)
  unfolding delete
  delete-Written w k = elim (Result-cases (T.delete w.tx k)) [
    | inl (tx, e) ↦ rw e (ran (record w { tx = tx }) (record { at = law.deletes w.tx k tx e }))
    | inr (e, h) ↦ rw h (refused_by e (inr (w.tx, k, h)))
  ]

  -- The entities of another kind stay.
  frame :
      {w x : ReadTx T} {k : String} {g : Got C.Bytes} {A : Type 0} (decode : C.Bytes → Result A)
      (f : EntityId → Option A) (key : EntityId → String)
      → Written w x k g
      → ((i : EntityId) → kind k ≢ kind (key i))
      → ((i : EntityId) → Holds decode (f i) (T.get w.tx (key i)))
      → (i : EntityId) → Holds decode (f i) (T.get x.tx (key i))
  frame {w} {x} {k} {g} decode f key h n held i =
      subst (Holds decode (f i)) (sym (h.at (key i) ∙ rw (kinds_differ k (key i) (n i)) refl))
        (held i)

  -- The entities of the kind that is written are updated.
  own :
      {w x : ReadTx T} {A : Type 0} {g : Got C.Bytes} (decode : C.Bytes → Result A)
      (f : EntityId → Option A) (v : Option A) (p : String) (id : EntityId)
      → Written w x (make_id_key p id) g
      → Holds decode v g
      → ((i : EntityId) → Holds decode (f i) (T.get w.tx (make_id_key p i)))
      → (i : EntityId) → Holds decode (update f id v i) (T.get x.tx (make_id_key p i))
  own {w} {x} {g} decode f v p id h new held i =
      choose g (T.get w.tx (make_id_key p i)) (T.get x.tx (make_id_key p i)) (id == i) decode v
        (f i) (h.at (make_id_key p i) ∙ rw (make_id_key-test p id i) refl) new (held i)

  pub person_written :
      {w x : ReadTx T} (c : Contents) {g : Got C.Bytes} (id : EntityId) (v : Option Person)
      → Written w x (person_key id) g
      → Holds (decode_person C.person) v g
      → Represents C T w c
      → Represents C T x (record c { persons = update c.persons id v })
  person_written c id v h new r = record {
    persons = own (decode_person C.person) c.persons v "p" id h new r.persons;
    relationships =
        frame (decode_relationship C.relationship) c.relationships rel_key h
          (λ i. differ (kind-person id) (kind-rel i) (omega arith)) r.relationships;
    sources =
        frame (decode_source C.source) c.sources source_key h
          (λ i. differ (kind-person id) (kind-source i) (omega arith)) r.sources;
    proposals =
        frame (decode_proposal C.proposal) c.proposals proposal_key h
          (λ i. differ (kind-person id) (kind-proposal i) (omega arith)) r.proposals;
  }

  pub relationship_written :
      {w x : ReadTx T} (c : Contents) {g : Got C.Bytes} (id : EntityId) (v : Option Relationship)
      → Written w x (rel_key id) g
      → Holds (decode_relationship C.relationship) v g
      → Represents C T w c
      → Represents C T x (record c { relationships = update c.relationships id v })
  relationship_written c id v h new r = record {
    persons =
        frame (decode_person C.person) c.persons person_key h
          (λ i. differ (kind-rel id) (kind-person i) (omega arith)) r.persons;
    relationships =
        own (decode_relationship C.relationship) c.relationships v "r" id h new r.relationships;
    sources =
        frame (decode_source C.source) c.sources source_key h
          (λ i. differ (kind-rel id) (kind-source i) (omega arith)) r.sources;
    proposals =
        frame (decode_proposal C.proposal) c.proposals proposal_key h
          (λ i. differ (kind-rel id) (kind-proposal i) (omega arith)) r.proposals;
  }

  pub source_written :
      {w x : ReadTx T} (c : Contents) {g : Got C.Bytes} (id : EntityId) (v : Option Source)
      → Written w x (source_key id) g
      → Holds (decode_source C.source) v g
      → Represents C T w c
      → Represents C T x (record c { sources = update c.sources id v })
  source_written c id v h new r = record {
    persons =
        frame (decode_person C.person) c.persons person_key h
          (λ i. differ (kind-source id) (kind-person i) (omega arith)) r.persons;
    relationships =
        frame (decode_relationship C.relationship) c.relationships rel_key h
          (λ i. differ (kind-source id) (kind-rel i) (omega arith)) r.relationships;
    sources = own (decode_source C.source) c.sources v "s" id h new r.sources;
    proposals =
        frame (decode_proposal C.proposal) c.proposals proposal_key h
          (λ i. differ (kind-source id) (kind-proposal i) (omega arith)) r.proposals;
  }

  pub proposal_written :
      {w x : ReadTx T} (c : Contents) {g : Got C.Bytes} (id : EntityId) (v : Option Proposal)
      → Written w x (proposal_key id) g
      → Holds (decode_proposal C.proposal) v g
      → Represents C T w c
      → Represents C T x (record c { proposals = update c.proposals id v })
  proposal_written c id v h new r = record {
    persons =
        frame (decode_person C.person) c.persons person_key h
          (λ i. differ (kind-proposal id) (kind-person i) (omega arith)) r.persons;
    relationships =
        frame (decode_relationship C.relationship) c.relationships rel_key h
          (λ i. differ (kind-proposal id) (kind-rel i) (omega arith)) r.relationships;
    sources =
        frame (decode_source C.source) c.sources source_key h
          (λ i. differ (kind-proposal id) (kind-source i) (omega arith)) r.sources;
    proposals = own (decode_proposal C.proposal) c.proposals v "q" id h new r.proposals;
  }

  -- The entries of the indices and the version are no entities.
  pub entities_kept :
      {w x : ReadTx T} (c : Contents) (k : String) {g : Got C.Bytes}
      → kind k < 112
      → Written w x k g
      → Represents C T w c
      → Represents C T x c
  entities_kept c k m h r = record {
    persons =
        frame (decode_person C.person) c.persons person_key h
          (λ i e. absurd (omega (arith, kind-person i))) r.persons;
    relationships =
        frame (decode_relationship C.relationship) c.relationships rel_key h
          (λ i e. absurd (omega (arith, kind-rel i))) r.relationships;
    sources =
        frame (decode_source C.source) c.sources source_key h
          (λ i e. absurd (omega (arith, kind-source i))) r.sources;
    proposals =
        frame (decode_proposal C.proposal) c.proposals proposal_key h
          (λ i e. absurd (omega (arith, kind-proposal i))) r.proposals;
  }

  pub index_written :
      {w x : ReadTx T} {g : Got C.Bytes} (c : Contents) (a b o rid : String)
      → Written w x (make_index_key a b o rid) g
      → Represents C T w c
      → Represents C T x c
  index_written c a b o rid =
      entities_kept c (make_index_key a b o rid) (omega (arith, kind-index a b o rid))
