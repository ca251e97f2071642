-- ===== src/Examples/Database.antt =====
-- A concrete encoding and database for store/badger: values are the wires themselves, and a
-- transaction is a list of keys with their values.
use mathlib.Core.Path.{subst}
use text.Mathlib.Text.{starts_with}
use text.Mathlib.TextEquality.{starts_with_iff, eq_iff}
use text.Mathlib.TextBridge.{IsPrefix}
use linea_core.Prelude.{
  ℕ, ◌≡◌, refl, sym, ap, ◌∙◌, String, Bool, true, false, List, [], ◌∷◌, Option, none, some, ◌==◌,
  string_Eq, Map, lookup, insert, erase, Distinct, insert-Distinct, erase-Distinct, lookup-insert,
  lookup-erase, In, Bool-cases, inl, inr, if◌then◌else◌,
}
use linea_core.Errors.{Result, ok, err, plain, same_ok}
use linea_core.Store.Badger.Wire.{
  PersonWire, RelationshipWire, SourceWire, ProposalWire, Encoding, IsFaithful,
}
use linea_core.Store.Badger.Txn.{Txn, Got, IsKeyed, Database, IsTransactional}

pub data Doc : Type 0 where
  nothing : Doc
  person : PersonWire → Doc
  relationship : RelationshipWire → Doc
  source : SourceWire → Doc
  proposal : ProposalWire → Doc
  number : ℕ → Doc

abbrev as_person : Doc → Result PersonWire
as_person (person w) = ok w
as_person _ = err plain

abbrev as_relationship : Doc → Result RelationshipWire
as_relationship (relationship w) = ok w
as_relationship _ = err plain

abbrev as_source : Doc → Result SourceWire
as_source (source w) = ok w
as_source _ = err plain

abbrev as_proposal : Doc → Result ProposalWire
as_proposal (proposal w) = ok w
as_proposal _ = err plain

abbrev as_number : Doc → ℕ
as_number (number n) = n
as_number _ = 0

abbrev length_of : Doc → ℕ
length_of (number n) = 8
length_of _ = 0

abbrev pub encoding : Encoding
encoding = record {
  Bytes = Doc;
  no_bytes = nothing;
  person = record { marshal = λ w. ok (person w); unmarshal = as_person };
  relationship = record { marshal = λ w. ok (relationship w); unmarshal = as_relationship };
  source = record { marshal = λ w. ok (source w); unmarshal = as_source };
  proposal = record { marshal = λ w. ok (proposal w); unmarshal = as_proposal };
  put_uint64 = number;
  uint64 = as_number;
  len = length_of;
  valid_string = λ _. true;
}

pub encoding-IsFaithful : IsFaithful encoding
encoding-IsFaithful = record {
  person = record { written = person; marshals = λ w. refl; unmarshals = λ w u. refl };
  relationship = record { written = relationship; marshals = λ w. refl; unmarshals = λ w u. refl };
  source = record { written = source; marshals = λ w. refl; unmarshals = λ w u. refl };
  proposal = record { written = proposal; marshals = λ w. refl; unmarshals = λ w u. refl };
  len-put_uint64 = λ n. refl;
  uint64-put_uint64 = λ n h. refl;
}

pub record Table : Type 0 where
  pub rows : Map String Doc
  pub distinct : Distinct rows

abbrev got : Option Doc → Got Doc
got none = Got.key_not_found
got (some d) = Got.item (ok d)

unfoldable pub with_prefix : String → Map String Doc → List (String × Result Doc)
with_prefix p [] = []
with_prefix p ((k, d) ∷ m) =
    let rest = with_prefix p m in if starts_with k p then (k, ok d) ∷ rest else rest

abbrev pub put : Table → String → Doc → Table
put t k v = record { rows = insert k v t.rows; distinct = insert-Distinct k v t.rows t.distinct }

abbrev remove : Table → String → Table
remove t k = record { rows = erase k t.rows; distinct = erase-Distinct k t.rows t.distinct }

abbrev pub txn : Txn Doc
txn = record {
  Tx = Table;
  get = λ t k. got (lookup k t.rows);
  set = λ t k v. ok (put t k v);
  delete = λ t k. ok (remove t k);
  scan = λ t p. with_prefix p t.rows;
}

got-if : (b : Bool) (x y : Option Doc) → got (if b then x else y) ≡ (if b then got x else got y)
got-if true x y = refl
got-if false x y = refl

-- A row below another one with a different key is found below it.
below :
    (j k : String) (u : Doc) (v : Result Doc) (m : Map String Doc)
    → lookup j m ≡ none
    → got (lookup k m) ≡ Got.item v
    → got (lookup k ((j, u) ∷ m)) ≡ Got.item v
unfolding lookup
below j k u v m d g = elim (Bool-cases (j == k)) [
  | inl b ↦ absurd (
      let g' = subst (λ i. got (lookup i m) ≡ Got.item v) (sym ((eq_iff j k).0 b)) g in
      let g'' = rw d at g' in cc)
  | inr b ↦ rw (lookup, b) g
]

at_top :
    (j k : String) (u : Doc) (v : Result Doc) (m : Map String Doc)
    → j ≡ k
    → ok u ≡ v
    → got (lookup k ((j, u) ∷ m)) ≡ Got.item v
unfolding lookup
at_top j k u v m e h = rw (lookup, (eq_iff j k).1 e, h) refl

scan_sound :
    (p k : String) (v : Result Doc) (m : Map String Doc)
    → Distinct m
    → In (k, v) (with_prefix p m)
    → IsPrefix p k × (got (lookup k m) ≡ Got.item v)
unfolding with_prefix
scan_sound p k v [] d i = absurd i
scan_sound p k v ((j, u) ∷ m) d i = elim (Bool-cases (starts_with j p)) [
  | inl b ↦ elim (rw (with_prefix, b) at i) [
    | inl e ↦ (
      subst (IsPrefix p) (sym (ap (λ q. q.0) e)) ((starts_with_iff j p).0 b),
      at_top j k u v m (sym (ap (λ q. q.0) e)) (sym (ap (λ q. q.1) e)),
    )
    | inr r ↦ let (h, g) = scan_sound p k v m d.1 r in (h, below j k u v m d.0 g)
  ]
  | inr b ↦
      let (h, g) = scan_sound p k v m d.1 (rw (with_prefix, b) at i) in (h, below j k u v m d.0 g)
]

scan_complete :
    (p k : String) (v : Result Doc) (m : Map String Doc)
    → IsPrefix p k
    → got (lookup k m) ≡ Got.item v
    → In (k, v) (with_prefix p m)
unfolding with_prefix lookup
scan_complete p k v [] h g = absurd (cc)
scan_complete p k v ((j, u) ∷ m) h g = elim (Bool-cases (j == k)) [
  | inl b ↦
      let e = (eq_iff j k).0 b in
      let starts = (starts_with_iff j p).1 (subst (IsPrefix p) (sym e) h) in
      let g' = rw (lookup, b) at g in rw (with_prefix, starts) (inl (cc))
  | inr b ↦
      let r = scan_complete p k v m h (rw (lookup, b) at g) in
      elim (Bool-cases (starts_with j p)) [
        | inl c ↦ rw (with_prefix, c) (inr r)
        | inr c ↦ rw (with_prefix, c) r
      ]
]

pub put-get :
    (t : Table) (k : String) (v : Doc) (j : String)
    → txn.get (put t k v) j ≡ (if k == j then Got.item (ok v) else txn.get t j)
put-get t k v j = ap got (lookup-insert k j v t.rows) ∙ got-if (k == j) (some v) (lookup j t.rows)

pub txn-IsKeyed : IsKeyed txn
txn-IsKeyed = record {
  sets = λ t k v x e.
      subst
        (λ (y : Table).
          (j : String) → txn.get y j ≡ (if k == j then Got.item (ok v) else txn.get t j))
        (same_ok refl e) (put-get t k v);
  deletes = λ t k x e.
      subst
        (λ (y : Table).
          (j : String) → txn.get y j ≡ (if k == j then Got.key_not_found else txn.get t j))
        (same_ok refl e)
        (λ j. ap got (lookup-erase k j t.rows) ∙ got-if (k == j) none (lookup j t.rows));
  In-scan =
      λ t p k v. (scan_sound p k v t.rows t.distinct, λ (h, g). scan_complete p k v t.rows h g);
}

abbrev run : {A : Type 0} → Table → Result (A × Table) → Result A × Table
run db (err e) = (err e, db)
run db (ok (a, t)) = (ok a, t)

abbrev pub database : Database txn
database = record { Db = Table; begin = λ t. t; update = λ db f. run db (f db) }

pub database-IsTransactional : IsTransactional database
database-IsTransactional = record {
  rolls_back = λ db f e h. rw h refl;
  commits = λ db f a tx h. inl (tx, rw h refl, λ k. refl);
}
