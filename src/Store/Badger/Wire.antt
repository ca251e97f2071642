-- ===== src/Store/Badger/Wire.antt =====
-- The wire types of store/badger/codec.go, and what the code asks of the packages encoding/json and
-- encoding/binary. A pointer that may be nil is an Option. The field GapSpecified, which is not
-- stored, is left out.
use linea_core.Prelude.{
  ℕ, ◌^◌, ◌<◌, ◌≡◌, String, Bool, true, List, [], ◌∷◌, ◌++◌, Option, none, some, All,
}
use linea_core.Prelude.Int.{ℤ}
use linea_core.Errors.{Result, ok}

pub record NameWire : Type 0 where
  pub text : String
  pub language : String
  pub script : String
  pub type : String
  pub preferred : Bool

pub record TimeRangeWire : Type 0 where
  pub earliest_known : Bool
  pub earliest : ℤ
  pub latest_known : Bool
  pub latest : ℤ
  pub calendar : String
  pub circa : Bool

pub record PersonWire : Type 0 where
  pub id : String
  pub names : List NameWire
  pub gender : String
  pub birth : Option TimeRangeWire
  pub death : Option TimeRangeWire
  pub notes : String
  pub unknown : Bool

pub record ContinuityWire : Type 0 where
  pub state : ℤ
  pub gap_known : Bool
  pub gap_size : ℤ

pub record RelationshipWire : Type 0 where
  pub id : String
  pub from : String
  pub to : String
  pub type : ℤ
  pub certainty : ℤ
  pub continuity : ContinuityWire
  pub time_range : Option TimeRangeWire
  pub notes : String
  pub sources : List String

pub record SourceWire : Type 0 where
  pub id : String
  pub type : String
  pub citation : String
  pub author : String
  pub title : String
  pub date : String
  pub locator : String
  pub notes : String

pub record ProposalTransWire : Type 0 where
  pub from : ℤ
  pub to : ℤ
  pub actor : String
  pub timestamp : ℤ
  pub reason : String

pub record ProposalWire : Type 0 where
  pub id : String
  pub state : ℤ
  pub action : ℤ
  pub entity_kind : ℤ
  pub target_id : String
  pub secondary_id : String
  pub payload : List ℕ
  pub reason : String
  pub sources : List String
  pub author : String
  pub created_at : ℤ
  pub history : List ProposalTransWire

-- json.Marshal and json.Unmarshal at one wire type.
pub record Json (Bytes W : Type 0) : Type 0 where
  pub marshal : W → Result Bytes
  pub unmarshal : Bytes → Result W

-- The texts of a wire: ids, names and all other strings.
abbrev pub name_texts : NameWire → List String
name_texts n = n.text ∷ n.language ∷ n.script ∷ n.type ∷ []

abbrev pub range_texts : Option TimeRangeWire → List String
range_texts none = []
range_texts (some r) = r.calendar ∷ []

abbrev pub texts_of : {A : Type 0} → (A → List String) → List A → List String
texts_of f [] = []
texts_of f (x ∷ xs) = f x ++ texts_of f xs

abbrev pub person_texts : PersonWire → List String
person_texts w =
    w.id ∷ w.gender ∷ w.notes ∷ texts_of name_texts w.names
    ++ range_texts w.birth
    ++ range_texts w.death

abbrev pub relationship_texts : RelationshipWire → List String
relationship_texts w = w.id ∷ w.from ∷ w.to ∷ w.notes ∷ range_texts w.time_range ++ w.sources

abbrev pub source_texts : SourceWire → List String
source_texts w = w.id ∷ w.type ∷ w.citation ∷ w.author ∷ w.title ∷ w.date ∷ w.locator ∷ w.notes ∷ []

abbrev pub entry_texts : ProposalTransWire → List String
entry_texts h = h.actor ∷ h.reason ∷ []

abbrev pub proposal_texts : ProposalWire → List String
proposal_texts w =
    w.id ∷ w.target_id ∷ w.secondary_id ∷ w.reason ∷ w.author ∷ w.sources
    ++ texts_of entry_texts w.history

-- Every text is valid UTF-8. `valid` is utf8.ValidString.
abbrev pub IsUtf8 : (String → Bool) → List String → Type 0
IsUtf8 valid texts = All (λ s. valid s ≡ true) texts

-- What is documented of the two at the wire types, which hold neither a channel nor a function nor a
-- float: Marshal succeeds, and Unmarshal reads back what it wrote of a wire whose texts are valid
-- UTF-8. In other texts Marshal replaces what is invalid, so nothing is said of them.
pub record IsInverse {Bytes W : Type 0} (valid : String → Bool) (texts : W → List String)
    (j : Json Bytes W) : Type 0 where
  pub written : W → Bytes
  pub marshals : (w : W) → j.marshal w ≡ ok (written w)
  pub unmarshals : (w : W) → IsUtf8 valid (texts w) → j.unmarshal (written w) ≡ ok w

-- The values of the database and how they are written: `put_uint64` is binary.BigEndian.PutUint64
-- into eight fresh bytes, `uint64` is binary.BigEndian.Uint64, and `no_bytes` is nil. `valid_string`
-- is utf8.ValidString of package unicode/utf8, by which encoding/json goes.
pub record Encoding : Type 1 where
  pub Bytes : Type 0
  pub no_bytes : Bytes
  pub person : Json Bytes PersonWire
  pub relationship : Json Bytes RelationshipWire
  pub source : Json Bytes SourceWire
  pub proposal : Json Bytes ProposalWire
  pub put_uint64 : ℕ → Bytes
  pub uint64 : Bytes → ℕ
  pub len : Bytes → ℕ
  pub valid_string : String → Bool

pub record IsFaithful (c : Encoding) : Type 0 where
  pub person : IsInverse c.valid_string person_texts c.person
  pub relationship : IsInverse c.valid_string relationship_texts c.relationship
  pub source : IsInverse c.valid_string source_texts c.source
  pub proposal : IsInverse c.valid_string proposal_texts c.proposal
  pub len-put_uint64 : (n : ℕ) → c.len (c.put_uint64 n) ≡ 8
  pub uint64-put_uint64 : (n : ℕ) → n < 2 ^ 64 → c.uint64 (c.put_uint64 n) ≡ n
