-- ===== src/Store/Badger/Keys.antt =====
-- store/badger/keys.go. A key is the text that its bytes spell.
pub mod Laws
use Prim.Native.Char.{Char, code}
use Prim.Native.String.{◌++◌}
use linea_core.Prelude.{
  String, Bool, not, Option, none, some, ◌==◌, nat_Eq, string_Eq, if◌then◌else◌,
}

abbrev pub prefix_meta : String
prefix_meta = "m"

abbrev pub prefix_person : String
prefix_person = "p"

abbrev pub prefix_rel : String
prefix_rel = "r"

abbrev pub prefix_source : String
prefix_source = "s"

abbrev pub prefix_proposal : String
prefix_proposal = "q"

abbrev pub prefix_index : String
prefix_index = "i"

abbrev pub sep : String
sep = "/"

abbrev pub meta_version_key : String
meta_version_key = "m/v"

abbrev pub make_id_key : String → String → String
make_id_key prefix id = prefix ++ sep ++ id

abbrev pub person_key : String → String
person_key id = make_id_key prefix_person id

abbrev pub rel_key : String → String
rel_key id = make_id_key prefix_rel id

abbrev pub source_key : String → String
source_key id = make_id_key prefix_source id

abbrev pub proposal_key : String → String
proposal_key id = make_id_key prefix_proposal id

abbrev pub make_index_prefix : String → String → String → String
make_index_prefix a b owner =
    prefix_index ++ sep ++ a ++ sep ++ (if not (b == "") then b ++ sep else "") ++ owner

abbrev pub make_index_key : String → String → String → String → String
make_index_key a b owner rid = make_index_prefix a b owner ++ sep ++ rid

abbrev pub pc_from_index_key : String → String → String
pc_from_index_key parent rid = make_index_key "pc" "f" parent rid

abbrev pub pc_to_index_key : String → String → String
pc_to_index_key child rid = make_index_key "pc" "t" child rid

abbrev pub marriage_index_key : String → String → String
marriage_index_key person rid = make_index_key "m" "" person rid

abbrev pub pc_from_prefix : String → String
pc_from_prefix parent = make_index_prefix "pc" "f" parent

abbrev pub pc_to_prefix : String → String
pc_to_prefix child = make_index_prefix "pc" "t" child

abbrev pub marriage_prefix : String → String
marriage_prefix person = make_index_prefix "m" "" person

abbrev pub is_sep : Char → Bool
is_sep c = code c == 47

-- k[bytes.LastIndexByte(k, sep)+1:], or nothing if there is no separator.
unfoldable pub after_last_sep : String → Option String
after_last_sep String.[] = none
after_last_sep (String.◌∷◌ c s) =
    let rest = after_last_sep s in
    elim rest [ some t ↦ some t | none ↦ if is_sep c then some s else none ]

-- The relationship id at the end of an index key, as scanRelIndex takes it.
unfoldable pub rel_id : String → Option String
unfolding after_last_sep
rel_id k = elim (after_last_sep k) [ none ↦ none | some t ↦ if t == "" then none else some t ]
