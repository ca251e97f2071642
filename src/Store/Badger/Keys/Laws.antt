-- ===== src/Store/Badger/Keys/Laws.antt =====
-- Keys of store/badger/keys.go never meet, and what their prefixes match.
use Prim.Native.Char.{Char, code}
use Prim.Native.String.{String, ◌++◌}
use text.Mathlib.TextLemmas.{append_assoc, append_cancel_left, nil-append, cons-append}
use text.Mathlib.TextEquality.{eq_iff}
use linea_core.Prelude.{
  Bool-cases, inl, inr, not, if◌then◌else◌, ℕ, ◌≡◌, ◌≢◌, refl, ap, ◌∙◌, sym, Bool, false, none,
  some, ◌==◌, string_Eq, nat_Eq, arith, ◌||◌,
}
use linea_core.Store.Badger.Keys.{
  person_key, rel_key, source_key, proposal_key, make_id_key, make_index_prefix, make_index_key,
  after_last_sep, is_sep, meta_version_key,
}

unfoldable pub has_sep : String → Bool
has_sep String.[] = false
has_sep (String.◌∷◌ c s) = is_sep c || has_sep s

after_last_sep-none : (s : String) → has_sep s ≡ false → after_last_sep s ≡ none
unfolding has_sep after_last_sep
after_last_sep-none String.[] h = refl
after_last_sep-none (String.◌∷◌ c s) h = ground (arith, after_last_sep-none s)

after_last_sep-cons :
    (c : Char) (s t : String) → after_last_sep s ≡ some t → after_last_sep (String.◌∷◌ c s) ≡ some t
unfolding after_last_sep
after_last_sep-cons c s t h = rw h refl

-- The text behind the last separator is the relationship's id.
pub after_last_sep-append :
    (k s : String) → has_sep s ≡ false → after_last_sep (k ++ "/" ++ s) ≡ some s
unfolding after_last_sep
after_last_sep-append String.[] s h =
    rw (nil-append ("/" ++ s), cons-append "/" "" s, nil-append s, after_last_sep-none s h) refl
after_last_sep-append (String.◌∷◌ c k) s h =
    rw (cons-append c k ("/" ++ s))
      (after_last_sep-cons c (k ++ "/" ++ s) s (after_last_sep-append k s h))

-- A key's first byte, which says what it is the key of.
unfoldable pub kind : String → ℕ
kind String.[] = 0
kind (String.◌∷◌ c s) = code c

kind-append : (c : Char) (s : String) → kind (String.◌∷◌ c String.[] ++ s) ≡ code c
unfolding kind
kind-append c s = rw (cons-append c String.[] s) refl

pub kind-meta : kind meta_version_key ≡ 109
unfolding kind
kind-meta = refl

pub kind-person : (i : String) → kind (person_key i) ≡ 112
kind-person i = kind-append "p" ("/" ++ i)

pub kind-rel : (i : String) → kind (rel_key i) ≡ 114
kind-rel i = kind-append "r" ("/" ++ i)

pub kind-source : (i : String) → kind (source_key i) ≡ 115
kind-source i = kind-append "s" ("/" ++ i)

pub kind-proposal : (i : String) → kind (proposal_key i) ≡ 113
kind-proposal i = kind-append "q" ("/" ++ i)

pub kind-index : (a b o rid : String) → kind (make_index_key a b o rid) ≡ 105
kind-index a b o rid =
    ap kind (simp append_assoc)
    ∙ kind-append "i"
        ("/" ++ a ++ "/" ++ (if not (b == "") then b ++ "/" else "") ++ o ++ "/" ++ rid)

pub kinds_differ : (k j : String) → kind k ≢ kind j → (k == j) ≡ false
kinds_differ k j n = elim (Bool-cases (k == j)) [
  | inl e ↦ absurd (n (ap kind ((eq_iff k j).0 e)))
  | inr e ↦ e
]

pub make_id_key-injective : (p i j : String) → make_id_key p i ≡ make_id_key p j → i ≡ j
make_id_key-injective p i j e =
    append_cancel_left "/" i j (append_cancel_left p ("/" ++ i) ("/" ++ j) e)

-- Keys of one kind are told apart as their ids are.
pub make_id_key-test : (p i j : String) → (make_id_key p i == make_id_key p j) ≡ (i == j)
make_id_key-test p i j = elim (Bool-cases (i == j)) [
  | inl e ↦
      (eq_iff (make_id_key p i) (make_id_key p j)).1 (ap (make_id_key p) ((eq_iff i j).0 e)) ∙ sym e
  | inr e ↦ elim (Bool-cases (make_id_key p i == make_id_key p j)) [
    | inl h ↦ absurd (
        ground (
          arith,
          make_id_key-injective p i j ((eq_iff (make_id_key p i) (make_id_key p j)).0 h),
          eq_iff i j,
        ))
    | inr h ↦ h ∙ sym e
  ]
]

-- The prefix of an owner is a prefix of the keys of every owner whose id begins with it.
pub index_key-split :
    (a b o s rid : String)
    → make_index_key a b (o ++ s) rid ≡ make_index_prefix a b o ++ s ++ "/" ++ rid
index_key-split a b o s rid = simp append_assoc
