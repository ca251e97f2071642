-- ===== src/Query/Rank/Order.antt =====
-- The order that query/rank.go ranks paths by.
use Prim.Native.String.{String}
use text.Mathlib.TextEquality.{eq_iff, Char-path}
use linea_core.Prelude.{
  ℕ, ◌≡◌, ◌⊎◌, inl, inr, refl, Bool, true, false, not, List, [], ◌∷◌, arith, ltb, ◌==◌, nat_Eq,
  string_Eq, if◌then◌else◌,
}
use linea_core.Prelude.Int.{ℤ, pos, negsuc, ltb_ℤ, int_Eq, int_eq_iff}
use linea_core.Model.Ids.{EntityId}
use linea_core.Query.Paths.{GraphPath}
use linea_core.Query.Rank.{text_less, node_signature, signature_less, less}

pub text_less_irrefl : (s : String) → text_less s s ≡ false
unfolding text_less
text_less_irrefl String.[] = refl
text_less_irrefl (String.◌∷◌ c s) = ground (arith, text_less_irrefl s)

pub text_less_trans :
    (s t u : String) → text_less s t ≡ true → text_less t u ≡ true → text_less s u ≡ true
unfolding text_less
text_less_trans String.[] String.[] u h k = absurd (cc)
text_less_trans String.[] (String.◌∷◌ d t) String.[] h k = absurd (cc)
text_less_trans String.[] (String.◌∷◌ d t) (String.◌∷◌ e u) h k = refl
text_less_trans (String.◌∷◌ c s) String.[] u h k = absurd (cc)
text_less_trans (String.◌∷◌ c s) (String.◌∷◌ d t) String.[] h k = absurd (cc)
text_less_trans (String.◌∷◌ c s) (String.◌∷◌ d t) (String.◌∷◌ e u) h k =
    ground (arith, text_less_trans s t u)

pub text_less_total : (s t : String) → (text_less s t ≡ true) ⊎ (text_less t s ≡ true) ⊎ (s ≡ t)
unfolding text_less
text_less_total String.[] String.[] = inr (inr refl)
text_less_total String.[] (String.◌∷◌ d t) = inl refl
text_less_total (String.◌∷◌ c s) String.[] = inr (inl refl)
text_less_total (String.◌∷◌ c s) (String.◌∷◌ d t) =
    ground (arith, text_less_total s t, Char-path c d)

signature_less_irrefl : (ps : List EntityId) → signature_less ps ps ≡ false
unfolding signature_less
signature_less_irrefl [] = refl
signature_less_irrefl (p ∷ ps) = ground (arith, signature_less_irrefl ps, eq_iff p p)

signature_less_trans :
    (ps qs rs : List EntityId)
    → signature_less ps qs ≡ true
    → signature_less qs rs ≡ true
    → signature_less ps rs ≡ true
unfolding signature_less
signature_less_trans [] [] rs h k = absurd (cc)
signature_less_trans [] (q ∷ qs) [] h k = absurd (cc)
signature_less_trans [] (q ∷ qs) (r ∷ rs) h k = refl
signature_less_trans (p ∷ ps) [] rs h k = absurd (cc)
signature_less_trans (p ∷ ps) (q ∷ qs) [] h k = absurd (cc)
signature_less_trans (p ∷ ps) (q ∷ qs) (r ∷ rs) h k = ground (
  arith,
  signature_less_trans ps qs rs,
  text_less_trans p q r,
  eq_iff p q,
  eq_iff q r,
  eq_iff p r,
  text_less_irrefl p,
  text_less_irrefl q,
  text_less_trans q p q,
)

signature_less_total :
    (ps qs : List EntityId)
    → (signature_less ps qs ≡ true) ⊎ (signature_less qs ps ≡ true) ⊎ (ps ≡ qs)
unfolding signature_less
signature_less_total [] [] = inr (inr refl)
signature_less_total [] (q ∷ qs) = inl refl
signature_less_total (p ∷ ps) [] = inr (inl refl)
signature_less_total (p ∷ ps) (q ∷ qs) = ground (
  arith,
  signature_less_total ps qs,
  text_less_total p q,
  eq_iff p q,
  eq_iff q p,
  text_less_irrefl p,
)

int_less_irrefl : (a : ℤ) → ltb_ℤ a a ≡ false
int_less_irrefl a = ground arith

int_less_trans : (a b c : ℤ) → ltb_ℤ a b ≡ true → ltb_ℤ b c ≡ true → ltb_ℤ a c ≡ true
int_less_trans a b c h k = ground arith

int_less_asym : (a b : ℤ) → ltb_ℤ a b ≡ true → ltb_ℤ b a ≡ false
int_less_asym a b h = ground arith

int_less_total : (a b : ℤ) → (ltb_ℤ a b ≡ true) ⊎ (ltb_ℤ b a ≡ true) ⊎ (a ≡ b)
int_less_total (pos a) (pos b) = ground arith
int_less_total (pos a) (negsuc b) = ground arith
int_less_total (negsuc a) (pos b) = ground arith
int_less_total (negsuc a) (negsuc b) = ground arith

-- One criterion before another, of which `u`, `v` and `w` are the outcomes for the three pairs.
module _ (u v w : Bool) (below : u ≡ true → v ≡ true → w ≡ true) where
  by_nat_trans :
      (a b c : ℕ)
      → (if not (a == b) then ltb a b else u) ≡ true
      → (if not (b == c) then ltb b c else v) ≡ true
      → (if not (a == c) then ltb a c else w) ≡ true
  by_nat_trans a b c h k = ground arith

  by_rank_trans :
      (a b c : ℕ)
      → (if not (a == b) then ltb b a else u) ≡ true
      → (if not (b == c) then ltb c b else v) ≡ true
      → (if not (a == c) then ltb c a else w) ≡ true
  by_rank_trans a b c h k = ground arith

  by_int_trans :
      (a b c : ℤ)
      → (if not (a == b) then ltb_ℤ a b else u) ≡ true
      → (if not (b == c) then ltb_ℤ b c else v) ≡ true
      → (if not (a == c) then ltb_ℤ a c else w) ≡ true
  by_int_trans a b c h k = ground (
    arith,
    int_less_trans a b c,
    int_less_irrefl a,
    int_less_asym a b,
    int_eq_iff a b,
    int_eq_iff b c,
    int_eq_iff a c,
  )

pub less_trans : (p q r : GraphPath) → less p q ≡ true → less q r ≡ true → less p r ≡ true
unfolding less
less_trans p q r =
    by_rank_trans _ _ _
      (by_int_trans _ _ _
        (by_nat_trans _ _ _
          (by_nat_trans _ _ _
            (signature_less_trans (node_signature p) (node_signature q) (node_signature r)) p.length
            q.length r.length)
          p.gap_edges q.gap_edges r.gap_edges)
        p.total_gap q.total_gap r.total_gap)
      p.certainty q.certainty r.certainty

-- Less is a strict order: it is irreflexive and transitive, and it leaves two paths unordered only
-- if they agree in all that they are ranked by.
pub less-IsStrictOrder :
    (p q r : GraphPath)
    → (less p p ≡ false)
      × (less p q ≡ true → less q r ≡ true → less p r ≡ true)
      × ((less p q ≡ true)
          ⊎ (less q p ≡ true)
          ⊎ ((p.certainty ≡ q.certainty)
              × (p.total_gap ≡ q.total_gap)
              × (p.gap_edges ≡ q.gap_edges)
              × (p.length ≡ q.length)
              × (node_signature p ≡ node_signature q)))
unfolding less
less-IsStrictOrder p q r = (
  ground (arith, signature_less_irrefl (node_signature p), int_eq_iff p.total_gap p.total_gap),
  λ h k. less_trans p q r h k,
  ground (
    arith,
    int_less_total p.total_gap q.total_gap,
    int_eq_iff p.total_gap q.total_gap,
    int_eq_iff q.total_gap p.total_gap,
    signature_less_total (node_signature p) (node_signature q),
  ),
)
