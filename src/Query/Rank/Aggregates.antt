-- ===== src/Query/Rank/Aggregates.antt =====
-- What computeAggregate of query/rank.go computes, without its loop.
use linea_core.Prelude.{
  ℕ, ◌+◌, ◌-◌, ◌^◌, ◌<◌, ◌≡◌, refl, ◌∙◌, ap, sym, Bool, true, false, List, [], ◌∷◌, map, foldl,
  arith, some, keep, exists, length, ◌==◌, nat_Eq, if◌then◌else◌, Bool-cases, inl, inr,
}
use linea_core.Prelude.Int.{ℤ, pos, negsuc, pos_part, ltb_ℤ, add64, add64_pos, sub64}
use linea_core.Model.Certainty.{Certainty, min_certainty, combine_certainties}
use linea_core.Model.Continuity.{is_gapped}
use linea_core.Model.Relationship.{parent_child, marriage, gap_weight}
use linea_core.Query.Paths.{Step, path_lineage, path_affinal}
use linea_core.Query.Rank.{Aggregate, aggregate_step, compute_aggregate}

abbrev pub certainty_of : Step → Certainty
certainty_of s = s.relationship.certainty

abbrev pub is_gap : Step → Bool
is_gap s = is_gapped s.relationship.continuity

abbrev pub is_marriage : Step → Bool
is_marriage s = s.relationship.rel_type == marriage

-- What a ParentChild edge weighs beyond 1.
abbrev pub skipped : Step → ℕ
skipped s =
    if s.relationship.rel_type == parent_child then pos_part (gap_weight s.relationship) - 1 else 0

abbrev pub all_skipped : List Step → ℕ
all_skipped [] = 0
all_skipped (s ∷ ss) = skipped s + all_skipped ss

fold-certainty :
    (g : Aggregate) (ss : List Step)
    → (foldl aggregate_step g ss).certainty ≡ foldl min_certainty g.certainty (map certainty_of ss)
unfolding aggregate_step min_certainty
fold-certainty g [] = refl
fold-certainty g (s ∷ ss) = fold-certainty (aggregate_step g s) ss

fold-gap_edges :
    (g : Aggregate) (ss : List Step)
    → (foldl aggregate_step g ss).gap_edges ≡ g.gap_edges + length (keep is_gap ss)
unfolding aggregate_step
fold-gap_edges g [] = omega arith
fold-gap_edges g (s ∷ ss) = ground (arith, fold-gap_edges (aggregate_step g s) ss)

fold-length : (g : Aggregate) (ss : List Step) → (foldl aggregate_step g ss).length ≡ g.length
unfolding aggregate_step
fold-length g [] = refl
fold-length g (s ∷ ss) = fold-length (aggregate_step g s) ss

fold-classification :
    (g : Aggregate) (ss : List Step)
    → (foldl aggregate_step g ss).classification
      ≡ (if exists is_marriage ss then path_affinal else g.classification)
unfolding aggregate_step
fold-classification g [] = refl
fold-classification g (s ∷ ss) = ground (arith, fold-classification (aggregate_step g s) ss)

sub64_one : (w : ℕ) → 1 < w → w - 1 < 2 ^ 63 → sub64 (pos w) (pos 1) ≡ pos (w - 1)
unfolding sub64
sub64_one w h k = ground arith

add_weight :
    (z : ℤ) (n : ℕ)
    → n + (pos_part z - 1) < 2 ^ 63
    → (if ltb_ℤ (pos 1) z then add64 (pos n) (sub64 z (pos 1)) else pos n)
      ≡ pos (n + (pos_part z - 1))
add_weight (negsuc w) n h = ground arith
add_weight (pos w) n h = elim (Bool-cases (ltb_ℤ (pos 1) (pos w))) [
  | inl t ↦ ground (arith, sub64_one w, add64_pos n (w - 1))
  | inr f ↦ ground arith
]

-- One edge adds what it skips.
step-total_gap :
    (g : Aggregate) (s : Step) (n : ℕ)
    → g.total_gap ≡ pos n
    → n + skipped s < 2 ^ 63
    → (aggregate_step g s).total_gap ≡ pos (n + skipped s)
unfolding aggregate_step
step-total_gap g s n e h = elim (Bool-cases (s.relationship.rel_type == parent_child)) [
  | inl t ↦ rw (t, e) (add_weight (gap_weight s.relationship) n (ground arith))
  | inr f ↦ rw (f, e) (ap pos (omega arith))
]

fold-total_gap :
    (g : Aggregate) (ss : List Step) (n : ℕ)
    → g.total_gap ≡ pos n
    → n + all_skipped ss < 2 ^ 63
    → (foldl aggregate_step g ss).total_gap ≡ pos (n + all_skipped ss)
fold-total_gap g [] n e h = e ∙ ap pos (omega arith)
fold-total_gap g (s ∷ ss) n e h =
    fold-total_gap (aggregate_step g s) ss (n + skipped s) (step-total_gap g s n e (omega arith))
      (omega arith)
    ∙ ap pos (omega arith)

-- The variables before the first round.
abbrev start : Step → List Step → Aggregate
start s ss = record {
  certainty = certainty_of s;
  total_gap = pos 0;
  gap_edges = 0;
  length = length (s ∷ ss);
  classification = path_lineage;
}

min_self : (c : Certainty) → min_certainty c c ≡ c
unfolding min_certainty
min_self c = ground arith

skipped-unknown :
    (t : Step)
    → t.relationship.rel_type ≡ parent_child
    → is_gap t ≡ true
    → t.relationship.continuity.gap.known_size ≡ false
    → skipped t ≡ 999_999
unfolding gap_weight
skipped-unknown t pc g u = ground arith

-- For a path of one edge or more, computeAggregate returns: the combined certainty of its edges, the
-- number of gapped edges, the number of edges, "affinal" exactly if one of them is a marriage, and,
-- if it fits an int, the sum of what GapWeight gives beyond 1 for its ParentChild edges. An edge with
-- a gap of unknown size counts 999,999 of it, one less than the sentinel weight, which a comment on
-- TotalGap in query/path.go says.
pub compute_aggregate_lem :
    (s : Step) (ss : List Step)
    → let g = compute_aggregate (s ∷ ss) in
      (combine_certainties (map certainty_of (s ∷ ss)) ≡ some g.certainty)
      × (g.gap_edges ≡ length (keep is_gap (s ∷ ss)))
      × (g.length ≡ length (s ∷ ss))
      × (g.classification ≡ (if exists is_marriage (s ∷ ss) then path_affinal else path_lineage))
      × (all_skipped (s ∷ ss) < 2 ^ 63 → g.total_gap ≡ pos (all_skipped (s ∷ ss)))
      × ((t : Step)
          → t.relationship.rel_type ≡ parent_child
          → is_gap t ≡ true
          → t.relationship.continuity.gap.known_size ≡ false
          → skipped t ≡ 999_999)
unfolding compute_aggregate combine_certainties
compute_aggregate_lem s ss = (
  ap some (
      sym (
        fold-certainty (start s ss) (s ∷ ss)
        ∙ ap (λ z. foldl min_certainty z (map certainty_of ss)) (min_self (certainty_of s)))),
  fold-gap_edges (start s ss) (s ∷ ss) ∙ omega arith,
  fold-length (start s ss) (s ∷ ss),
  fold-classification (start s ss) (s ∷ ss),
  λ h. fold-total_gap (start s ss) (s ∷ ss) 0 refl (omega (arith, h)) ∙ ap pos (omega arith),
  skipped-unknown,
)
