-- ===== src/Query/Engine/Ranked.antt =====
-- The order of the answers of FindPaths of query/engine.go.
use linea_core.Prelude.{
  ℕ, zero, suc, ◌≡◌, ◌≢◌, ◌⊎◌, inl, inr, refl, sym, ap, Bool, true, false, List, [], ◌∷◌, ◌==◌,
  nat_Eq, In, length, take, arith, Bool-cases,
}
use mathlib.Core.Path.{subst}
use linea_core.Prelude.Int.{ℤ, pos, negsuc}
use linea_core.Errors.{ok, same_ok}
use linea_core.Model.Ids.{EntityId}
use linea_core.Store.Port.{ReadTx}
use linea_core.Query.Paths.{Step, GraphPath, path_lineage}
use linea_core.Query.Rank.{less}
use linea_core.Query.Rank.Order.{less_trans, less-IsStrictOrder}
use linea_core.Query.Engine.{Options, place, sort_from, ranked_before, make_path, find_paths}
use linea_core.Query.Engine.Answers.{
  In-take, In-place, sort_from-In, limited, IsRoute, found, found-In, find_paths-none,
  find_paths-some, find_paths-ok,
}

-- Nothing goes before what stands earlier.
abbrev pub IsRanked : {A : Type 0} → (A → A → Bool) → List A → Type 0
IsRanked before [] = Unit {0}
IsRanked before (x ∷ xs) = ((y : _) → In y xs → before y x ≡ false) × IsRanked before xs

module _ {A : Type 0} (before : A → A → Bool) where
  take-IsRanked : (n : ℕ) (xs : List A) → IsRanked before xs → IsRanked before (take n xs)
  take-IsRanked zero xs r = tt
  take-IsRanked (suc n) [] r = tt
  take-IsRanked (suc n) (x ∷ xs) r = (λ y i. r.0 y (In-take n y xs i), take-IsRanked n xs r.1)

  -- What is cut off goes before nothing that is kept.
  take_cut :
      (n : ℕ) (x : A) (xs : List A)
      → IsRanked before xs
      → In x xs
      → In x (take n xs)
        ⊎ ((length (take n xs) ≡ n) × ((y : A) → In y (take n xs) → before x y ≡ false))
  take_cut zero x xs r i = inr (refl, λ y j. absurd j)
  take_cut (suc n) x [] r i = absurd i
  take_cut (suc n) x (y ∷ xs) r (inl e) = inl (inl e)
  take_cut (suc n) x (y ∷ xs) r (inr i) = elim (take_cut n x xs r.1 i) [
    | inl j ↦ inl (inr j)
    | inr (len, h) ↦ inr (
      ap suc len,
      λ z j. elim j [ inl e ↦ subst (λ u. before x u ≡ false) (sym e) (r.0 x i) | inr k ↦ h z k ],
    )
  ]

  module _ (irrefl : (x : A) → before x x ≡ false)
      (trans : (x y z : A) → before x y ≡ true → before y z ≡ true → before x z ≡ true) where
    asym : (x y : A) → before x y ≡ true → before y x ≡ false
    asym x y h = elim (Bool-cases (before y x)) [
      | inr k ↦ k
      | inl k ↦ absurd (let l = trans x y x h k in let m = irrefl x in cc)
    ]

    place-IsRanked :
        (x : A) (ys : List A) → IsRanked before ys → IsRanked before (place before x ys)
    place-IsRanked x [] r = (λ y i. absurd i, tt)
    place-IsRanked x (z ∷ ys) r = elim (Bool-cases (before x z)) [
      | inl b ↦ rw b (
        (λ y i. elim i [
          | inl e ↦ subst (λ u. before u x ≡ false) (sym e) (asym x z b)
          | inr j ↦ elim (Bool-cases (before y x)) [
            | inr k ↦ k
            | inl k ↦ absurd (let l = trans y x z k b in let m = r.0 y j in cc)
          ]
        ]),
        r,
      )
      | inr b ↦ rw b (
        (λ y i. elim (In-place before x y ys i) [
          | inl e ↦ subst (λ u. before u z ≡ false) (sym e) b
          | inr j ↦ r.0 y j
        ]),
        place-IsRanked x ys r.1,
      )
    ]

    sort_from-IsRanked :
        (sorted xs : List A) → IsRanked before sorted → IsRanked before (sort_from before sorted xs)
    sort_from-IsRanked sorted [] r = r
    sort_from-IsRanked sorted (x ∷ xs) r =
        sort_from-IsRanked (place before x sorted) xs (place-IsRanked x sorted r)

ranked_before_irrefl : (p : GraphPath) → ranked_before p p ≡ false
unfolding ranked_before
ranked_before_irrefl p = let l = (less-IsStrictOrder p p p).0 in ground (arith, l)

ranked_before_trans :
    (p q r : GraphPath)
    → ranked_before p q ≡ true
    → ranked_before q r ≡ true
    → ranked_before p r ≡ true
unfolding ranked_before
ranked_before_trans p q r = let l = less_trans p q r in ground (arith, l)

limited-IsRanked :
    {A : Type 0} (before : A → A → Bool) (m : ℤ) (xs : List A)
    → IsRanked before xs
    → IsRanked before (limited m xs)
      × ((x : A)
          → In x xs
          → In x (limited m xs)
            ⊎ ((n : ℕ) × (m ≡ pos (suc n))
                × (length (limited m xs) ≡ suc n)
                × ((y : A) → In y (limited m xs) → before x y ≡ false)))
limited-IsRanked before (pos zero) xs r = (r, λ x i. inl i)
limited-IsRanked before (negsuc n) xs r = (r, λ x i. inl i)
limited-IsRanked before (pos (suc n)) xs r = (
  take-IsRanked before (suc n) xs r,
  λ x i. elim (take_cut before (suc n) x xs r i) [
    | inl j ↦ inl j
    | inr (len, h) ↦ inr (n, refl, len, h)
  ],
)

-- Lineage paths go before the others, and paths of one classification go by Less.
abbrev pub GoesBefore : GraphPath → GraphPath → Type 0
GoesBefore p q =
    ((p.classification ≡ path_lineage) × (q.classification ≢ path_lineage))
    ⊎ ((p.classification ≡ q.classification) × (less p q ≡ true))

-- Nothing goes before what stands earlier.
abbrev pub IsOrdered : List GraphPath → Type 0
IsOrdered [] = Unit {0}
IsOrdered (p ∷ ps) = ((q : GraphPath) → In q ps → ¬ GoesBefore q p) × IsOrdered ps

-- There are as many paths as the positive MaxPaths `m` says, and `p` goes before none of them.
abbrev pub IsOutranked : ℤ → GraphPath → List GraphPath → Type 0
IsOutranked m p ps =
    (n : ℕ) × (m ≡ pos (suc n))
    × (length ps ≡ suc n)
    × ((q : GraphPath) → In q ps → ¬ GoesBefore p q)

not_before : (p q : GraphPath) → ranked_before p q ≡ false → ¬ GoesBefore p q
unfolding ranked_before
not_before p q h (inl (a, b)) = absurd (ground arith)
not_before p q h (inr (a, b)) = absurd (ground arith)

IsRanked-IsOrdered : (ps : List GraphPath) → IsRanked ranked_before ps → IsOrdered ps
IsRanked-IsOrdered [] r = tt
IsRanked-IsOrdered (p ∷ ps) r = (λ q i. not_before q p (r.0 q i), IsRanked-IsOrdered ps r.1)

kept_or_IsOutranked :
    (m : ℤ) (p : GraphPath) (sorted : List GraphPath)
    → In p (limited m sorted)
      ⊎ ((n : ℕ) × (m ≡ pos (suc n))
          × (length (limited m sorted) ≡ suc n)
          × ((q : GraphPath) → In q (limited m sorted) → ranked_before p q ≡ false))
    → In p (limited m sorted) ⊎ IsOutranked m p (limited m sorted)
kept_or_IsOutranked m p sorted (inl i) = inl i
kept_or_IsOutranked m p sorted (inr (n, e, len, h)) = inr (n, e, len, λ q i. not_before p q (h q i))

module _ (R : ReadTx) (tx : R.Tx) (from to : EntityId) (opts : Options) where
  -- The paths that FindPaths returns are in the order of ranking, none being ranked before one that
  -- stands earlier: lineage paths first, then by Less. The path of a route within the depth that is
  -- not among them was cut off by a positive MaxPaths: there are MaxPaths paths, and it is ranked
  -- before none of them.
  pub find_paths-IsOrdered :
      (ps : List GraphPath)
      → find_paths R tx from to opts ≡ ok ps
      → IsOrdered ps
        × ((ss : List Step)
            → IsRoute R tx from to opts ss
            → In (make_path R tx ss) ps ⊎ IsOutranked opts.max_paths (make_path R tx ss) ps)
  find_paths-IsOrdered ps h =
      let (named, (a, has_from), (b, has_to)) = find_paths-ok R tx from to opts ps h in
      let all = found R tx from to opts in
      let sorted = sort_from ranked_before [] all in
      elim (Bool-cases (length all == 0)) [
        | inl e ↦
            absurd (let k = find_paths-none R tx from to opts a b named has_from has_to e in cc)
        | inr e ↦
            let k = find_paths-some R tx from to opts a b named has_from has_to e in
            let same : limited opts.max_paths sorted ≡ ps = same_ok k h in
            let (ranked, cut) = limited-IsRanked ranked_before opts.max_paths sorted (
              sort_from-IsRanked ranked_before ranked_before_irrefl ranked_before_trans [] all
                tt) in
            subst
              (λ qs.
                IsOrdered qs
                × ((ss : List Step)
                    → IsRoute R tx from to opts ss
                    → In (make_path R tx ss) qs
                      ⊎ IsOutranked opts.max_paths (make_path R tx ss) qs))
              same
              (
                IsRanked-IsOrdered (limited opts.max_paths sorted) ranked,
                λ ss r. kept_or_IsOutranked opts.max_paths (make_path R tx ss) sorted (
                    cut (make_path R tx ss) (
                      sort_from-In ranked_before (make_path R tx ss) [] all
                        (inr (found-In R tx from to opts ss r)))),
              )
      ]
