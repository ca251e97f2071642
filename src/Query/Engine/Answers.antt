-- ===== src/Query/Engine/Answers.antt =====
-- The answers of FindPaths of query/engine.go.
use linea_core.Prelude.{
  ℕ, zero, suc, ◌≡◌, ◌≢◌, ◌⊎◌, inl, inr, refl, sym, ap, ◌∙◌, Bool, true, false, List, [], ◌∷◌, map,
  ◌==◌, string_Eq, nat_Eq, In, length, take, arith, Bool-cases,
}
use mathlib.Core.Path.{subst}
use text.Mathlib.TextEquality.{eq_iff}
use linea_core.Prelude.Int.{ℤ, pos, negsuc}
use linea_core.Errors.{ok, err, err_no_known_connection, Result-cases}
use linea_core.Model.Ids.{EntityId}
use linea_core.Model.Person.{Person}
use linea_core.Store.Port.{ReadTx}
use linea_core.Query.Paths.{Step, GraphPath}
use linea_core.Query.Engine.{
  Options, place, sort_from, ranked_before, make_path, dfs, depth_of, find_paths,
}
use linea_core.Query.Engine.Found.{Route, dfs-Route, Route-dfs}

ok-injective : {A : Type 0} {x y : A} → ok x ≡ ok y → x ≡ y
ok-injective e = cc

In-map :
    {A B : Type 0} (f : A → B) (y : B) (xs : List A)
    → In y (map f xs)
    → (x : A) × In x xs × (y ≡ f x)
In-map f y [] i = absurd i
In-map f y (x ∷ xs) (inl e) = (x, inl refl, e)
In-map f y (x ∷ xs) (inr i) = let (z, j, e) = In-map f y xs i in (z, inr j, e)

map-In : {A B : Type 0} (f : A → B) (x : A) (xs : List A) → In x xs → In (f x) (map f xs)
map-In f x [] i = absurd i
map-In f x (y ∷ xs) (inl e) = inl (ap f e)
map-In f x (y ∷ xs) (inr i) = inr (map-In f x xs i)

pub In-take : {A : Type 0} (n : ℕ) (x : A) (xs : List A) → In x (take n xs) → In x xs
In-take zero x xs i = absurd i
In-take (suc n) x [] i = absurd i
In-take (suc n) x (y ∷ xs) (inl e) = inl e
In-take (suc n) x (y ∷ xs) (inr i) = inr (In-take n x xs i)

module _ {A : Type 0} (before : A → A → Bool) where
  pub In-place : (x y : A) (ys : List A) → In y (place before x ys) → (y ≡ x) ⊎ In y ys
  In-place x y [] i = i
  In-place x y (z ∷ ys) i = elim (Bool-cases (before x z)) [
    | inl b ↦ subst (In y) (place-here x z ys b) i
    | inr b ↦ elim (subst (In y) (place-later x z ys b) i) [
      | inl e ↦ inr (inl e)
      | inr j ↦ elim (In-place x y ys j) [ inl e ↦ inl e | inr k ↦ inr (inr k) ]
    ]
  ]
    where
      place-here :
          (x z : A) (ys : List A) → before x z ≡ true → place before x (z ∷ ys) ≡ x ∷ z ∷ ys
      place-here x z ys b = rw b refl

      place-later :
          (x z : A) (ys : List A)
          → before x z ≡ false
          → place before x (z ∷ ys) ≡ z ∷ place before x ys
      place-later x z ys b = rw b refl

  place-In : (x y : A) (ys : List A) → (y ≡ x) ⊎ In y ys → In y (place before x ys)
  place-In x y [] h = h
  place-In x y (z ∷ ys) h = elim (Bool-cases (before x z)) [
    | inl b ↦ rw b h
    | inr b ↦ rw b (elim h [
      | inl e ↦ inr (place-In x y ys (inl e))
      | inr (inl e) ↦ inl e
      | inr (inr i) ↦ inr (place-In x y ys (inr i))
    ])
  ]

  In-sort_from :
      (y : A) (sorted xs : List A) → In y (sort_from before sorted xs) → In y sorted ⊎ In y xs
  In-sort_from y sorted [] i = inl i
  In-sort_from y sorted (x ∷ xs) i = elim (In-sort_from y (place before x sorted) xs i) [
    | inl j ↦ elim (In-place x y sorted j) [ inl e ↦ inr (inl e) | inr k ↦ inl k ]
    | inr j ↦ inr (inr j)
  ]

  pub sort_from-In :
      (y : A) (sorted xs : List A) → In y sorted ⊎ In y xs → In y (sort_from before sorted xs)
  sort_from-In y sorted [] h = elim h [ inl i ↦ i | inr i ↦ absurd i ]
  sort_from-In y sorted (x ∷ xs) h = sort_from-In y (place before x sorted) xs (elim h [
    | inl i ↦ inl (place-In x y sorted (inr i))
    | inr (inl e) ↦ inl (place-In x y sorted (inl e))
    | inr (inr i) ↦ inr i
  ])

other : {s t : EntityId} → s ≢ t → s == t ≡ false
other {s} {t} ne = ground (arith, eq_iff s t)

In-none : {A : Type 0} (xs : List A) (x : A) → length xs == 0 ≡ true → ¬ In x xs
In-none [] x h i = i
In-none (y ∷ xs) x h i = absurd (ground (arith, h))

-- MaxPaths, where it is positive.
abbrev pub limited : {A : Type 0} → ℤ → List A → List A
limited m xs = elim m [ pos (suc n) ↦ take (suc n) xs | _ ↦ xs ]

In-limited : {A : Type 0} (m : ℤ) (x : A) (xs : List A) → In x (limited m xs) → In x xs
In-limited (pos zero) x xs i = i
In-limited (pos (suc n)) x xs i = In-take (suc n) x xs i
In-limited (negsuc n) x xs i = i

limited_all : {A : Type 0} (m : ℤ) (xs : List A) → m ≡ pos 0 → limited m xs ≡ xs
limited_all m xs e = rw e refl

module _ (R : ReadTx) (tx : R.Tx) (from to : EntityId) (opts : Options) where
  -- What there is to find.
  abbrev pub IsRoute : List Step → Type 0
  IsRoute ss = Route R tx opts to (from ∷ []) from (depth_of opts) ss

  abbrev pub found : List GraphPath
  found = map (make_path R tx) (dfs R tx opts to (depth_of opts) (from ∷ []) [] from)

  In-found : (p : GraphPath) → In p found → (ss : List Step) × IsRoute ss × (p ≡ make_path R tx ss)
  In-found p i =
      let (us, j, e) =
        In-map (make_path R tx) p (dfs R tx opts to (depth_of opts) (from ∷ []) [] from) i in
      let (ss, r, q) = dfs-Route R tx opts to (depth_of opts) (from ∷ []) [] from us j in
      (ss, r, e ∙ ap (make_path R tx) q)

  pub found-In : (ss : List Step) → IsRoute ss → In (make_path R tx ss) found
  found-In ss r =
      map-In (make_path R tx) ss (dfs R tx opts to (depth_of opts) (from ∷ []) [] from)
        (Route-dfs R tx opts to (depth_of opts) (from ∷ []) [] from ss r)

  -- Two different persons who both exist.
  module _ (a b : Person) (named : (from ≢ "") × (to ≢ "") × (from ≢ to))
      (has_from : R.get_person tx from ≡ ok a) (has_to : R.get_person tx to ≡ ok b) where
    pub find_paths-none :
        length found == 0 ≡ true → find_paths R tx from to opts ≡ err err_no_known_connection
    unfolding find_paths
    find_paths-none h = rw (other named.0, other named.1, other named.2, has_from, has_to, h) refl

    pub find_paths-some :
        length found == 0 ≡ false
        → find_paths R tx from to opts
          ≡ ok (limited opts.max_paths (sort_from ranked_before [] found))
    unfolding find_paths
    find_paths-some h = rw (other named.0, other named.1, other named.2, has_from, has_to, h) refl

    -- FindPaths between two different persons who both exist either reports that no connection is
    -- known, and there is no route within the depth; or it succeeds, every path that it returns is
    -- that of a route, and, if MaxPaths is 0, the path of every route is among them.
    pub find_paths_answers :
        ((find_paths R tx from to opts ≡ err err_no_known_connection)
          × ((ss : List Step) → ¬ IsRoute ss))
        ⊎ ((ps : List GraphPath) × (find_paths R tx from to opts ≡ ok ps)
            × ((p : GraphPath) → In p ps → (ss : List Step) × IsRoute ss × (p ≡ make_path R tx ss))
            × (opts.max_paths ≡ pos 0 → (ss : List Step) → IsRoute ss → In (make_path R tx ss) ps))
    find_paths_answers = elim (Bool-cases (length found == 0)) [
      | inl h ↦ inl (find_paths-none h, λ ss r. In-none found (make_path R tx ss) h (found-In ss r))
      | inr h ↦ inr (
        limited opts.max_paths (sort_from ranked_before [] found),
        find_paths-some h,
        λ p i.
            elim (In-sort_from ranked_before p [] found
              (In-limited opts.max_paths p (sort_from ranked_before [] found) i)) [
                | inl j ↦ absurd j
                | inr j ↦ In-found p j
              ],
        λ m ss r.
            subst (In (make_path R tx ss))
              (sym (limited_all opts.max_paths (sort_from ranked_before [] found) m))
              (sort_from-In ranked_before (make_path R tx ss) [] found (inr (found-In ss r))),
      )
    ]

  -- A call that succeeds had two different persons who both exist.
  pub find_paths-ok :
      (ps : List GraphPath)
      → find_paths R tx from to opts ≡ ok ps
      → ((from ≢ "") × (to ≢ "") × (from ≢ to))
        × ((a : Person) × (R.get_person tx from ≡ ok a))
        × ((b : Person) × (R.get_person tx to ≡ ok b))
  unfolding find_paths
  find_paths-ok ps h = (
    (
      λ e. absurd (ground (arith, h, eq_iff from "")),
      λ e. absurd (ground (arith, h, eq_iff to "")),
      λ e. absurd (ground (arith, h, eq_iff from to)),
    ),
    elim (Result-cases (R.get_person tx from)) [
      | inl r ↦ r
      | inr (e, q) ↦ absurd (ground (arith, h, q))
    ],
    elim (Result-cases (R.get_person tx to)) [
      | inl r ↦ r
      | inr (e, q) ↦ absurd (ground (arith, h, q))
    ],
  )

  -- Every path that FindPaths returns is the path of a route.
  pub find_paths-IsRoute :
      (ps : List GraphPath) (p : GraphPath)
      → find_paths R tx from to opts ≡ ok ps
      → In p ps
      → (ss : List Step) × IsRoute ss × (p ≡ make_path R tx ss)
  find_paths-IsRoute ps p h i =
      let (named, (a, has_from), (b, has_to)) = find_paths-ok ps h in
      elim (find_paths_answers a b named has_from has_to) [
        | inl (none_known, _) ↦ absurd (cc)
        | inr (qs, e, sound, _) ↦ sound p (subst (In p) (ok-injective (sym h ∙ e)) i)
      ]
