-- ===== src/Query/Engine/Found.antt =====
-- The search of FindPaths of query/engine.go against routes, as a relation.
use linea_core.Prelude.{
  ℕ, zero, suc, ◌≡◌, ◌≢◌, ◌⊎◌, ◌↔◌, inl, inr, refl, ap, ◌∙◌, Bool, true, false, List, [], ◌∷◌, ◌++◌,
  ◌==◌, string_Eq, exists, In, arith, Bool-cases,
}
use mathlib.Core.Path.{subst}
use text.Mathlib.TextEquality.{eq_iff}
use linea_core.Model.Ids.{EntityId}
use linea_core.Store.Port.{ReadTx}
use linea_core.Query.Paths.{Step}
use linea_core.Query.Engine.{Options, flat_map, try_step, steps_from, dfs}

abbrev is_visited : List EntityId → EntityId → Bool
is_visited visited x = exists (λ v. v == x) visited

pub exists_iff :
    (visited : List EntityId) (x : EntityId) → (is_visited visited x ≡ true) ↔ In x visited
exists_iff [] x = ground arith
exists_iff (v ∷ visited) x = ground (arith, exists_iff visited x, eq_iff v x)

pub In-append : {A : Type 0} (x : A) (xs ys : List A) → In x (xs ++ ys) ↔ (In x xs ⊎ In x ys)
In-append x [] ys = ground arith
In-append x (y ∷ xs) ys = ground (arith, In-append x xs ys)

pub In-flat_map_to :
    {A B : Type 0} (f : A → List B) (y : B) (xs : List A)
    → In y (flat_map f xs)
    → (x : A) × In x xs × In y (f x)
In-flat_map_to f y [] i = absurd i
In-flat_map_to f y (x ∷ xs) i = elim ((In-append y (f x) (flat_map f xs)).0 i) [
  | inl j ↦ (x, inl refl, j)
  | inr j ↦ let (z, k, l) = In-flat_map_to f y xs j in (z, inr k, l)
]

pub In-flat_map_of :
    {A B : Type 0} (f : A → List B) (x : A) (y : B) (xs : List A)
    → In x xs
    → In y (f x)
    → In y (flat_map f xs)
In-flat_map_of f x y [] i j = absurd i
In-flat_map_of f x y (z ∷ xs) (inl e) j =
    (In-append y (f z) (flat_map f xs)).1 (inl (subst (λ u. In y (f u)) e j))
In-flat_map_of f x y (z ∷ xs) (inr i) j =
    (In-append y (f z) (flat_map f xs)).1 (inr (In-flat_map_of f x y xs i j))

append_assoc :
    {A : Type 0} (xs : List A) (y : A) (ys : List A) → (xs ++ y ∷ []) ++ ys ≡ xs ++ y ∷ ys
append_assoc [] y ys = refl
append_assoc (x ∷ xs) y ys = ap (λ u. x ∷ u) (append_assoc xs y ys)

module _ (R : ReadTx) (tx : R.Tx) (opts : Options) (to : EntityId) where
  -- The steps lead from a person to `to`, along edges that the adapter shows, without meeting a
  -- person that was visited or that they met before, and are at most as many as the number says.
  pub data Route : List EntityId → EntityId → ℕ → List Step → Type 0 where
    arrive :
        {visited : List EntityId} {node : EntityId} {n : ℕ} (s : Step)
        → In s (steps_from R tx opts to node)
        → ¬ In s.to_person visited
        → s.to_person ≡ to
        → Route visited node (suc n) (s ∷ [])
    pass :
        {visited : List EntityId} {node : EntityId} {n : ℕ} {ss : List Step} (s : Step)
        → In s (steps_from R tx opts to node)
        → ¬ In s.to_person visited
        → s.to_person ≢ to
        → Route (s.to_person ∷ visited) s.to_person n ss
        → Route visited node (suc n) (s ∷ ss)

  module _ (go : List EntityId → List Step → EntityId → List (List Step)) (visited : List EntityId)
      (steps : List Step) (s : Step) where
    try_step-seen :
        is_visited visited s.to_person ≡ true → try_step R tx opts to go visited steps s ≡ []
    try_step-seen v = rw v refl

    try_step-arrive :
        is_visited visited s.to_person ≡ false
        → s.to_person == to ≡ true
        → try_step R tx opts to go visited steps s ≡ (steps ++ s ∷ []) ∷ []
    try_step-arrive nv e = rw (nv, e) refl

    try_step-pass :
        is_visited visited s.to_person ≡ false
        → s.to_person == to ≡ false
        → try_step R tx opts to go visited steps s
          ≡ go (s.to_person ∷ visited) (steps ++ s ∷ []) s.to_person
    try_step-pass nv ne = rw (nv, ne) refl

    unseen : is_visited visited s.to_person ≡ false → ¬ In s.to_person visited
    unseen nv j = absurd (cc (nv, (exists_iff visited s.to_person).1 j))

    elsewhere : s.to_person == to ≡ false → s.to_person ≢ to
    elsewhere ne e = absurd (cc (ne, (eq_iff s.to_person to).1 e))

    -- What one yield finds.
    In-try_step :
        (found : List Step)
        → In found (try_step R tx opts to go visited steps s)
        → (¬ In s.to_person visited)
          × (((s.to_person ≡ to) × (found ≡ steps ++ s ∷ []))
              ⊎ ((s.to_person ≢ to)
                  × In found (go (s.to_person ∷ visited) (steps ++ s ∷ []) s.to_person)))
    In-try_step found i = elim (Bool-cases (is_visited visited s.to_person)) [
      | inl v ↦ absurd (subst (In found) (try_step-seen v) i)
      | inr nv ↦ (
        unseen nv,
        elim (Bool-cases (s.to_person == to)) [
          | inl e ↦ inl (
            (eq_iff s.to_person to).0 e,
            elim (subst (In found) (try_step-arrive nv e) i) [ inl q ↦ q | inr j ↦ absurd j ],
          )
          | inr ne ↦ inr (elsewhere ne, subst (In found) (try_step-pass nv ne) i)
        ],
      )
    ]

    try_step-In :
        (found : List Step)
        → ¬ In s.to_person visited
        → ((s.to_person ≡ to) × (found ≡ steps ++ s ∷ []))
          ⊎ ((s.to_person ≢ to)
              × In found (go (s.to_person ∷ visited) (steps ++ s ∷ []) s.to_person))
        → In found (try_step R tx opts to go visited steps s)
    try_step-In found new_one h = elim (Bool-cases (is_visited visited s.to_person)) [
      | inl v ↦ absurd (new_one ((exists_iff visited s.to_person).0 v))
      | inr nv ↦ elim h [
        | inl (e, q) ↦ rw (try_step-arrive nv ((eq_iff s.to_person to).1 e)) (inl q)
        | inr (ne, j) ↦ elim (Bool-cases (s.to_person == to)) [
          | inl e ↦ absurd (ne ((eq_iff s.to_person to).0 e))
          | inr e ↦ rw (try_step-pass nv e) j
        ]
      ]
    ]

  pub dfs-Route :
      (n : ℕ) (visited : List EntityId) (steps : List Step) (node : EntityId) (found : List Step)
      → In found (dfs R tx opts to n visited steps node)
      → (ss : List Step) × Route visited node n ss × (found ≡ steps ++ ss)
  unfolding dfs
  dfs-Route zero visited steps node found i = absurd i
  dfs-Route (suc n) visited steps node found i =
      let go : List EntityId → List Step → EntityId → List (List Step) =
        λ v ss x. dfs R tx opts to n v ss x in
      let (s, j, k) =
        In-flat_map_to (try_step R tx opts to go visited steps) found (steps_from R tx opts to node)
          i in
      let (new_one, h) = In-try_step go visited steps s found k in
      elim h [
        | inl (e, q) ↦ (s ∷ [], arrive s j new_one e, q)
        | inr (ne, m) ↦
            let (ss, r, q) =
              dfs-Route n (s.to_person ∷ visited) (steps ++ s ∷ []) s.to_person found m in
            (s ∷ ss, pass s j new_one ne r, q ∙ append_assoc steps s ss)
      ]

  pub Route-dfs :
      (n : ℕ) (visited : List EntityId) (steps : List Step) (node : EntityId) (ss : List Step)
      → Route visited node n ss
      → In (steps ++ ss) (dfs R tx opts to n visited steps node)
  unfolding dfs
  Route-dfs zero visited steps node ss r = elim r [ ]
  Route-dfs (suc n) visited steps node ss (arrive s j new_one e) =
      In-flat_map_of (try_step R tx opts to (λ v us x. dfs R tx opts to n v us x) visited steps) s
        (steps ++ ss) (steps_from R tx opts to node) j
        (try_step-In (λ v us x. dfs R tx opts to n v us x) visited steps s (steps ++ ss) new_one
          (inl (e, refl)))
  Route-dfs (suc n) visited steps node ss (pass {ss = us} s j new_one ne r) =
      In-flat_map_of (try_step R tx opts to (λ v vs x. dfs R tx opts to n v vs x) visited steps) s
        (steps ++ ss) (steps_from R tx opts to node) j
        (try_step-In (λ v vs x. dfs R tx opts to n v vs x) visited steps s (steps ++ ss) new_one
          (inr (
            ne,
            subst
                (λ z.
                  In z (dfs R tx opts to n (s.to_person ∷ visited) (steps ++ s ∷ []) s.to_person))
                (append_assoc steps s us)
                (Route-dfs n (s.to_person ∷ visited) (steps ++ s ∷ []) s.to_person us r),
          )))
