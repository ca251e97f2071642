-- ===== src/Query/Ancestors/Climbs.antt =====
-- ancestorPaths of query/engine.go: the loop over its stack ends, and which frames it visits.
use mathlib.Core.Path.{subst}
use linea_core.Query.Engine.Found.{In-flat_map_to, In-flat_map_of}
use linea_core.Prelude.{
  ℕ, zero, suc, ◌+◌, ◌-◌, ◌≤◌, ◌<◌, ◌≡◌, ◌⊎◌, refl, sym, ap, ◌∙◌, inl, inr, List, [], ◌∷◌, ◌++◌,
  map, foldl, length, length-append, In, All, Map, ltb, true, false, arith,
}
use linea_core.Errors.{ok}
use linea_core.Model.Ids.{EntityId}
use linea_core.Model.Relationship.{Relationship}
use linea_core.Store.Port.{ReadTx}
use linea_core.Query.Ancestors.{
  Frame, AncestorEntry, next_frame, push_all, parents_of, visit, climb, first_frame,
}
use linea_core.Query.Engine.{flat_map, step_up}

-- `k` rounds more than `n`.
unfoldable pub after : ℕ → ℕ → ℕ
after zero n = n
after (suc k) n = suc (after k n)

after_assoc : (k l n : ℕ) → after (after k l) n ≡ after k (after l n)
unfolding after
after_assoc zero l n = refl
after_assoc (suc k) l n = ap (λ m. suc m) (after_assoc k l n)

pub after-add : (k n : ℕ) → after k n ≡ k + n
unfolding after
after-add zero n = omega arith
after-add (suc k) n = omega (arith, after-add k n)

push_all-append : (fs xs stack : List Frame) → push_all fs (xs ++ stack) ≡ push_all fs xs ++ stack
push_all-append [] xs stack = refl
push_all-append (f ∷ fs) xs stack = push_all-append fs (f ∷ xs) stack

foldl-append :
    {A B : Type 0} (g : B → A → B) (b : B) (xs ys : List A)
    → foldl g b (xs ++ ys) ≡ foldl g (foldl g b xs) ys
foldl-append g b [] ys = refl
foldl-append g b (x ∷ xs) ys = foldl-append g (g b x) xs ys

All-push_all :
    (P : Frame → Type 0) (fs xs : List Frame) → All P fs → All P xs → All P (push_all fs xs)
All-push_all P [] xs a b = b
All-push_all P (f ∷ fs) xs a b = All-push_all P fs (f ∷ xs) a.1 (a.0, b)

-- Frames from which `n` further levels may be recorded.
abbrev AllAt : ℕ → ℕ → List Frame → Type 0
AllAt depth n fs = All (λ f. length f.steps + n ≡ suc depth) fs

next_frames-AllAt :
    (depth n : ℕ) (f : Frame) (rels : List Relationship)
    → length f.steps + suc n ≡ suc depth
    → AllAt depth n (map (next_frame f) rels)
unfolding next_frame
next_frames-AllAt depth n f [] h = tt
next_frames-AllAt depth n f (rel ∷ rels) h = (
  omega (arith, h, length-append f.steps (step_up f.id rel ∷ [])),
  next_frames-AllAt depth n f rels h,
)

In-push_all_to : (g : Frame) (fs xs : List Frame) → In g (push_all fs xs) → In g fs ⊎ In g xs
In-push_all_to g [] xs i = inr i
In-push_all_to g (f ∷ fs) xs i = elim (In-push_all_to g fs (f ∷ xs) i) [
  | inl j ↦ inl (inr j)
  | inr (inl e) ↦ inl (inl e)
  | inr (inr j) ↦ inr j
]

In-push_all_of : (g : Frame) (fs xs : List Frame) → In g fs ⊎ In g xs → In g (push_all fs xs)
In-push_all_of g [] xs (inl i) = absurd i
In-push_all_of g [] xs (inr i) = i
In-push_all_of g (f ∷ fs) xs (inl (inl e)) = In-push_all_of g fs (f ∷ xs) (inr (inl e))
In-push_all_of g (f ∷ fs) xs (inl (inr i)) = In-push_all_of g fs (f ∷ xs) (inl i)
In-push_all_of g (f ∷ fs) xs (inr i) = In-push_all_of g fs (f ∷ xs) (inr (inr i))

In-map_to :
    {A B : Type 0} (f : A → B) (y : B) (xs : List A)
    → In y (map f xs)
    → (x : A) × In x xs × (y ≡ f x)
In-map_to f y [] i = absurd i
In-map_to f y (x ∷ xs) (inl e) = (x, inl refl, e)
In-map_to f y (x ∷ xs) (inr i) = let (z, j, e) = In-map_to f y xs i in (z, inr j, e)

pub In-map_of : {A B : Type 0} (f : A → B) (x : A) (xs : List A) → In x xs → In (f x) (map f xs)
In-map_of f x [] i = absurd i
In-map_of f x (z ∷ xs) (inl e) = inl (ap f e)
In-map_of f x (z ∷ xs) (inr i) = inr (In-map_of f x xs i)

module _ (R : ReadTx) (tx : R.Tx) where
  -- The frames that are visited on account of one from which `n` further levels may be recorded.
  unfoldable pub below : ℕ → Frame → List Frame
  below zero f = []
  below (suc n) f = f ∷ flat_map (λ g. below n g) (push_all (parents_of R tx f) [])

  parents_of-AllAt :
      (depth n : ℕ) (f : Frame)
      → length f.steps + suc n ≡ suc depth
      → AllAt depth n (push_all (parents_of R tx f) [])
  unfolding parents_of
  parents_of-AllAt depth n f h =
      All-push_all (λ g. length g.steps + n ≡ suc depth) (parents_of R tx f) []
        (next_frames-AllAt depth n f _ h) tt

  -- The loop, given rounds enough, works off the frames at the top of its stack.
  run_all :
      (from : EntityId) (depth n : ℕ) (fs : List Frame)
      → AllAt depth n fs
      → (k : ℕ) × ((fuel : ℕ) (stack : List Frame) (out : Map EntityId AncestorEntry)
          → climb R tx from depth (after k fuel) (fs ++ stack) out
            ≡ climb R tx from depth fuel stack
                (foldl (visit R tx from) out (flat_map (λ g. below n g) fs)))
  unfolding climb below after
  run_all from depth n [] a = (0, λ fuel stack out. refl)
  run_all from depth zero (f ∷ fs) a =
      let (k, h) = run_all from depth zero fs a.1 in
      let deep : ltb depth (length f.steps) ≡ true = ground (arith, a.0) in
      (suc k, λ fuel stack out. rw (climb, deep) (h fuel stack out))
  run_all from depth (suc n) (f ∷ fs) a =
      let (k, h) =
        run_all from depth n (push_all (parents_of R tx f) []) (parents_of-AllAt depth n f a.0) in
      let (l, i) = run_all from depth (suc n) fs a.1 in
      let shallow : ltb depth (length f.steps) ≡ false = ground (arith, a.0) in
      (
        suc (after k l),
        λ fuel stack out.
            rw
              (
                climb,
                shallow,
                push_all-append (parents_of R tx f) [] (fs ++ stack),
                after_assoc k l fuel,
              )
              (h (after l fuel) (fs ++ stack) (visit R tx from out f)
                ∙ i fuel stack (
                    foldl (visit R tx from) (visit R tx from out f)
                      (flat_map (λ g. below n g) (push_all (parents_of R tx f) [])))
                ∙ ap (climb R tx from depth fuel stack) (
                    sym (
                      foldl-append (visit R tx from) (visit R tx from out f)
                        (flat_map (λ g. below n g) (push_all (parents_of R tx f) []))
                        (flat_map (λ g. below (suc n) g) fs)))),
      )

  -- Going up from a frame by so many ParentChild edges.
  pub data Climbs : Frame → ℕ → Frame → Type 0 where
    here : {f : Frame} → Climbs f 0 f
    up :
        {f g : Frame} {m : ℕ} (rel : Relationship)
        → In rel (R.iterate_parents tx f.id).items
        → Climbs (next_frame f rel) m g
        → Climbs f (suc m) g

  In-parents_of :
      (f g : Frame)
      → In g (push_all (parents_of R tx f) [])
      → (rel : Relationship) × In rel (R.iterate_parents tx f.id).items × (g ≡ next_frame f rel)
  unfolding parents_of
  In-parents_of f g i = elim (In-push_all_to g (parents_of R tx f) [] i) [
    | inl j ↦ In-map_to (next_frame f) g (R.iterate_parents tx f.id).items j
    | inr j ↦ absurd j
  ]

  -- The frames below a frame are those that climbing leads to.
  pub below-Climbs : (n : ℕ) (f g : Frame) → In g (below n f) → (m : ℕ) × (m < n) × Climbs f m g
  unfolding below
  below-Climbs zero f g i = absurd i
  below-Climbs (suc n) f g (inl e) = (0, omega arith, subst (Climbs f 0) (sym e) here)
  below-Climbs (suc n) f g (inr i) =
      let (h, j, k) = In-flat_map_to (λ x. below n x) g (push_all (parents_of R tx f) []) i in
      let (m, l, c) = below-Climbs n h g k in
      let (rel, r, e) = In-parents_of f h j in
      (suc m, omega (arith, l), up rel r (subst (λ x. Climbs x m g) e c))

  pub Climbs-below : (n : ℕ) {f g : Frame} {m : ℕ} → Climbs f m g → m < n → In g (below n f)
  unfolding below parents_of
  Climbs-below zero c l = absurd (omega (arith, l))
  Climbs-below (suc n) here l = inl refl
  Climbs-below (suc n) {f} {g} (up rel i c) l = inr (
      In-flat_map_of (λ x. below n x) (next_frame f rel) g (push_all (parents_of R tx f) [])
        (In-push_all_of (next_frame f rel) (parents_of R tx f) []
          (inl (In-map_of (next_frame f) rel (R.iterate_parents tx f.id).items i)))
        (Climbs-below n c (omega (arith, l))))

  -- With rounds enough the loop ends, having visited exactly the frames that climbing from the first
  -- one by at most `depth` edges leads to.
  pub climb-visits :
      (from : EntityId) (depth : ℕ)
      → (k : ℕ) × ((fuel : ℕ)
          → k ≤ fuel
          → climb R tx from depth fuel (first_frame from ∷ []) []
            ≡ ok (foldl (visit R tx from) [] (below (suc depth) (first_frame from))))
  unfolding climb
  climb-visits from depth =
      let (k, h) = run_all from depth (suc depth) (first_frame from ∷ []) (omega arith, tt) in
      (
        suc k,
        λ fuel l.
            let rest = fuel - suc k in
            let split : fuel ≡ after k (suc rest) = omega (arith, l, after-add k (suc rest)) in
            ap (λ r. climb R tx from depth r (first_frame from ∷ []) []) split
            ∙ h (suc rest) [] []
            ∙ ap (λ out. ok out)
                (foldl-append (visit R tx from) [] (below (suc depth) (first_frame from)) []),
      )
