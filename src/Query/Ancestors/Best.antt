-- ===== src/Query/Ancestors/Best.antt =====
-- ancestorPaths of query/engine.go keeps the cheapest way up to every ancestor.
use mathlib.Core.Path.{subst}
use text.Mathlib.TextEquality.{eq_iff}
use linea_core.Prelude.{
  ℕ, suc, ◌≤◌, ◌≡◌, ◌≢◌, ◌⊎◌, refl, sym, ap, ◌∙◌, inl, inr, true, false, List, [], ◌∷◌, foldl, In,
  Map, lookup, insert, lookup-insert, Option, some, ◌==◌, string_Eq, same_some, Bool-cases,
  Option-cases, arith,
}
use linea_core.Prelude.Int.{int_Eq, int_eq_iff}
use linea_core.Errors.{Error, ok, err}
use linea_core.Model.Ids.{EntityId}
use linea_core.Model.Person.{Person}
use linea_core.Store.Port.{ReadTx}
use linea_core.Query.Engine.{Options, depth_of}
use linea_core.Query.Ancestors.{
  Frame, AncestorEntry, first_frame, is_cheaper, entry_of, visit, ancestor_paths,
}
use linea_core.Query.Ancestors.Climbs.{below, Climbs, below-Climbs, Climbs-below, climb-visits}

-- Two answers of a lookup agree.
rewarded :
    {o : Option AncestorEntry} (cur other : AncestorEntry) (f : Frame)
    → o ≡ some cur
    → o ≡ some other
    → is_cheaper f cur ≡ true
    → is_cheaper f other ≡ true
rewarded cur other f l h c = subst (λ x. is_cheaper f x ≡ true) (same_some l h) c

nothing_there : (id : EntityId) (e : AncestorEntry) → lookup {V = AncestorEntry} id [] ≡ some e → ⊥
unfolding lookup
nothing_there id e h = absurd (cc)

module _ (R : ReadTx) (tx : R.Tx) (from : EntityId) where
  -- What a frame costs no less than stays so when the entry gives way to a cheaper frame.
  not_cheaper :
      (f g : Frame) (cur : AncestorEntry)
      → is_cheaper g cur ≡ false
      → is_cheaper f cur ≡ true
      → is_cheaper g (entry_of R tx f) ≡ false
  unfolding entry_of
  not_cheaper f g cur h k =
      ground
        (arith, int_eq_iff g.dist cur.dist, int_eq_iff f.dist cur.dist, int_eq_iff g.dist f.dist)

  not_cheaper_itself : (f : Frame) → is_cheaper f (entry_of R tx f) ≡ false
  unfolding entry_of
  not_cheaper_itself f = ground arith

  -- There is an entry for the frame's person, and the frame is not cheaper.
  abbrev IsRecorded : Map EntityId AncestorEntry → Frame → Type 0
  IsRecorded out g = (e : AncestorEntry) × (lookup g.id out ≡ some e) × (is_cheaper g e ≡ false)

  insert-IsRecorded :
      (out : Map EntityId AncestorEntry) (f g : Frame)
      → ((cur : AncestorEntry) → lookup f.id out ≡ some cur → is_cheaper f cur ≡ true)
      → IsRecorded out g
      → IsRecorded (insert f.id (entry_of R tx f) out) g
  insert-IsRecorded out f g c (e, l, h) = elim (Bool-cases (f.id == g.id)) [
    | inl b ↦
        let same = (eq_iff f.id g.id).0 b in
        (
          entry_of R tx f,
          lookup-insert f.id g.id (entry_of R tx f) out ∙ rw b refl,
          not_cheaper f g e h (c e (ap (λ i. lookup i out) same ∙ l)),
        )
    | inr b ↦ (e, lookup-insert f.id g.id (entry_of R tx f) out ∙ rw (b, l) refl, h)
  ]

  -- A visit leaves the map alone, for one of two reasons, or enters the frame.
  visit_cases :
      (out : Map EntityId AncestorEntry) (f : Frame)
      → ((visit R tx from out f ≡ out)
          × ((f.id ≡ from)
              ⊎ ((cur : AncestorEntry) × (lookup f.id out ≡ some cur)
                  × (is_cheaper f cur ≡ false))))
        ⊎ ((visit R tx from out f ≡ insert f.id (entry_of R tx f) out)
            × (f.id ≢ from)
            × ((cur : AncestorEntry) → lookup f.id out ≡ some cur → is_cheaper f cur ≡ true))
  unfolding visit
  visit_cases out f = elim (Bool-cases (f.id == from)) [
    | inl b ↦ inl (rw (visit, b) refl, inl ((eq_iff f.id from).0 b))
    | inr b ↦
        let differs : f.id ≢ from = λ e. absurd (let b' = (eq_iff f.id from).1 e in cc) in
        elim (Option-cases (lookup f.id out)) [
          | inl l ↦ inr (rw (visit, b, l) refl, differs, λ cur h. absurd (cc))
          | inr (cur, l) ↦ elim (Bool-cases (is_cheaper f cur)) [
            | inl c ↦ inr (rw (visit, b, l, c) refl, differs, λ other h. rewarded cur other f l h c)
            | inr c ↦ inl (rw (visit, b, l, c) refl, inr (cur, l, c))
          ]
        ]
  ]

  visit-IsRecorded :
      (out : Map EntityId AncestorEntry) (f g : Frame)
      → IsRecorded out g
      → IsRecorded (visit R tx from out f) g
  visit-IsRecorded out f g r = elim (visit_cases out f) [
    | inl (e, why) ↦ subst (λ m. IsRecorded m g) (sym e) r
    | inr (e, n, c) ↦ subst (λ m. IsRecorded m g) (sym e) (insert-IsRecorded out f g c r)
  ]

  visit-records :
      (out : Map EntityId AncestorEntry) (f : Frame)
      → f.id ≢ from
      → IsRecorded (visit R tx from out f) f
  visit-records out f n = elim (visit_cases out f) [
    | inl (e, inl same) ↦ absurd (n same)
    | inl (e, inr (cur, l, c)) ↦ subst (λ m. IsRecorded m f) (sym e) (cur, l, c)
    | inr (e, d, c) ↦
        subst (λ m. IsRecorded m f) (sym e)
          (
            entry_of R tx f,
            lookup-insert f.id f.id (entry_of R tx f) out ∙ rw ((eq_iff f.id f.id).1 refl) refl,
            not_cheaper_itself f,
          )
  ]

  visits-IsRecorded :
      (fs : List Frame) (out : Map EntityId AncestorEntry) (g : Frame)
      → IsRecorded out g
      → IsRecorded (foldl (visit R tx from) out fs) g
  visits-IsRecorded [] out g r = r
  visits-IsRecorded (f ∷ fs) out g r =
      visits-IsRecorded fs (visit R tx from out f) g (visit-IsRecorded out f g r)

  visits-record :
      (fs : List Frame) (out : Map EntityId AncestorEntry) (g : Frame)
      → In g fs
      → g.id ≢ from
      → IsRecorded (foldl (visit R tx from) out fs) g
  visits-record [] out g i n = absurd i
  visits-record (f ∷ fs) out g (inl e) n =
      visits-IsRecorded fs (visit R tx from out f) g
        (subst (λ x. IsRecorded (visit R tx from out x) g) e (visit-records out g n))
  visits-record (f ∷ fs) out g (inr i) n = visits-record fs (visit R tx from out f) g i n

  -- Every entry is that of a frame of the list.
  abbrev IsFrom : List Frame → Map EntityId AncestorEntry → Type 0
  IsFrom seen out =
      (id : EntityId) (e : AncestorEntry)
      → lookup id out ≡ some e
      → (id ≢ from) × ((f : Frame) × In f seen × (f.id ≡ id) × (entry_of R tx f ≡ e))

  visit-IsFrom :
      (seen : List Frame) (out : Map EntityId AncestorEntry) (f : Frame)
      → In f seen
      → IsFrom seen out
      → IsFrom seen (visit R tx from out f)
  visit-IsFrom seen out f i s = elim (visit_cases out f) [
    | inl (e, why) ↦ subst (IsFrom seen) (sym e) s
    | inr (e, n, c) ↦ subst (IsFrom seen) (sym e) (λ id x l. elim (Bool-cases (f.id == id)) [
      | inl b ↦
          let same = (eq_iff f.id id).0 b in
          let found = lookup-insert f.id id (entry_of R tx f) out ∙ rw b refl in
          ((λ h. n (same ∙ h)), (f, i, same, same_some found l))
      | inr b ↦ s id x (sym (lookup-insert f.id id (entry_of R tx f) out ∙ rw b refl) ∙ l)
    ])
  ]

  visits-IsFrom :
      (seen fs : List Frame) (out : Map EntityId AncestorEntry)
      → ((f : Frame) → In f fs → In f seen)
      → IsFrom seen out
      → IsFrom seen (foldl (visit R tx from) out fs)
  visits-IsFrom seen [] out sub s = s
  visits-IsFrom seen (f ∷ fs) out sub s =
      visits-IsFrom seen fs (visit R tx from out f) (λ g i. sub g (inr i))
        (visit-IsFrom seen out f (sub f (inl refl)) s)

  -- Given rounds enough, ancestorPaths from a person who exists returns a map, with an entry for
  -- exactly the other persons that climbing by as many ParentChild edges as the depth allows leads
  -- to; the entry is that of such a way up, and no such way to that person is cheaper: none spans
  -- fewer generations, and none as many with a stronger weakest edge. If the person is not there, it
  -- returns the error of GetPerson.
  pub ancestor_paths_best :
      (opts : Options)
      → ((e : Error)
          → R.get_person tx from ≡ err e
          → (fuel : ℕ) → ancestor_paths R tx fuel from opts ≡ err e)
        × ((p : Person)
            → R.get_person tx from ≡ ok p
            → (out : Map EntityId AncestorEntry) × ((k : ℕ) × ((fuel : ℕ)
                  → k ≤ fuel
                  → ancestor_paths R tx fuel from opts ≡ ok out))
              × ((m : ℕ) (g : Frame)
                  → Climbs R tx (first_frame from) m g
                  → m ≤ depth_of opts
                  → g.id ≢ from
                  → (e : AncestorEntry) × (lookup g.id out ≡ some e) × (is_cheaper g e ≡ false))
              × ((id : EntityId) (e : AncestorEntry)
                  → lookup id out ≡ some e
                  → (id ≢ from)
                    × ((m : ℕ) × (g : Frame) × (m ≤ depth_of opts)
                        × Climbs R tx (first_frame from) m g
                        × (g.id ≡ id)
                        × (entry_of R tx g ≡ e))))
  unfolding ancestor_paths
  ancestor_paths_best opts =
      let depth = depth_of opts in
      let seen = below R tx (suc depth) (first_frame from) in
      let out = foldl (visit R tx from) [] seen in
      (
        (λ e h fuel. rw (ancestor_paths, h) refl),
        λ p h.
            let (k, ends) = climb-visits R tx from depth in
            (
              out,
              (k, λ fuel l. rw (ancestor_paths, h) (ends fuel l)),
              (λ m g c l n.
                  visits-record seen [] g (Climbs-below R tx (suc depth) c (omega (arith, l))) n),
              (λ id e l.
                  let (n, (g, i, same, entry)) =
                    visits-IsFrom seen seen [] (λ f j. j) (λ j x h. absurd (nothing_there j x h)) id
                      e l in
                  let (m, b, c) = below-Climbs R tx (suc depth) (first_frame from) g i in
                  (n, (m, g, omega (arith, b), c, same, entry))),
            ),
      )
