-- ===== src/Query/Ancestors/Nearest.antt =====
-- NearestKnownCommonAncestor of query/engine.go returns the best of the common ancestors.
use mathlib.Core.Path.{subst}
use text.Mathlib.TextEquality.{eq_iff}
use linea_core.Prelude.{
  ℕ, String, ◌≡◌, ◌⊎◌, refl, sym, ap, ◌∙◌, inl, inr, true, false, [], ◌∷◌, In, Map, lookup, insert,
  Option, none, some, ◌==◌, nat_Eq, string_Eq, same_some, Bool-cases, Option-cases, arith,
}
use linea_core.Prelude.Int.{int_Eq, int_eq_iff}
use linea_core.Errors.{Error, Result-cases, same_ok, ok, err, err_no_known_connection}
use linea_core.Model.Ids.{EntityId}
use linea_core.Model.Person.{Person}
use linea_core.Store.Port.{ReadTx}
use linea_core.Query.Engine.{Options}
use linea_core.Query.Rank.{text_less}
use linea_core.Query.Rank.Order.{text_less_trans, text_less_irrefl, text_less_total}
use linea_core.Query.Ancestors.{
  AncestorEntry, CommonAncestor, is_nearer, pick, candidate_of, find_best, self_entry,
  ancestor_paths, nearest_known_common_ancestor,
}

is_nearer_irrefl : (c : CommonAncestor) → is_nearer c c ≡ false
is_nearer_irrefl c = ground (arith, text_less_irrefl c.ancestor_id)

text_less_cotrans :
    (s t u : String) → text_less s t ≡ false → text_less t u ≡ false → text_less s u ≡ false
text_less_cotrans s t u h k = ground (
  arith,
  text_less_total s t,
  text_less_trans s u t,
  text_less_total t u,
  text_less_trans t s u,
  text_less_irrefl s,
  eq_iff s t,
  eq_iff t u,
)

is_nearer_asym : (a b : CommonAncestor) → is_nearer a b ≡ true → is_nearer b a ≡ false
is_nearer_asym a b h = ground (
  arith,
  int_eq_iff a.total_generations b.total_generations,
  int_eq_iff b.total_generations a.total_generations,
  text_less_trans a.ancestor_id b.ancestor_id a.ancestor_id,
  text_less_irrefl a.ancestor_id,
)

-- What is not nearer than one that is not nearer than a third is not nearer than the third.
is_nearer_cotrans :
    (a b c : CommonAncestor) → is_nearer a b ≡ false → is_nearer b c ≡ false → is_nearer a c ≡ false
is_nearer_cotrans a b c h k = ground (
  arith,
  int_eq_iff a.total_generations b.total_generations,
  int_eq_iff b.total_generations c.total_generations,
  int_eq_iff a.total_generations c.total_generations,
  text_less_cotrans a.ancestor_id b.ancestor_id c.ancestor_id,
)

pick_least : (c : CommonAncestor) (best : Option CommonAncestor) → is_nearer c (pick c best) ≡ false
unfolding pick
pick_least c none = is_nearer_irrefl c
pick_least c (some b) = elim (Bool-cases (is_nearer c b)) [
  | inl h ↦ rw (pick, h) (is_nearer_irrefl c)
  | inr h ↦ rw (pick, h) h
]

pick_keeps : (c b : CommonAncestor) → is_nearer b (pick c (some b)) ≡ false
unfolding pick
pick_keeps c b = elim (Bool-cases (is_nearer c b)) [
  | inl h ↦ rw (pick, h) (is_nearer_asym c b h)
  | inr h ↦ rw (pick, h) (is_nearer_irrefl b)
]

pick_cases :
    (c : CommonAncestor) (best : Option CommonAncestor)
    → (pick c best ≡ c) ⊎ (some (pick c best) ≡ best)
unfolding pick
pick_cases c none = inl refl
pick_cases c (some b) = elim (Bool-cases (is_nearer c b)) [
  | inl h ↦ inl (rw (pick, h) refl)
  | inr h ↦ inr (rw (pick, h) refl)
]

module _ (R : ReadTx) (tx : R.Tx) (bs : Map EntityId AncestorEntry) where
  -- A candidate: an entry of the one map whose person has an entry in the other.
  pub record IsCandidate (list : Map EntityId AncestorEntry) (c : CommonAncestor) : Type 0 where
    pub id : EntityId
    pub ea : AncestorEntry
    pub eb : AncestorEntry
    pub person : Person
    pub entries : In (id, ea) list × (lookup id bs ≡ some eb)
    pub stored : R.get_person tx id ≡ ok person
    pub described : c ≡ candidate_of R tx id person.unknown ea eb

  -- The result is there, and the candidate is not nearer.
  abbrev IsBeaten : Option CommonAncestor → CommonAncestor → Type 0
  IsBeaten r c = (b : CommonAncestor) × (r ≡ some b) × (is_nearer c b ≡ false)

  abbrev IsBest :
      Map EntityId AncestorEntry → Option CommonAncestor → Option CommonAncestor → Type 0
  IsBest list best r =
      ((r ≡ best) ⊎ ((c : CommonAncestor) × IsCandidate list c × (r ≡ some c)))
      × ((c : CommonAncestor) → IsCandidate list c → IsBeaten r c)
      × ((c : CommonAncestor) → best ≡ some c → IsBeaten r c)

  later :
      (list : Map EntityId AncestorEntry) (row : EntityId × AncestorEntry) (c : CommonAncestor)
      → IsCandidate list c
      → IsCandidate (row ∷ list) c
  later list row c k = record {
    id = k.id;
    ea = k.ea;
    eb = k.eb;
    person = k.person;
    entries = (inr k.entries.0, k.entries.1);
    stored = k.stored;
    described = k.described;
  }

  -- A candidate of a list is that of its head, or one of its tail.
  IsCandidate-cases :
      (list : Map EntityId AncestorEntry) (id : EntityId) (ea : AncestorEntry) (c : CommonAncestor)
      → IsCandidate ((id, ea) ∷ list) c
      → ((eb : AncestorEntry) × (p : Person) × (lookup id bs ≡ some eb)
          × (R.get_person tx id ≡ ok p)
          × (c ≡ candidate_of R tx id p.unknown ea eb))
        ⊎ IsCandidate list c
  IsCandidate-cases list id ea c k = elim k.entries.0 [
    | inl e ↦
        let same = ap (λ q. q.0) e in
        inl (
          k.eb,
          k.person,
          subst (λ j. lookup j bs ≡ some k.eb) same k.entries.1,
          subst (λ j. R.get_person tx j ≡ ok k.person) same k.stored,
          k.described ∙ ap (λ q. candidate_of R tx q.0 k.person.unknown q.1 k.eb) e,
        )
    | inr i ↦ inr (record {
      id = k.id;
      ea = k.ea;
      eb = k.eb;
      person = k.person;
      entries = (i, k.entries.1);
      stored = k.stored;
      described = k.described;
    })
  ]

  -- What is beaten by the pick is beaten by what beats the pick.
  passed_on :
      {r : Option CommonAncestor} (c b : CommonAncestor)
      → is_nearer c b ≡ false
      → IsBeaten r b
      → IsBeaten r c
  passed_on c b h (d, e, k) = (d, e, is_nearer_cotrans c b d h k)

  chosen :
      (id : EntityId) (ea eb : AncestorEntry) (p : Person) (rest : Map EntityId AncestorEntry)
      (best r : Option CommonAncestor)
      → lookup id bs ≡ some eb
      → R.get_person tx id ≡ ok p
      → IsBest rest (some (pick (candidate_of R tx id p.unknown ea eb) best)) r
      → IsBest ((id, ea) ∷ rest) best r
  chosen id ea eb p rest best r l g (from, beats, kept) =
      let cand = candidate_of R tx id p.unknown ea eb in
      let head : IsCandidate ((id, ea) ∷ rest) cand = record {
        id = id;
        ea = ea;
        eb = eb;
        person = p;
        entries = (inl refl, l);
        stored = g;
        described = refl;
      } in
      let held = kept (pick cand best) refl in
      (
        elim from [
          | inl e ↦ elim (pick_cases cand best) [
            | inl h ↦ inr (cand, head, e ∙ ap (λ x. some x) h)
            | inr h ↦ inl (e ∙ h)
          ]
          | inr (c, k, e) ↦ inr (c, later rest (id, ea) c k, e)
        ],
        (λ c k. elim (IsCandidate-cases rest id ea c k) [
          | inl (eb', p', l', g', d) ↦
              let same_e = same_some l' l in
              let same_p = same_ok g' g in
              let same : c ≡ cand =
                d
                ∙ ap (λ q. candidate_of R tx id q.unknown ea eb') same_p
                ∙ ap (λ x. candidate_of R tx id p.unknown ea x) same_e in
              subst (IsBeaten r) (sym same)
                (passed_on cand (pick cand best) (pick_least cand best) held)
          | inr k' ↦ beats c k'
        ]),
        (λ c e.
            passed_on c (pick cand best)
              (subst (λ o. is_nearer c (pick cand o) ≡ false) (sym e) (pick_keeps cand c)) held),
      )

  skipped :
      (id : EntityId) (ea : AncestorEntry) (rest : Map EntityId AncestorEntry)
      (best r : Option CommonAncestor)
      → lookup id bs ≡ none
      → IsBest rest best r
      → IsBest ((id, ea) ∷ rest) best r
  skipped id ea rest best r l (from, beats, kept) = (
    elim from [ inl e ↦ inl e | inr (c, k, e) ↦ inr (c, later rest (id, ea) c k, e) ],
    (λ c k. elim (IsCandidate-cases rest id ea c k) [
      | inl (eb, p, l', g, d) ↦ absurd (cc)
      | inr k' ↦ beats c k'
    ]),
    kept,
  )

  -- A person of both maps who cannot be read.
  abbrev pub IsMissing : Map EntityId AncestorEntry → Error → Type 0
  IsMissing list e =
      (id : EntityId) × (ea : AncestorEntry) × (eb : AncestorEntry) × In (id, ea) list
      × (lookup id bs ≡ some eb)
      × (R.get_person tx id ≡ err e)

  find_best-IsBest :
      (list : Map EntityId AncestorEntry) (best : Option CommonAncestor)
      → ((r : Option CommonAncestor) × (find_best R tx bs list best ≡ ok r) × IsBest list best r)
        ⊎ ((e : Error) × (find_best R tx bs list best ≡ err e) × IsMissing list e)
  unfolding find_best
  find_best-IsBest [] best =
      inl
        (best, refl, (inl refl, (λ c k. absurd (k.entries.0)), (λ c e. (c, e, is_nearer_irrefl c))))
  find_best-IsBest ((id, ea) ∷ rest) best = elim (Option-cases (lookup id bs)) [
    | inl l ↦ elim (find_best-IsBest rest best) [
      | inl (r, e, b) ↦ inl (r, rw (find_best, l) e, skipped id ea rest best r l b)
      | inr (e, h, (i, x, y, j, u, v)) ↦ inr (e, rw (find_best, l) h, (i, x, y, inr j, u, v))
    ]
    | inr (eb, l) ↦ elim (Result-cases (R.get_person tx id)) [
      | inr (e, g) ↦ inr (e, rw (find_best, l, g) refl, (id, ea, eb, inl refl, l, g))
      | inl (p, g) ↦
          elim (find_best-IsBest rest (some (pick (candidate_of R tx id p.unknown ea eb) best))) [
            | inl (r, e, b) ↦ inl (r, rw (find_best, l, g) e, chosen id ea eb p rest best r l g b)
            | inr (e, h, (i, x, y, j, u, v)) ↦
                inr (e, rw (find_best, l, g) h, (i, x, y, inr j, u, v))
          ]
    ]
  ]

module _ (R : ReadTx) (tx : R.Tx) where
  -- On two different persons whose ancestors ancestorPaths finds, each person counted among their
  -- own, NearestKnownCommonAncestor returns a common ancestor to whom none is preferred: none has
  -- fewer generations in all, none as many and a stronger weakest edge, none as many, an edge as weak
  -- and a smaller id. Or no person is an ancestor of both and it reports that no connection is known;
  -- or it returns the error of GetPerson on a common ancestor.
  pub nearest_known_common_ancestor_cases :
      (fuel : ℕ) (a b : EntityId) (opts : Options) (for_a for_b : Map EntityId AncestorEntry)
      → (a == b) ≡ false
      → ancestor_paths R tx fuel a opts ≡ ok for_a
      → ancestor_paths R tx fuel b opts ≡ ok for_b
      → let all_a = insert a (self_entry R tx) for_a in
        let all_b = insert b (self_entry R tx) for_b in
        let result = nearest_known_common_ancestor R tx fuel a b opts in
        ((best : CommonAncestor) × (result ≡ ok best)
          × IsCandidate R tx all_b all_a best
          × ((c : CommonAncestor) → IsCandidate R tx all_b all_a c → is_nearer c best ≡ false))
        ⊎ ((result ≡ err err_no_known_connection)
            × ((c : CommonAncestor) → ¬ IsCandidate R tx all_b all_a c))
        ⊎ ((e : Error) × (result ≡ err e) × IsMissing R tx all_b all_a e)
  unfolding nearest_known_common_ancestor
  nearest_known_common_ancestor_cases fuel a b opts for_a for_b n ha hb =
      let all_a = insert a (self_entry R tx) for_a in
      let all_b = insert b (self_entry R tx) for_b in
      elim (find_best-IsBest R tx all_b all_a none) [
        | inl (none, e, (from, beats, kept)) ↦ inr (
            inl (
              rw (nearest_known_common_ancestor, n, ha, hb, e) refl,
              λ c k. let (b', h, more) = beats c k in absurd (let h' : none ≡ some b' = h in cc),
            ))
        | inl (some best, e, (from, beats, kept)) ↦ inl (
          best,
          rw (nearest_known_common_ancestor, n, ha, hb, e) refl,
          elim from [
            | inl h ↦ absurd (cc)
            | inr (c, k, h) ↦ subst (IsCandidate R tx all_b all_a) (sym (same_some refl h)) k
          ],
          λ c k.
              let (b', h, less) = beats c k in
              subst (λ x. is_nearer c x ≡ false) (same_some h refl) less,
        )
        | inr (e, h, missing) ↦
            inr (inr (e, rw (nearest_known_common_ancestor, n, ha, hb, h) refl, missing))
      ]
