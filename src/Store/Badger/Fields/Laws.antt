-- ===== src/Store/Badger/Fields/Laws.antt =====
-- The parts of entities in store/badger/codec.go, there and back.
use mathlib.Core.Path.{subst}
use linea_core.Prelude.{
  ℕ, ◌≤◌, ◌≡◌, ◌≢◌, refl, Bool, not, ◌&&◌, ◌∙◌, ap, if◌then◌else◌, ◌==◌, some, true, List, [], ◌∷◌,
  map, All, inl, inr, arith, string_Eq, nat_Eq, Bool-cases,
}
use text.Mathlib.TextEquality.{eq_iff}
use linea_core.Prelude.Int.{pos, int_Eq, ltb_ℤ}
use linea_core.Prelude.Text.{trim_space, trim_space-trim_space}
use linea_core.Errors.{Result, ok, err, plain}
use linea_core.Model.Ids.{EntityId, parse_id}
use linea_core.Model.Name.{Name, new_name}
use linea_core.Model.TimeRange.{
  TimeRange, YearBound, Calendar, new_time_range, is_zero, is_known, gregorian_proleptic,
}
use linea_core.Model.Continuity.{Continuity, known_gap, is_gapped}
use linea_core.Model.Made.{IsId, IsName, IsRange, IsBound, IsContinuity, IsOptionalId}
use linea_core.Store.Badger.Fields.{
  parse_all, encode_range, decode_range, encode_time_range, decode_time_range, decode_bound,
  encode_name, decode_name, safe_uint8, decode_optional_id, encode_continuity, decode_continuity,
  continuity_in,
}

pub parse_id-IsId : (id : EntityId) → IsId id → parse_id id ≡ ok id
unfolding parse_id
parse_id-IsId id (s, h) = ground (arith, trim_space-trim_space s, eq_iff (trim_space s) "")

pub IsId-nonempty : (id : EntityId) → IsId id → id ≢ ""
unfolding parse_id
IsId-nonempty id (s, h) = λ e. absurd (ground (arith, eq_iff (trim_space s) ""))

pub decode_name-encode_name : (n : Name) → IsName n → decode_name (encode_name n) ≡ ok n
unfolding decode_name encode_name new_name
decode_name-encode_name n (text, language, script, t, preferred, h) = ground (
  arith,
  trim_space-trim_space text,
  trim_space-trim_space language,
  trim_space-trim_space script,
  eq_iff (trim_space text) "",
  eq_iff t "",
)

pub safe_uint8-pos : (n : ℕ) → n ≤ 255 → safe_uint8 (pos n) ≡ ok n
unfolding safe_uint8
safe_uint8-pos n h = ground arith

pub parse_all-All :
    {A B : Type 0} (f : A → Result B) (g : B → A) (P : B → Type 0)
    → ((b : B) → P b → f (g b) ≡ ok b)
    → (bs : List B) → All P bs
    → parse_all f (map g bs) ≡ ok bs
parse_all-All f g P k [] h = refl
parse_all-All f g P k (b ∷ bs) h = rw (k b h.0, parse_all-All f g P k bs h.1) refl

pub parse_all-IsId : (ids : List EntityId) → All IsId ids → parse_all parse_id ids ≡ ok ids
parse_all-IsId [] h = refl
parse_all-IsId (i ∷ ids) h = rw (parse_id-IsId i h.0, parse_all-IsId ids h.1) refl

pub decode_optional_id-IsOptionalId :
    (id : EntityId) → IsOptionalId id → decode_optional_id id ≡ ok id
unfolding decode_optional_id
decode_optional_id-IsOptionalId id (inl e) = rw e refl
decode_optional_id-IsOptionalId id (inr h) =
    ground (arith, eq_iff id "", IsId-nonempty id h, parse_id-IsId id h)

decode_bound-IsBound : (b : YearBound) → IsBound b → decode_bound b.known_year b.year ≡ b
unfolding decode_bound
decode_bound-IsBound b (inl e) = rw e refl
decode_bound-IsBound b (inr (y, e)) = rw e refl

-- The checks of NewTimeRange, once the calendar `k` is settled.
checked : YearBound → YearBound → Calendar → Bool → Result TimeRange
checked e l k circa =
    if not (is_known k)
    then err plain
    else if e.known_year && l.known_year && ltb_ℤ l.year e.year
    then err plain
    else ok (record { earliest = e; latest = l; calendar = k; circa = circa })

is_known-named : (k : Calendar) → is_known k ≡ true → k ≢ ""
unfolding is_known
is_known-named k h = λ e. let h' = subst (λ c. is_known c ≡ true) e h in absurd (ground arith)

checked-ok :
    (e l : YearBound) (k : Calendar) (circa : Bool) (r : TimeRange)
    → checked e l k circa ≡ ok r
    → (is_known r.calendar ≡ true)
      × (e ≡ r.earliest)
      × (l ≡ r.latest)
      × (checked r.earliest r.latest r.calendar r.circa ≡ ok r)
unfolding checked
checked-ok e l k circa r h = ground arith

named_calendar : (c : Calendar) → c ≢ "" → (if c == "" then gregorian_proleptic else c) ≡ c
named_calendar c n = elim (Bool-cases (c == "")) [
  | inl b ↦ absurd (n ((eq_iff c "").0 b))
  | inr b ↦ rw b refl
]

new_time_range-checked :
    (e l : YearBound) (c : Calendar) (circa : Bool)
    → c ≢ ""
    → new_time_range e l c circa ≡ checked e l c circa
unfolding new_time_range checked
new_time_range-checked e l c circa n = ap (λ k. checked e l k circa) (named_calendar c n)

-- A range that NewTimeRange made names its calendar, keeps its bounds, and is made again of its parts.
made_again :
    (e l : YearBound) (c : Calendar) (circa : Bool) (r : TimeRange)
    → new_time_range e l c circa ≡ ok r
    → (r.calendar ≢ "")
      × (e ≡ r.earliest)
      × (l ≡ r.latest)
      × (new_time_range r.earliest r.latest r.calendar r.circa ≡ ok r)
unfolding new_time_range checked
made_again e l c circa r h =
    let (known, same_e, same_l, again) =
      checked-ok e l (if c == "" then gregorian_proleptic else c) circa r h in
    let named = is_known-named r.calendar known in
    (
      named,
      same_e,
      same_l,
      new_time_range-checked r.earliest r.latest r.calendar r.circa named ∙ again,
    )

decode_some :
    (r : TimeRange)
    → IsBound r.earliest
    → IsBound r.latest
    → new_time_range r.earliest r.latest r.calendar r.circa ≡ ok r
    → decode_time_range (encode_time_range r) ≡ r
unfolding decode_time_range encode_time_range
decode_some r be bl h =
    rw (decode_time_range, decode_bound-IsBound r.earliest be, decode_bound-IsBound r.latest bl, h)
      refl

encode_some : (r : TimeRange) → r.calendar ≢ "" → encode_range r ≡ some (encode_time_range r)
unfolding encode_range is_zero
encode_some r h = ground (arith, eq_iff r.calendar "")

pub decode_range-encode_range : (r : TimeRange) → IsRange r → decode_range (encode_range r) ≡ r
unfolding decode_range
decode_range-encode_range r (inl e) = rw e (unfold encode_range is_zero in refl)
decode_range-encode_range r (inr (e, l, c, circa, be, bl, h)) =
    let (named, same_e, same_l, again) = made_again e l c circa r h in
    rw (encode_some r named)
      (decode_some r (subst IsBound same_e be) (subst IsBound same_l bl) again)

pub decode_continuity-encode_continuity :
    (c : Continuity) → IsContinuity c → decode_continuity (encode_continuity c) ≡ ok c
unfolding known_gap decode_continuity encode_continuity safe_uint8 continuity_in is_gapped
decode_continuity-encode_continuity c (inl e) = rw e refl
decode_continuity-encode_continuity c (inr (g, inl e, e')) = rw (e', e) refl
decode_continuity-encode_continuity c (inr (g, inr (n, h), e')) = rw e' (ground arith)
