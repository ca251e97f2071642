-- ===== src/Store/Badger/Fields.antt =====
-- store/badger/codec.go: the parts of entities to and from their wire types.
pub mod Laws
use linea_core.Prelude.{
  ℕ, String, Bool, false, not, List, [], ◌∷◌, ◌++◌, map, Option, none, some, ◌==◌, nat_Eq,
  string_Eq, ltb, if◌then◌else◌,
}
use linea_core.Prelude.Int.{ℤ, pos, negsuc, int_Eq}
use linea_core.Errors.{Result, ok, err, plain, annotated, ◌>>=◌, ◌>>◌, refuse_if}
use linea_core.Model.Ids.{EntityId, parse_id}
use linea_core.Model.Name.{Name, new_name}
use linea_core.Model.TimeRange.{
  TimeRange, YearBound, unknown_year, known_year_bound, no_range, new_time_range, is_zero,
}
use linea_core.Model.Person.{Person, new_person, new_unknown_ancestor}
use linea_core.Model.Continuity.{
  Continuity, GapGenerations, continuous, gapped, unknown_gap, known_gap, new_continuous,
  new_gapped, is_gapped,
}
use linea_core.Model.Relationship.{Relationship, new_relationship}
use linea_core.Model.Source.{Source, new_source}
use linea_core.Model.Proposal.{Proposal, ProposalTransition, new_proposal, with_state}
use linea_core.Store.Badger.Wire.{
  NameWire, TimeRangeWire, PersonWire, ContinuityWire, RelationshipWire, SourceWire,
  ProposalTransWire, ProposalWire, Json,
}

-- fmt.Errorf("…: %w", err)
abbrev pub annotate {ℓ} : {A : Type ℓ} → Result A → Result A
annotate (ok a) = ok a
annotate (err e) = err (annotated e)

-- A loop that parses one element after the other and leaves at the first error.
abbrev pub parse_all : {A B : Type 0} → (A → Result B) → List A → Result (List B)
parse_all f [] = ok []
parse_all f (x ∷ xs) = do y ← f x; ys ← parse_all f xs; ok (y ∷ ys)

unfoldable pub encode_time_range : TimeRange → TimeRangeWire
encode_time_range tr = record {
  earliest_known = tr.earliest.known_year;
  earliest = tr.earliest.year;
  latest_known = tr.latest.known_year;
  latest = tr.latest.year;
  calendar = tr.calendar;
  circa = tr.circa;
}

unfoldable pub decode_bound : Bool → ℤ → YearBound
decode_bound known year = if known then known_year_bound year else unknown_year

-- The error of NewTimeRange is dropped, and beside it comes the zero value.
unfoldable pub decode_time_range : TimeRangeWire → TimeRange
unfolding decode_bound
decode_time_range w =
    elim (new_time_range (decode_bound w.earliest_known w.earliest)
      (decode_bound w.latest_known w.latest) w.calendar w.circa) [ ok tr ↦ tr | err _ ↦ no_range ]

-- if !tr.IsZero() { w = encodeTimeRange(tr) }
unfoldable pub encode_range : TimeRange → Option TimeRangeWire
unfolding encode_time_range
encode_range tr = if not (is_zero tr) then some (encode_time_range tr) else none

-- if w != nil { tr = decodeTimeRange(w) }
unfoldable pub decode_range : Option TimeRangeWire → TimeRange
unfolding decode_time_range
decode_range none = no_range
decode_range (some w) = decode_time_range w

unfoldable pub encode_name : Name → NameWire
encode_name n = record {
  text = n.text;
  language = n.language;
  script = n.script;
  type = n.type;
  preferred = n.preferred;
}

unfoldable pub decode_name : NameWire → Result Name
decode_name w = annotate (new_name w.text w.language w.script w.type w.preferred)

unfoldable pub safe_uint8 : ℤ → Result ℕ
safe_uint8 (negsuc n) = err plain
safe_uint8 (pos n) = if ltb 255 n then err plain else ok n

unfoldable pub encode_transition : ProposalTransition → ProposalTransWire
encode_transition h = record {
  from = pos h.from;
  to = pos h.to;
  actor = h.actor;
  timestamp = h.timestamp;
  reason = h.reason;
}

-- An id that may be absent.
unfoldable pub decode_optional_id : String → Result EntityId
decode_optional_id s = if not (s == "") then parse_id s else ok ""

unfoldable pub read_transition : ProposalTransWire → Result ProposalTransition
read_transition h = do
  from ← annotate (safe_uint8 h.from)
  to ← annotate (safe_uint8 h.to)
  ok (record { from = from; to = to; actor = h.actor; timestamp = h.timestamp; reason = h.reason })

-- The loop that replays the history.
unfoldable pub replay : Proposal → List ProposalTransWire → Result Proposal
replay p [] = ok p
replay p (h ∷ hs) = do tr ← read_transition h; replay (with_state p tr.to tr) hs

-- The state on disk wins over the replayed one.
unfoldable pub force_state : Proposal → ℤ → Result Proposal
force_state p state =
    if not (pos p.state == state)
    then (do
      s ← annotate (safe_uint8 state)
      ok (
          with_state p s
            (record { from = p.state; to = s; actor = ""; timestamp = pos 0; reason = "" })))
    else ok p

unfoldable pub encode_continuity : Continuity → ContinuityWire
encode_continuity c =
    if is_gapped c
    then record { state = pos c.state; gap_known = c.gap.known_size; gap_size = c.gap.size }
    else record { state = pos c.state; gap_known = false; gap_size = pos 0 }

-- The switch on the state.
unfoldable pub continuity_in : ContinuityWire → ℕ → Result Continuity
continuity_in w state =
    if state == continuous
    then ok new_continuous
    else if state == gapped
    then (do
      gap ← (if w.gap_known then annotate (known_gap w.gap_size) else ok unknown_gap)
      ok (new_gapped gap))
    else err plain

unfoldable pub decode_continuity : ContinuityWire → Result Continuity
unfolding continuity_in
decode_continuity w = do state ← annotate (safe_uint8 w.state); continuity_in w state
