-- ===== src/Governance/Build.antt =====
-- applyCreate of governance/apply.go: from a payload to the entity that it describes. `fresh` stands
-- for the id that package uuid would draw.
use linea_core.Prelude.{
  Bool, true, false, not, ◌||◌, List, [], ◌∷◌, Option, none, some, ◌==◌, nat_Eq, string_Eq,
  if◌then◌else◌,
}
use linea_core.Errors.{
  Result, ok, err, new, wrap, plain, invalid_argument, fabrication_attempt, ◌>>◌, refuse_if,
}
use linea_core.Model.Ids.{EntityId, is_zero}
use linea_core.Model.Name.{Name}
use linea_core.Model.Gender
use linea_core.Model.TimeRange
use linea_core.Model.Person.{Person, new_person, new_unknown_ancestor}
use linea_core.Model.Relationship.{Relationship, new_relationship}
use linea_core.Model.Source.{Source, new_source}
use linea_core.Governance.Payload.{
  PayloadCreatePerson, PayloadCreateRelationship, PayloadCreateSource,
}

-- The error of a payload that json.Unmarshal refuses.
unfoldable pub unmarshalled : {A : Type 0} → Option A → Result A
unmarshalled none = err (wrap invalid_argument plain)
unmarshalled (some a) = ok a

unfoldable pub choose_id : EntityId → EntityId → EntityId
choose_id fresh id = if is_zero id then fresh else id

unfoldable pub some_name : List Name → Bool
some_name [] = false
some_name (n ∷ ns) = true

-- What an unknown-ancestor payload may not carry.
unfoldable pub is_substantive : PayloadCreatePerson → Bool
unfolding some_name TimeRange.is_zero
is_substantive pl =
    some_name pl.names
    || not (pl.gender == Gender.unset)
    || not (TimeRange.is_zero pl.birth)
    || not (TimeRange.is_zero pl.death)
    || not (pl.notes == "")

-- The person that the payload describes.
unfoldable pub build_person : EntityId → PayloadCreatePerson → Result Person
build_person fresh pl =
    if pl.unknown_ancestor
    then (do
      refuse_if (is_substantive pl) (new fabrication_attempt)
      new_unknown_ancestor (choose_id fresh pl.new_id))
    else new_person (choose_id fresh pl.new_id) (record {
      names = pl.names;
      gender = pl.gender;
      birth = pl.birth;
      death = pl.death;
      notes = pl.notes;
    })

unfoldable pub build_relationship : EntityId → PayloadCreateRelationship → Result Relationship
build_relationship fresh pl =
    new_relationship (choose_id fresh pl.new_id) pl.from pl.to pl.type pl.certainty pl.continuity
      (record { time_range = pl.time_range; notes = pl.notes; sources = pl.sources })

unfoldable pub build_source : EntityId → PayloadCreateSource → Result Source
build_source fresh pl = new_source (choose_id fresh pl.new_id) pl.type pl.citation (record {
  author = pl.author;
  title = pl.title;
  date = pl.date;
  locator = pl.locator;
  notes = pl.notes;
})
