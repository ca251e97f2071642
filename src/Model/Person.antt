-- ===== src/Model/Person.antt =====
-- model/person.go. A slice that a constructor or a getter copies is a value here.
use linea_core.Prelude.{
  String, Bool, true, false, not, ◌&&◌, List, [], ◌∷◌, Option, none, some, ◌==◌, nat_Eq, string_Eq,
  exists, if◌then◌else◌,
}
use linea_core.Prelude.Text.{trim_space}
use linea_core.Errors.{Result, ok, err, plain, annotated, ◌>>◌, refuse_if}
use linea_core.Model.Ids.{EntityId}
use linea_core.Model.Ids
use linea_core.Model.Gender.{Gender}
use linea_core.Model.Gender
use linea_core.Model.Name.{Name, no_name}
use linea_core.Model.TimeRange.{TimeRange, no_range, new_time_range}
use linea_core.Model.TimeRange

pub record Person : Type 0 where
  pub id : EntityId
  pub names : List Name
  pub gender : Gender
  pub birth : TimeRange
  pub death : TimeRange
  pub notes : String
  pub unknown : Bool

pub record PersonOptions : Type 0 where
  pub names : List Name
  pub gender : Gender
  pub birth : TimeRange
  pub death : TimeRange
  pub notes : String

is_empty : List Name → Bool
is_empty [] = true
is_empty (n ∷ ns) = false

blank_name : Name → Bool
blank_name n = trim_space n.text == ""

-- The check of `Birth` and of `Death`: a range that carries information must be a valid one.
check_range : TimeRange → Result (Unit {0})
check_range r =
    if TimeRange.is_zero r
    then ok tt
    else elim (new_time_range r.earliest r.latest r.calendar r.circa) [
      | ok _ ↦ ok tt
      | err e ↦ err (annotated e)
    ]

unfoldable pub new_person : EntityId → PersonOptions → Result Person
unfolding is_empty blank_name check_range Gender.is_core
new_person id opts = do
  refuse_if (Ids.is_zero id) plain
  refuse_if (is_empty opts.names) plain
  refuse_if (exists blank_name opts.names) plain
  refuse_if
      (not (opts.gender == Gender.unset)
        && not (Gender.is_core opts.gender)
        && trim_space opts.gender == "")
      plain
  check_range opts.birth
  check_range opts.death
  ok (record {
    id = id;
    names = opts.names;
    gender = opts.gender;
    birth = opts.birth;
    death = opts.death;
    notes = opts.notes;
    unknown = false;
  })

unfoldable pub new_unknown_ancestor : EntityId → Result Person
new_unknown_ancestor id = do
  refuse_if (Ids.is_zero id) plain
  ok (record {
    id = id;
    names = [];
    gender = Gender.unset;
    birth = no_range;
    death = no_range;
    notes = "";
    unknown = true;
  })

-- The loop of PreferredName.
first_preferred : List Name → Option Name
first_preferred [] = none
first_preferred (n ∷ ns) = if n.preferred then some n else first_preferred ns

head_name : List Name → Name
head_name [] = no_name
head_name (n ∷ ns) = n

unfoldable pub preferred_name : Person → Name
unfolding first_preferred head_name
preferred_name p = elim (first_preferred p.names) [ some n ↦ n | none ↦ head_name p.names ]
