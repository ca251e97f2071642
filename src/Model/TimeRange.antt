-- ===== src/Model/TimeRange.antt =====
-- model/timerange.go
use linea_core.Prelude.{
  String, Bool, true, false, not, ◌&&◌, ◌||◌, ◌==◌, nat_Eq, string_Eq, if◌then◌else◌,
}
use linea_core.Prelude.Int.{ℤ, pos, ltb_ℤ}
use linea_core.Errors.{Result, ok, err, plain}

abbrev pub Calendar : Type 0
Calendar = String

abbrev pub gregorian_proleptic : Calendar
gregorian_proleptic = "gregorian-proleptic"

abbrev pub julian : Calendar
julian = "julian"

abbrev pub hijri : Calendar
hijri = "hijri"

unfoldable pub is_known : Calendar → Bool
is_known c = c == gregorian_proleptic || c == julian || c == hijri || not (c == "")

pub record YearBound : Type 0 where
  pub known_year : Bool
  pub year : ℤ

abbrev pub unknown_year : YearBound
unknown_year = record { known_year = false; year = pos 0 }

abbrev pub known_year_bound : ℤ → YearBound
known_year_bound y = record { known_year = true; year = y }

pub record TimeRange : Type 0 where
  pub earliest : YearBound
  pub latest : YearBound
  pub calendar : Calendar
  pub circa : Bool

-- TimeRange{}
abbrev pub no_range : TimeRange
no_range = record { earliest = unknown_year; latest = unknown_year; calendar = ""; circa = false }

unfoldable pub new_time_range : YearBound → YearBound → Calendar → Bool → Result TimeRange
unfolding is_known
new_time_range earliest latest cal circa =
    let cal' = if cal == "" then gregorian_proleptic else cal in
    if not (is_known cal')
    then err plain
    else if earliest.known_year && latest.known_year && ltb_ℤ latest.year earliest.year
    then err plain
    else ok (record { earliest = earliest; latest = latest; calendar = cal'; circa = circa })

unfoldable pub is_zero : TimeRange → Bool
is_zero r = not r.earliest.known_year && not r.latest.known_year && r.calendar == "" && not r.circa
