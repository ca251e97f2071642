-- ===== src/Model/Gender.antt =====
-- model/gender.go. strings.ToLower, over all of Unicode, is a parameter.
use linea_core.Prelude.{String, Bool, ◌==◌, nat_Eq, string_Eq, ◌||◌, if◌then◌else◌}
use linea_core.Prelude.Text.{trim_space}
use linea_core.Errors.{Result, ok, err, plain}

abbrev pub Gender : Type 0
Gender = String

abbrev pub male : Gender
male = "male"

abbrev pub female : Gender
female = "female"

-- Recorded as unknown.
abbrev pub unknown : Gender
unknown = "unknown"

-- Not recorded.
abbrev pub unset : Gender
unset = ""

unfoldable pub is_core : Gender → Bool
is_core g = g == male || g == female || g == unknown

unfoldable pub is_unset : Gender → Bool
is_unset g = g == unset

unfoldable pub parse_gender : (to_lower : String → String) → String → Bool → Result Gender
unfolding is_core
parse_gender to_lower s allow_extension =
    let t = to_lower (trim_space s) in
    if t == ""
    then ok unset
    else if is_core t
    then ok t
    else if allow_extension
    then ok t
    else err plain
