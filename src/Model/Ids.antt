-- ===== src/Model/Ids.antt =====
-- model/id.go. Random ids come from the package uuid, outside the repository: the code that draws
-- one takes it as an argument.
use linea_core.Prelude.{String, Bool, ◌==◌, nat_Eq, string_Eq, if◌then◌else◌}
use linea_core.Prelude.Text.{trim_space}
use linea_core.Errors.{Result, ok, err, plain}

abbrev pub EntityId : Type 0
EntityId = String

abbrev pub is_zero : EntityId → Bool
is_zero i = i == ""

unfoldable pub parse_id : String → Result EntityId
parse_id s = let t = trim_space s in if t == "" then err plain else ok t
