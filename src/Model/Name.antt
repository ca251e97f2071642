-- ===== src/Model/Name.antt =====
-- model/name.go
use linea_core.Prelude.{String, Bool, false, ◌==◌, nat_Eq, string_Eq, if◌then◌else◌}
use linea_core.Prelude.Text.{trim_space}
use linea_core.Errors.{Result, ok, err, plain}

abbrev pub NameType : Type 0
NameType = String

abbrev pub full : NameType
full = "full"

pub record Name : Type 0 where
  pub text : String
  pub language : String
  pub script : String
  pub type : NameType
  pub preferred : Bool

abbrev pub no_name : Name
no_name = record { text = ""; language = ""; script = ""; type = ""; preferred = false }

unfoldable pub new_name : String → String → String → NameType → Bool → Result Name
new_name text language script t preferred =
    let tt = trim_space text in
    if tt == ""
    then err plain
    else ok (record {
      text = tt;
      language = trim_space language;
      script = trim_space script;
      type = if t == "" then full else t;
      preferred = preferred;
    })
