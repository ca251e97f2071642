-- ===== src/Model/Source.antt =====
-- model/source.go
use linea_core.Prelude.{String, Bool, not, ◌&&◌, ◌||◌, ◌==◌, nat_Eq, string_Eq, if◌then◌else◌}
use linea_core.Prelude.Text.{trim_space}
use linea_core.Errors.{Result, ok, plain, ◌>>◌, refuse_if}
use linea_core.Model.Ids.{EntityId, is_zero}

abbrev pub SourceType : Type 0
SourceType = String

abbrev pub other : SourceType
other = "other"

unfoldable pub is_core : SourceType → Bool
is_core t = t == "primary" || t == "secondary" || t == "oral" || t == "derived" || t == other

pub record Source : Type 0 where
  pub id : EntityId
  pub src_type : SourceType
  pub citation : String
  pub author : String
  pub title : String
  pub date : String
  pub locator : String
  pub notes : String

pub record SourceOptions : Type 0 where
  pub author : String
  pub title : String
  pub date : String
  pub locator : String
  pub notes : String

unfoldable pub new_source : EntityId → SourceType → String → SourceOptions → Result Source
unfolding is_core
new_source id t citation opts = do
  refuse_if (is_zero id) plain
  refuse_if (trim_space citation == "") plain
  let t' = if t == "" then other else t
  refuse_if (not (is_core t') && trim_space t' == "") plain
  ok (record {
    id = id;
    src_type = t';
    citation = citation;
    author = opts.author;
    title = opts.title;
    date = opts.date;
    locator = opts.locator;
    notes = opts.notes;
  })
