-- ===== src/Model/Certainty.antt =====
-- model/certainty.go. A certainty is a uint8, of which three values are valid.
pub mod Weakest
use linea_core.Prelude.{
  ℕ, Bool, ◌||◌, List, [], ◌∷◌, Option, none, some, ltb, ◌==◌, nat_Eq, string_Eq, foldl,
  if◌then◌else◌,
}

abbrev pub Certainty : Type 0
Certainty = ℕ

abbrev pub uncertain : Certainty
uncertain = 1

abbrev pub probable : Certainty
probable = 2

abbrev pub certain : Certainty
certain = 3

abbrev pub rank : Certainty → ℕ
rank c = c

unfoldable pub is_valid : Certainty → Bool
is_valid c = c == uncertain || c == probable || c == certain

-- c.Min(other)
unfoldable pub min_certainty : Certainty → Certainty → Certainty
min_certainty c other = if ltb (rank other) (rank c) then other else c

-- `none` is the panic on an empty slice.
unfoldable pub combine_certainties : List Certainty → Option Certainty
unfolding min_certainty
combine_certainties [] = none
combine_certainties (c ∷ cs) = some (foldl min_certainty c cs)
