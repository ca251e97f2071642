-- ===== src/Model/Continuity.antt =====
-- model/continuity.go
use linea_core.Prelude.{
  ℕ, Bool, true, false, not, ◌&&◌, ◌||◌, ◌==◌, nat_Eq, string_Eq, if◌then◌else◌,
}
use linea_core.Prelude.Int.{ℤ, pos, ltb_ℤ}
use linea_core.Errors.{Result, ok, err, plain}

-- A uint8.
abbrev pub ContinuityState : Type 0
ContinuityState = ℕ

abbrev pub continuous : ContinuityState
continuous = 1

abbrev pub gapped : ContinuityState
gapped = 2

unfoldable pub is_valid_state : ContinuityState → Bool
is_valid_state s = s == continuous || s == gapped

pub record GapGenerations : Type 0 where
  pub known_size : Bool
  pub size : ℤ

abbrev pub unknown_gap : GapGenerations
unknown_gap = record { known_size = false; size = pos 0 }

unfoldable pub known_gap : ℤ → Result GapGenerations
known_gap size =
    if ltb_ℤ size (pos 1) then err plain else ok (record { known_size = true; size = size })

pub record Continuity : Type 0 where
  pub state : ContinuityState
  pub gap : GapGenerations

abbrev pub new_continuous : Continuity
new_continuous = record { state = continuous; gap = unknown_gap }

abbrev pub new_gapped : GapGenerations → Continuity
new_gapped gap = record { state = gapped; gap = gap }

unfoldable pub is_valid : Continuity → Bool
unfolding is_valid_state
is_valid c =
    if not (is_valid_state c.state)
    then false
    else if c.state == gapped && c.gap.known_size && ltb_ℤ c.gap.size (pos 1)
    then false
    else true

unfoldable pub is_gapped : Continuity → Bool
is_gapped c = c.state == gapped
