-- ===== src/Prelude/Text.antt =====
-- Go's texts as native strings, and the part of package `strings` that the program calls.
use Prim.Native.Nat.{ℕ}
use Prim.Native.Char.{code}
use Prim.Native.String.{String}
use mathlib.Core.Path.{◌≡◌, refl}
use mathlib.Core.Bool.{Bool, true, not, ◌&&◌, ◌||◌}
use mathlib.Core.Logic.{inl, inr}
use linea_core.Prelude.Tests.{leb, nat_eq, ◌==◌, string_Eq, if◌then◌else◌, Bool-cases}

-- unicode.IsSpace: the code points with the property White_Space.
pub is_space : ℕ → Bool
is_space c =
    (leb 9 c && leb c 13)
    || nat_eq c 32
    || nat_eq c 0x85
    || nat_eq c 0xa0
    || nat_eq c 0x1680
    || (leb 0x2000 c && leb c 0x200a)
    || nat_eq c 0x2028
    || nat_eq c 0x2029
    || nat_eq c 0x202f
    || nat_eq c 0x205f
    || nat_eq c 0x3000

pub trim_left : String → String
trim_left String.[] = String.[]
trim_left (String.◌∷◌ c s) =
    let rest = trim_left s in if is_space (code c) then rest else String.◌∷◌ c s

pub trim_right : String → String
trim_right String.[] = String.[]
trim_right (String.◌∷◌ c s) =
    let rest = trim_right s in if is_space (code c) && rest == "" then rest else String.◌∷◌ c rest

-- strings.TrimSpace
unfoldable pub trim_space : String → String
unfolding trim_left trim_right is_space
trim_space s = trim_right (trim_left s)

trim_right-trim_right : (s : String) → trim_right (trim_right s) ≡ trim_right s
unfolding trim_right
trim_right-trim_right String.[] = refl
trim_right-trim_right (String.◌∷◌ c s) =
    elim (Bool-cases (is_space (code c) && trim_right s == "")) [
      | inl h ↦ rw h (trim_right-trim_right s)
      | inr h ↦ rw h (rw (trim_right-trim_right s) (rw h))
    ]

-- What remains of a text that begins with no space begins with none.
starts_dark : String → Bool
starts_dark String.[] = true
starts_dark (String.◌∷◌ c s) = not (is_space (code c))

starts_dark-trim_left : (s : String) → starts_dark (trim_left s) ≡ true
unfolding starts_dark trim_left
starts_dark-trim_left String.[] = refl
starts_dark-trim_left (String.◌∷◌ c s) = elim (Bool-cases (is_space (code c))) [
  | inl h ↦ rw h (starts_dark-trim_left s)
  | inr h ↦ rw h (rw h)
]

trim_left-trim_right : (s : String) → starts_dark s ≡ true → trim_left (trim_right s) ≡ trim_right s
unfolding starts_dark trim_left trim_right
trim_left-trim_right String.[] h = refl
trim_left-trim_right (String.◌∷◌ c s) h = elim (Bool-cases (is_space (code c))) [
  | inl e ↦ cc
  | inr e ↦ rw e (rw e)
]

pub trim_space-trim_space : (s : String) → trim_space (trim_space s) ≡ trim_space s
unfolding trim_space
trim_space-trim_space s =
    rw (trim_left-trim_right (trim_left s) (starts_dark-trim_left s))
      (trim_right-trim_right (trim_left s))
