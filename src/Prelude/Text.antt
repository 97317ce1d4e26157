-- ===== src/Prelude/Text.antt =====
-- Texts as lists of character codes, with the functions of Go's `strings` on ASCII.
use Prim.Native.Nat.{ℕ, ◌+◌, ◌-◌}
use Prim.Native.Char.{code}
use Prim.Native.String.{String}
use mathlib.Core.Path.{◌≡◌, refl}
use mathlib.Core.Bool.{Bool, true, false, ◌&&◌, ◌||◌}
use mathlib.Core.Option.{Option, none, some}
use mathlib.Core.List.{List, [], ◌∷◌, map}
use native.Mathlib.Omega.{arith}
use mutil_modbus.Prelude.Tests.{leb, ◌==◌, if◌then◌else◌}

abbrev pub Text : Type 0
Text = List ℕ

-- A literal.
abbrev pub text : String → Text
text String.[] = []
text (String.◌∷◌ c s) = code c ∷ text s

-- `s == t`
abbrev pub same : Text → Text → Bool
same [] [] = true
same [] (y ∷ t) = false
same (x ∷ s) [] = false
same (x ∷ s) (y ∷ t) = x == y && same s t

abbrev pub is_empty : Text → Bool
is_empty [] = true
is_empty (c ∷ s) = false

unfoldable pub lower_code : ℕ → ℕ
lower_code c = if leb 65 c && leb c 90 then c + 32 else c

unfoldable pub upper_code : ℕ → ℕ
upper_code c = if leb 97 c && leb c 122 then c - 32 else c

-- `strings.ToLower` and `strings.ToUpper`
unfoldable pub to_lower : Text → Text
to_lower s = map lower_code s

unfoldable pub to_upper : Text → Text
to_upper s = map upper_code s

abbrev pub is_space : ℕ → Bool
is_space c = (leb 9 c && leb c 13) || c == 32

unfoldable pub trim_left : Text → Text
trim_left [] = []
trim_left (c ∷ s) = let rest = trim_left s in if is_space c then rest else c ∷ s

unfoldable pub trim_right : Text → Text
trim_right [] = []
trim_right (c ∷ s) = elim (trim_right s) [
  | [] ↦ if is_space c then [] else c ∷ []
  | d ∷ t ↦ c ∷ d ∷ t
]

-- `strings.TrimSpace`
unfoldable pub trim_space : Text → Text
trim_space s = trim_right (trim_left s)

-- The first code of a text, and the last.
abbrev pub begins : ℕ → Text → Bool
begins d [] = false
begins d (c ∷ s) = c == d

unfoldable pub ends : ℕ → Text → Bool
ends d [] = false
ends d (c ∷ []) = c == d
ends d (c ∷ e ∷ s) = ends d (e ∷ s)

-- `strings.Trim(s, cutset)`, with the codes to drop as a test
unfoldable pub drop_left : (ℕ → Bool) → Text → Text
drop_left bad [] = []
drop_left bad (c ∷ s) = let rest = drop_left bad s in if bad c then rest else c ∷ s

unfoldable pub drop_right : (ℕ → Bool) → Text → Text
drop_right bad [] = []
drop_right bad (c ∷ s) = elim (drop_right bad s) [
  | [] ↦ if bad c then [] else c ∷ []
  | d ∷ t ↦ c ∷ d ∷ t
]

unfoldable pub trim_codes : (ℕ → Bool) → Text → Text
trim_codes bad s = drop_right bad (drop_left bad s)

-- `s[:i]` for the first place i of a code, or all of the text
unfoldable pub before : ℕ → Text → Text
before d [] = []
before d (c ∷ s) = let rest = before d s in if c == d then [] else c ∷ rest

-- `strings.SplitN(s, sep, 2)`, when it gives two parts
unfoldable pub split_at : ℕ → Text → Option (Text × Text)
split_at d [] = none
split_at d (c ∷ s) =
    let rest = split_at d s in
    if c == d
    then some ([], s)
    else elim rest [ none ↦ none | some (key, value) ↦ some (c ∷ key, value) ]

pub same_refl : (s : Text) → same s s ≡ true
same_refl [] = refl
same_refl (c ∷ s) = let e = same_refl s in ground arith

pub same_eq : (s t : Text) → same s t ≡ true → s ≡ t
same_eq [] [] h = refl
same_eq [] (y ∷ t) h = cc
same_eq (x ∷ s) [] h = cc
same_eq (x ∷ s) (y ∷ t) h =
    let head : x ≡ y = ground (arith, h) in
    let tail : same s t ≡ true = ground (arith, h) in cc (head, same_eq s t tail)
