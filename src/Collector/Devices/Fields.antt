-- ===== src/Collector/Devices/Fields.antt =====
-- What a row says under a name of the header (the closure trim of loadDevicesFromCSV in
-- internal/collector/config.go).
use mathlib.Core.Path.{fun_ext}
use mutil_modbus.Prelude.{
  ℕ, zero, suc, ◌+◌, ◌≡◌, ◌⊎◌, refl, ap, ◌∙◌, arith, List, [], ◌∷◌, Option, none, some, drop,
  get_elem?, if◌then◌else◌, Bool-cases, inl, inr,
}
use mutil_modbus.Prelude.Text.{Text, same, to_lower, trim_space}
use mutil_modbus.Collector.Devices.{column_of, trim}

-- What a row says in the last column of a name, which is compared without blanks and case; a row that
-- is too short says nothing there.
abbrev pub first_field : List Text → Text
first_field [] = []
first_field (field ∷ fields) = trim_space field

abbrev pub behind : List Text → List Text
behind [] = []
behind (field ∷ fields) = fields

abbrev pub field_at : List Text → List Text → Text → Option Text
field_at [] rec key = none
field_at (col ∷ cols) rec key = elim (field_at cols (behind rec) key) [
  | some t ↦ some t
  | none ↦ if same (to_lower (trim_space col)) key then some (first_field rec) else none
]

abbrev pub field_of : List Text → List Text → Text → Text
field_of header rec key = elim (field_at header rec key) [ none ↦ [] | some t ↦ t ]

abbrev text_at : List Text → ℕ → Text
text_at rec i = elim (get_elem? rec i) [ none ↦ [] | some field ↦ trim_space field ]

first_field-drop : (rec : List Text) (i : ℕ) → first_field (drop i rec) ≡ text_at rec i
first_field-drop [] zero = refl
first_field-drop [] (suc i) = refl
first_field-drop (f ∷ rec) zero = refl
first_field-drop (f ∷ rec) (suc i) = first_field-drop rec i

behind-drop : (rec : List Text) (i : ℕ) → behind (drop i rec) ≡ drop (suc i) rec
behind-drop [] zero = refl
behind-drop [] (suc i) = refl
behind-drop (f ∷ rec) zero = refl
behind-drop (f ∷ rec) (suc i) = behind-drop rec i

behind_next : (rec : List Text) (i : ℕ) → behind (drop i rec) ≡ drop (i + 1) rec
behind_next rec i =
    let e : suc i ≡ i + 1 = omega arith in behind-drop rec i ∙ ap (λ n. drop n rec) e

drop_zero : (rec : List Text) → drop 0 rec ≡ rec
drop_zero [] = refl
drop_zero (f ∷ rec) = refl

column_of-field_at :
    (cols rec : List Text) (i : ℕ) (key : Text)
    → ((column_of cols i key ≡ none) × (field_at cols (drop i rec) key ≡ none))
      ⊎ ((j : ℕ) × (column_of cols i key ≡ some j)
          × (field_at cols (drop i rec) key ≡ some (text_at rec j)))
unfolding column_of
column_of-field_at [] rec i key = inl (refl, refl)
column_of-field_at (col ∷ cols) rec i key = elim (column_of-field_at cols rec (i + 1) key) [
  | inr (j, c, f) ↦ inr (j, rw (c, column_of) refl, rw (behind_next rec i, f) refl)
  | inl (c, f) ↦ elim (Bool-cases (same (to_lower (trim_space col)) key)) [
    | inl e ↦
        inr
          (i, rw (c, e, column_of) refl, rw (behind_next rec i, f, e, first_field-drop rec i) refl)
    | inr e ↦ inl (rw (c, e, column_of) refl, rw (behind_next rec i, f, e) refl)
  ]
]

trim_field : (header rec : List Text) (key : Text) → trim header rec key ≡ field_of header rec key
unfolding trim
trim_field header rec key = elim (column_of-field_at header rec 0 key) [
  | inl (c, f) ↦
      let f' : field_at header rec key ≡ none = rw (drop_zero rec) at f in
      rw (c, f', trim, field_of) refl
  | inr (j, c, f) ↦
      let f' : field_at header rec key ≡ some (text_at rec j) = rw (drop_zero rec) at f in
      rw (c, f', trim, field_of) refl
]

pub trim-field_of : (header rec : List Text) → trim header rec ≡ field_of header rec
trim-field_of header rec = fun_ext λ key. trim_field header rec key
