-- ===== src/Simulator/Load/Rows.antt =====
-- The recorded rows against the records of the file (loadCSV of cmd/server/main.go).
use mutil_modbus.Prelude.{
  ℕ, ◌⊎◌, ◌≡◌, refl, sym, ap, ◌∙◌, Bool, true, false, ◌&&◌, not, List, [], ◌∷◌, ◌≤◌, Option, none,
  some, Option-cases, Bool-cases, inl, inr, if◌then◌else◌, length, ◌==◌, arith,
}
use mutil_modbus.Prelude.Text.{Text, same, same_eq, is_empty, trim_space}
use mutil_modbus.Go.{Outcome, Outcome-bind, Outcome-imp}
use mutil_modbus.Collector.Dedup.{lookup, delete}
use mutil_modbus.Simulator.Replay.{Row}
use mutil_modbus.Simulator.Load.{load_fields, load_rows, load_csv}

abbrev pub or_else : {A : Type 0} → Option A → Option A → Option A
or_else (some a) other = some a
or_else none other = other

module _ {F : Type 0} where
  lookup-delete :
      (row : Row F) (k key : Text) → same k key ≡ false → lookup (delete row k) key ≡ lookup row key
  lookup-delete [] k key h = refl
  lookup-delete ((j, a) ∷ row) k key h = elim (Bool-cases (same j k)) [
    | inl e ↦
        let other : same j key ≡ false = rw (sym (same_eq j k e)) at h in
        rw (e, other) (lookup-delete row k key h)
    | inr e ↦ elim (Bool-cases (same j key)) [
      | inl d ↦ rw (e, d) refl
      | inr d ↦ rw (e, d) (lookup-delete row k key h)
    ]
  ]

  lookup_stored :
      (row : Row F) (k key : Text) (v : F)
      → lookup ((k, v) ∷ delete row k) key
        ≡ or_else (if same k key then some v else none) (lookup row key)
  lookup_stored row k key v = elim (Bool-cases (same k key)) [
    | inl e ↦ rw e refl
    | inr e ↦ rw e (lookup-delete row k key e)
  ]

module _ {F : Type 0} (parse_float : Text → Option F) where
  -- What a record says for a name: the number in the last column with this name.
  abbrev pub column : List Text → List Text → Text → Option F
  column [] fields key = none
  column (name ∷ names) [] key = none
  column (name ∷ names) (field ∷ fields) key =
      or_else (column names fields key)
        (if same name key then parse_float (trim_space field) else none)

  abbrev pub is_number : Text → Bool
  is_number field =
      not (is_empty (trim_space field))
      && (elim (parse_float (trim_space field)) [ none ↦ false | some v ↦ true ])

  abbrev pub are_numbers : List Text → Bool
  are_numbers [] = true
  are_numbers (field ∷ fields) = is_number field && are_numbers fields

  abbrev pub are_records : ℕ → List (List Text) → Bool
  are_records columns [] = true
  are_records columns (rec ∷ recs) =
      (length rec == columns) && (are_numbers rec && are_records columns recs)

  -- Row by row and record by record, in order.
  abbrev pub AreRows : List Text → List (Row F) → List (List Text) → Type 0
  AreRows header [] [] = Unit
  AreRows header (row ∷ rows) (rec ∷ recs) =
      ((key : Text) → lookup row key ≡ column header rec key) × AreRows header rows recs
  AreRows header [] (rec ∷ recs) = ⊥
  AreRows header (row ∷ rows) [] = ⊥

  or_else_assoc : (a b c : Option F) → or_else (or_else a b) c ≡ or_else a (or_else b c)
  or_else_assoc (some a) b c = refl
  or_else_assoc none b c = refl

  or_else-none : (a : Option F) → or_else a none ≡ a
  or_else-none (some a) = refl
  or_else-none none = refl

  -- A row that was read behind another one.
  abbrev Read : List Text → List Text → Row F → Row F → Type 0
  Read header fields row r =
      (are_numbers fields ≡ true)
      × ((key : Text) → lookup r key ≡ or_else (column header fields key) (lookup row key))

  load_fields-Outcome :
      (header fields : List Text) (row : Row F)
      → length fields ≡ length header
      → Outcome
          (Read header fields row)
          (λ e. are_numbers fields ≡ false)
          (load_fields parse_float header fields row)
  unfolding load_fields
  load_fields-Outcome [] [] row h = (refl, λ key. refl)
  load_fields-Outcome [] (f ∷ fs) row h = absurd (omega arith)
  load_fields-Outcome (key ∷ keys) [] row h = absurd (omega arith)
  load_fields-Outcome (name ∷ names) (field ∷ fields) row h =
      elim (Bool-cases (is_empty (trim_space field))) [
        | inl e ↦ rw (e, load_fields) refl
        | inr e ↦ elim (Option-cases (parse_float (trim_space field))) [
          | inl p ↦ rw (e, p, load_fields) refl
          | inr (v, p) ↦
              rw (e, p, load_fields)
                (Outcome-imp (Read names fields ((name, v) ∷ delete row name)) _
                  (λ _. are_numbers fields ≡ false) _
                  (load_fields parse_float names fields ((name, v) ∷ delete row name))
                  (λ r k. (
                    rw (e, p) k.0,
                    λ key.
                        k.1 key
                        ∙ ap (λ o. or_else (column names fields key) o)
                            (lookup_stored row name key v)
                        ∙ rw p (sym (or_else_assoc (column names fields key) _ (lookup row key))),
                  ))
                  (λ _ k. k)
                  (load_fields-Outcome names fields ((name, v) ∷ delete row name) (omega arith)))
        ]
      ]

  load_rows-Outcome :
      (header : List Text) (recs : List (List Text))
      → Outcome
          (λ rows. (are_records (length header) recs ≡ true) × AreRows header rows recs)
          (λ e. are_records (length header) recs ≡ false)
          (load_rows parse_float header recs)
  unfolding load_rows
  load_rows-Outcome header [] = (refl, tt)
  load_rows-Outcome header (rec ∷ recs) = elim (Bool-cases (length rec == length header)) [
    | inr e ↦ rw (e, load_rows) refl
    | inl e ↦
        rw (e, load_rows)
          (Outcome-bind (Read header rec []) _ _ (load_fields parse_float header rec []) _
            (Outcome-imp (Read header rec []) (Read header rec []) (λ _. are_numbers rec ≡ false) _
              (load_fields parse_float header rec []) (λ r k. k) (λ _ k. rw k refl)
              (load_fields-Outcome header rec [] (ground arith)))
            (λ r k.
              Outcome-bind
                (λ rows. (are_records (length header) recs ≡ true) × AreRows header rows recs) _ _
                (load_rows parse_float header recs) _
                (Outcome-imp
                  (λ rows. (are_records (length header) recs ≡ true) × AreRows header rows recs)
                  (λ rows. (are_records (length header) recs ≡ true) × AreRows header rows recs)
                  (λ _. are_records (length header) recs ≡ false) _
                  (load_rows parse_float header recs) (λ rows d. d) (λ _ d. rw (k.0, d) refl)
                  (load_rows-Outcome header recs))
                (λ rows d. (
                  rw (k.0, d.0) refl,
                  (λ key. k.1 key ∙ or_else-none (column header rec key), d.1),
                ))))
  ]

  -- Reading the recorded rows ends without a panic for any records. It succeeds just when there is a
  -- record behind the header and each has one field for each column, a number but for blanks around
  -- it; then there is one row for each record, in order, and looking a name up in it gives the number
  -- of the last column with this name, and nothing for a name that no column has.
  pub load_csv-rows :
      (header : List Text) (recs : List (List Text))
      → Outcome
          (λ rows.
            (1 ≤ length recs)
            × (are_records (length header) recs ≡ true)
            × AreRows header rows recs)
          (λ e. (recs ≡ []) ⊎ (are_records (length header) recs ≡ false))
          (load_csv parse_float (header ∷ recs))
  unfolding load_csv
  load_csv-rows header [] = inl refl
  load_csv-rows header (rec ∷ recs) =
      Outcome-imp
        (λ rows.
          (are_records (length header) (rec ∷ recs) ≡ true) × AreRows header rows (rec ∷ recs))
        _ (λ _. are_records (length header) (rec ∷ recs) ≡ false) _
        (load_rows parse_float header (rec ∷ recs)) (λ rows h. (omega arith, h.0, h.1))
        (λ _ h. inr h) (load_rows-Outcome header (rec ∷ recs))
