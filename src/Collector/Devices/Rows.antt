-- ===== src/Collector/Devices/Rows.antt =====
-- The points of each device against the rows of the file (loadDevicesFromCSV of
-- internal/collector/config.go).
use mutil_modbus.Prelude.{
  ◌≡◌, refl, sym, ap, subst, ◌∙◌, true, List, [], ◌∷◌, ◌++◌, length, ◌==◌, Bool-cases, inl, inr,
  append_assoc, append-nil,
}
use mutil_modbus.Prelude.Text.{Text, text, same, is_empty}
use mutil_modbus.Go.{Go, ok, fail, panic, Ensures, Ensures-bind, Ensures-imp}
use mutil_modbus.Collector.Point.{Point}
use mutil_modbus.Collector.Devices.{
  Error, Device, Parsers, is_known, append_point, with_device, add_row, add_rows, check_points,
  load_devices, empty_header, no_device_id,
}
use mutil_modbus.Collector.Devices.Laws.{
  Empty, Filled, is_known-append, new_device-Empty, fail_if-Ensures, require-Ensures,
  load_devices-Filled,
}
use mutil_modbus.Collector.Devices.Fields.{field_of, trim-field_of}
use mutil_modbus.Collector.Devices.Points.{
  points_under, rows_under, IsPoint, ArePoints, ArePoints-append, new_point-IsPoint,
  rows_under-append, points_under-append, points_under-append_point,
}

module _ {F : Type 0} (parsers : Parsers F) (header : List Text) where
  -- The devices hold the points of the rows that were read.
  abbrev pub Holds : List (List Text) → List (Device F) → Type 0
  Holds recs ds =
      (id : Text) → ArePoints parsers header (points_under ds id) (rows_under header recs id)

  -- The devices with one for the row's id.
  abbrev Prepared : List (Device F) → Text → List (Device F) → Type 0
  Prepared ds id es = (is_known es id ≡ true) × ((j : Text) → points_under es j ≡ points_under ds j)

  with_device-Prepared :
      (ds : List (Device F)) (field : Text → Text) (id : Text)
      → Ensures (Prepared ds id) (with_device parsers ds field id)
  unfolding with_device
  with_device-Prepared ds field id = elim (Bool-cases (is_known ds id)) [
    | inl known ↦ rw known (known, λ j. refl)
    | inr new ↦ rw new (
        Ensures-bind (Empty id) (Prepared ds id) _ _ (new_device-Empty parsers field id) (λ d h. (
          ap (is_known (ds ++ (d ∷ []))) (sym h.1) ∙ is_known-append ds d,
          λ j. points_under-append ds d j h.0,
        )))
  ]

  append_point-Holds :
      (recs : List (List Text)) (ds es : List (Device F)) (rec : List Text) (p : Point F)
      → Holds recs ds
      → Prepared ds (field_of header rec (text "device_id")) es
      → IsPoint parsers (field_of header rec) p
      → Holds (recs ++ (rec ∷ [])) (append_point es (field_of header rec (text "device_id")) p)
  append_point-Holds recs ds es rec p h k point j =
      let id = field_of header rec (text "device_id") in
      elim (Bool-cases (same id j)) [
        | inl e ↦
            rw
              (
                points_under-append_point es id p j k.0,
                rows_under-append parsers header recs rec j,
                e,
                k.1 j,
              )
              (ArePoints-append parsers header (points_under ds j) (rows_under header recs j) p rec
                (h j) point)
        | inr e ↦
            rw
              (
                points_under-append_point es id p j k.0,
                rows_under-append parsers header recs rec j,
                e,
                k.1 j,
                append-nil (rows_under header recs j),
              )
              (h j)
      ]

  add_row-Holds :
      (recs : List (List Text)) (ds : List (Device F)) (rec : List Text)
      → Holds recs ds
      → Ensures (Holds (recs ++ (rec ∷ []))) (add_row parsers ds (field_of header rec))
  unfolding add_row
  add_row-Holds recs ds rec h =
      let id = field_of header rec (text "device_id") in
      Ensures-bind (λ _. Unit {0}) (Holds (recs ++ (rec ∷ []))) _ _
        (fail_if-Ensures (is_empty id) no_device_id)
        (λ _ _.
          Ensures-bind (Prepared ds id) (Holds (recs ++ (rec ∷ []))) _ _
            (with_device-Prepared ds (field_of header rec) id)
            (λ es k.
              Ensures-bind (IsPoint parsers (field_of header rec)) (Holds (recs ++ (rec ∷ []))) _ _
                (new_point-IsPoint parsers (field_of header rec) id)
                (λ p point. append_point-Holds recs ds es rec p h k point)))

  add_rows-Holds :
      (done recs : List (List Text)) (ds : List (Device F))
      → Holds done ds
      → Ensures (Holds (done ++ recs)) (add_rows parsers header ds recs)
  unfolding add_rows
  add_rows-Holds done [] ds h = rw (append-nil done) h
  add_rows-Holds done (rec ∷ recs) ds h =
      Ensures-bind (Holds (done ++ (rec ∷ []))) (Holds (done ++ (rec ∷ recs))) _ _
        (subst (λ f. Ensures (Holds (done ++ (rec ∷ []))) (add_row parsers ds f))
          (sym (trim-field_of header rec)) (add_row-Holds done ds rec h))
        (λ more k.
          subst (λ rs. Ensures (Holds rs) (add_rows parsers header more recs))
            (append_assoc done (rec ∷ []) recs) (add_rows-Holds (done ++ (rec ∷ [])) recs more k))

  check_points_same : (ds : List (Device F)) → Ensures (λ es. es ≡ ds) (check_points ds)
  unfolding check_points
  check_points_same [] = refl
  check_points_same (d ∷ ds) = elim (Bool-cases (length d.points == 0)) [
    | inl e ↦ rw (e, check_points) tt
    | inr e ↦
        rw (e, check_points)
          (Ensures-bind (λ es. es ≡ ds) (λ es. es ≡ d ∷ ds) _ _ (check_points_same ds)
            (λ rest h. ap (λ es. d ∷ es) h))
  ]

  load_devices-Holds :
      (recs : List (List Text)) → Ensures (Holds recs) (load_devices parsers (header ∷ recs))
  unfolding load_devices
  load_devices-Holds recs =
      Ensures-bind (λ _. Unit {0}) (Holds recs) _ _
        (fail_if-Ensures (length header == 0) empty_header)
        (λ _ _.
          Ensures-bind (λ _. Unit {0}) (Holds recs) _ _ (require-Ensures header _)
            (λ _ _.
              Ensures-bind (Holds recs) (Holds recs) _ _ (add_rows-Holds [] recs [] (λ id. tt))
                (λ ds h.
                  Ensures-imp (λ es. es ≡ ds) (Holds recs) _ (λ es e. subst (Holds recs) (sym e) h)
                    (check_points_same ds))))

  both :
      {A : Type 0} (P Q : A → Type 0) (m : Go Error A)
      → Ensures P m
      → Ensures Q m
      → Ensures (λ a. P a × Q a) m
  both P Q (ok a) p q = (p, q)
  both P Q (fail e) p q = tt
  both P Q panic p q = p

  -- Reading a devices file ends without a panic. When it succeeds, the points of the device of any id
  -- are those of the rows with this device_id, one for each and in the order of the file, each with the
  -- name, the address, the types, the byte order, the unit, the scale and the offset that its own row
  -- says, with the defaults for an empty scale or offset. What a row says is in the last column of the
  -- name, without the blanks around it, and empty where the row has no such column. There are as many
  -- points altogether as rows behind the header, and each device has a point.
  pub load_devices-Read :
      (recs : List (List Text))
      → Ensures
          (λ ds. Filled (length recs) ds × Holds recs ds)
          (load_devices parsers (header ∷ recs))
  load_devices-Read recs =
      both (Filled (length recs)) (Holds recs) (load_devices parsers (header ∷ recs))
        (load_devices-Filled parsers header recs) (load_devices-Holds recs)
