-- ===== src/Collector/Devices/Points.antt =====
-- What a row of a devices file says of its point, and the points of a device under its id
-- (loadDevicesFromCSV of internal/collector/config.go).
use mutil_modbus.Prelude.{
  ◌≡◌, refl, subst, true, false, List, [], ◌∷◌, ◌++◌, Option, none, some, if◌then◌else◌, Bool-cases,
  inl, inr,
}
use mutil_modbus.Prelude.Text.{Text, text, same, same_eq, same_refl, is_empty}
use mutil_modbus.Go.{Ensures, Ensures-bind, Ensures-imp}
use mutil_modbus.Collector.Point.{Point}
use mutil_modbus.Collector.Devices.{
  Error, Device, Parsers, parse_uint, or_fail, number_or, new_point, is_known, append_point,
  no_point_name, missing_register_type,
}
use mutil_modbus.Collector.Devices.Laws.{fail_if-Ensures}
use mutil_modbus.Collector.Devices.Fields.{field_of}

-- The points of the device of an id.
abbrev pub points_under : {F : Type 0} → List (Device F) → Text → List (Point F)
points_under [] id = []
points_under (d ∷ ds) id =
    let rest = points_under ds id in if same d.device_id id then d.points else rest

-- The rows of an id, in their order.
abbrev pub rows_under : List Text → List (List Text) → Text → List (List Text)
rows_under header [] id = []
rows_under header (rec ∷ recs) id =
    let rest = rows_under header recs id in
    if same (field_of header rec (text "device_id")) id then rec ∷ rest else rest

module _ {F : Type 0} (parsers : Parsers F) where
  -- A number that may be left out.
  abbrev pub Number : F → Text → F → Type 0
  Number default s x = if is_empty s then (x ≡ default) else (parsers.parse_float s ≡ some x)

  -- What a row says of its point.
  pub record IsPoint (field : Text → Text) (p : Point F) : Type 0 where
    pub name : p.name ≡ (
        if is_empty (field (text "point_name"))
        then field (text "name")
        else field (text "point_name"))
    pub address : parse_uint 65536 (field (text "address")) ≡ some p.address
    pub register_type : p.register_type ≡ field (text "register_type")
    pub data_type : p.data_type ≡ field (text "data_type")
    pub byte_order : p.byte_order ≡ field (text "byte_order")
    pub unit : p.unit ≡ field (text "unit")
    pub scale : Number parsers.one (field (text "scale")) p.scale
    pub offset : Number parsers.zero (field (text "offset")) p.offset

  -- Point by point and row by row, in order.
  abbrev pub ArePoints : List Text → List (Point F) → List (List Text) → Type 0
  ArePoints header [] [] = Unit
  ArePoints header (p ∷ ps) (rec ∷ recs) =
      IsPoint (field_of header rec) p × ArePoints header ps recs
  ArePoints header [] (rec ∷ recs) = ⊥
  ArePoints header (p ∷ ps) [] = ⊥

  pub ArePoints-append :
      (header : List Text) (ps : List (Point F)) (recs : List (List Text)) (p : Point F)
      (rec : List Text)
      → ArePoints header ps recs
      → IsPoint (field_of header rec) p
      → ArePoints header (ps ++ (p ∷ [])) (recs ++ (rec ∷ []))
  ArePoints-append header [] [] p rec h k = (k, tt)
  ArePoints-append header (q ∷ ps) (r ∷ recs) p rec h k =
      (h.0, ArePoints-append header ps recs p rec h.1 k)
  ArePoints-append header [] (r ∷ recs) p rec h k = absurd h
  ArePoints-append header (q ∷ ps) [] p rec h k = absurd h

  or_fail-some : {A : Type 0} (o : Option A) (e : Error) → Ensures (λ a. o ≡ some a) (or_fail o e)
  or_fail-some none e = tt
  or_fail-some (some a) e = refl

  number_or-Number :
      (default : F) (s : Text) (e : Error)
      → Ensures (Number default s) (number_or parsers default s e)
  unfolding number_or
  number_or-Number default s e = elim (Bool-cases (is_empty s)) [
    | inl h ↦ let left_out : Number default s default = rw h refl in rw h left_out
    | inr h ↦ rw h (
        Ensures-imp (λ x. parsers.parse_float s ≡ some x) (Number default s)
          (or_fail (parsers.parse_float s) e) (λ x k. rw h k)
          (or_fail-some (parsers.parse_float s) e))
  ]

  pub new_point-IsPoint :
      (field : Text → Text) (id : Text) → Ensures (IsPoint field) (new_point parsers field id)
  unfolding new_point
  new_point-IsPoint field id =
      let name : Text =
        if is_empty (field (text "point_name"))
        then field (text "name")
        else field (text "point_name") in
      Ensures-bind (λ _. Unit {0}) (IsPoint field) _ _
        (fail_if-Ensures (is_empty name) (no_point_name id))
        (λ _ _.
          Ensures-bind (λ a. parse_uint 65536 (field (text "address")) ≡ some a) (IsPoint field) _ _
            (or_fail-some (parse_uint 65536 (field (text "address"))) _)
            (λ address a.
              Ensures-bind (λ _. Unit {0}) (IsPoint field) _ _
                (fail_if-Ensures (is_empty (field (text "register_type")))
                  (missing_register_type id name))
                (λ _ _.
                  Ensures-bind (Number parsers.one (field (text "scale"))) (IsPoint field) _ _
                    (number_or-Number parsers.one (field (text "scale")) _)
                    (λ scale s.
                      Ensures-bind (Number parsers.zero (field (text "offset"))) (IsPoint field) _ _
                        (number_or-Number parsers.zero (field (text "offset")) _)
                        (λ offset o. record {
                          name = refl;
                          address = a;
                          register_type = refl;
                          data_type = refl;
                          byte_order = refl;
                          unit = refl;
                          scale = s;
                          offset = o;
                        })))))

  pub rows_under-append :
      (header : List Text) (xs : List (List Text)) (rec : List Text) (id : Text)
      → rows_under header (xs ++ (rec ∷ [])) id
        ≡ rows_under header xs id ++ rows_under header (rec ∷ []) id
  rows_under-append header [] rec id = refl
  rows_under-append header (x ∷ xs) rec id =
      elim (Bool-cases (same (field_of header x (text "device_id")) id)) [
        | inl e ↦ rw (e, rows_under-append header xs rec id) refl
        | inr e ↦ rw (e, rows_under-append header xs rec id) refl
      ]

same_sym : (s t : Text) → same s t ≡ false → same t s ≡ false
same_sym s t h = elim (Bool-cases (same t s)) [
  | inl e ↦ absurd (cc (h, subst (λ x. same x t ≡ true) (same_eq t s e) (same_refl t)))
  | inr e ↦ e
]

module _ {F : Type 0} where
  pub points_under-append :
      (ds : List (Device F)) (d : Device F) (id : Text)
      → d.points ≡ []
      → points_under (ds ++ (d ∷ [])) id ≡ points_under ds id
  points_under-append [] d id h = elim (Bool-cases (same d.device_id id)) [
    | inl e ↦ rw e h
    | inr e ↦ rw e refl
  ]
  points_under-append (e ∷ ds) d id h = elim (Bool-cases (same e.device_id id)) [
    | inl y ↦ rw y refl
    | inr n ↦ rw n (points_under-append ds d id h)
  ]

  pub points_under-append_point :
      (ds : List (Device F)) (id : Text) (p : Point F) (j : Text)
      → is_known ds id ≡ true
      → points_under (append_point ds id p) j
        ≡ (if same id j then points_under ds j ++ (p ∷ []) else points_under ds j)
  unfolding append_point
  points_under-append_point [] id p j h = absurd (cc h)
  points_under-append_point (d ∷ ds) id p j h = elim (Bool-cases (same d.device_id id)) [
    | inl e ↦
        let own : d.device_id ≡ id = same_eq d.device_id id e in
        elim (Bool-cases (same d.device_id j)) [
          | inl y ↦
              let y' : same id j ≡ true = subst (λ x. same x j ≡ true) own y in
              rw (e, append_point, y, y') refl
          | inr n ↦
              let n' : same id j ≡ false = subst (λ x. same x j ≡ false) own n in
              rw (e, append_point, n, n') refl
        ]
    | inr e ↦
        let k : is_known ds id ≡ true = rw e at h in
        elim (Bool-cases (same d.device_id j)) [
          | inl y ↦
              let n' : same id j ≡ false =
                same_sym j id (subst (λ x. same x id ≡ false) (same_eq d.device_id j y) e) in
              rw (e, append_point, y, n') refl
          | inr n ↦ rw (e, append_point, n) (points_under-append_point ds id p j k)
        ]
  ]
