-- ===== src/Collector/Devices/Laws.antt =====
-- The rows of a devices file are the points of its devices.
use mutil_modbus.Prelude.{
  ℕ, ◌+◌, ◌≤◌, ◌≡◌, refl, sym, ap, ◌∙◌, Bool, true, false, List, [], ◌∷◌, ◌++◌, Option, none, some,
  length, ◌==◌, arith, if◌then◌else◌, Bool-cases, inl, inr, Option-cases, All, length-append,
}
use mutil_modbus.Prelude.Text.{Text, text, same, same_refl, is_empty}
use mutil_modbus.Go.{Go, ok, fail_if, Ensures, Ensures-bind, Ensures-imp}
use mutil_modbus.Collector.Point.{Point}
use mutil_modbus.Collector.Devices.{
  Error, Device, Parsers, parse_uint, or_fail, trim, new_device, number_or, new_point, is_known,
  append_point, with_device, add_row, add_rows, check_points, require, load_devices, column_of,
  empty_header, no_point_name, no_device_id, invalid_address, missing_register_type, invalid_scale,
  invalid_offset, invalid_slave_id, invalid_poll_interval,
}

abbrev pub total : {F : Type 0} → List (Device F) → ℕ
total [] = 0
total (d ∷ ds) = length d.points + total ds

total-append : {F : Type 0} (ds es : List (Device F)) → total (ds ++ es) ≡ total ds + total es
total-append [] es = omega arith
total-append (d ∷ ds) es = let e = total-append ds es in omega arith

append_point-total :
    {F : Type 0} (ds : List (Device F)) (id : Text) (p : Point F)
    → is_known ds id ≡ true
    → total (append_point ds id p) ≡ total ds + 1
unfolding append_point
append_point-total [] id p h = ground arith
append_point-total (d ∷ ds) id p h = elim (Bool-cases (same d.device_id id)) [
  | inl e ↦ rw (e, append_point) (omega (arith, length-append d.points (p ∷ [])))
  | inr e ↦ let k = append_point-total ds id p (rw e at h) in rw (e, append_point) (omega arith)
]

pub is_known-append :
    {F : Type 0} (ds : List (Device F)) (d : Device F)
    → is_known (ds ++ (d ∷ [])) d.device_id ≡ true
is_known-append [] d = rw (same_refl d.device_id) refl
is_known-append (e ∷ ds) d = elim (Bool-cases (same e.device_id d.device_id)) [
  | inl y ↦ rw y refl
  | inr n ↦ rw n (is_known-append ds d)
]

abbrev pub Empty : {F : Type 0} → Text → Device F → Type 0
Empty id d = (d.points ≡ []) × (d.device_id ≡ id)

or_fail-Ensures : {A : Type 0} (o : Option A) (e : Error) → Ensures (λ _. Unit {0}) (or_fail o e)
or_fail-Ensures none e = tt
or_fail-Ensures (some a) e = tt

number-Ensures :
    {A : Type 0} (b : Bool) (a : A) (m : Go Error A)
    → Ensures (λ _. Unit {0}) m
    → Ensures (λ _. Unit {0}) (if b then ok a else m)
number-Ensures true a m h = tt
number-Ensures false a m h = h

pub new_device-Empty :
    {F : Type 0} (parsers : Parsers F) (field : Text → Text) (id : Text)
    → Ensures (Empty id) (new_device parsers field id)
unfolding new_device
new_device-Empty parsers field id =
    Ensures-bind (λ _. Unit {0}) (Empty id) _ _
      (number-Ensures (is_empty (field (text "slave_id"))) 0 _
        (or_fail-Ensures _ (invalid_slave_id id)))
      (λ slave _.
        Ensures-bind (λ _. Unit {0}) (Empty id) _ _
          (number-Ensures (is_empty (field (text "poll_interval"))) 0 _
            (or_fail-Ensures _ (invalid_poll_interval id)))
          (λ poll _. (refl, refl)))

-- The points so far, with a device for the row's id.
abbrev Ready : {F : Type 0} → ℕ → Text → List (Device F) → Type 0
Ready n id ds = (total ds ≡ n) × (is_known ds id ≡ true)

with_device-Ready :
    {F : Type 0} (parsers : Parsers F) (ds : List (Device F)) (field : Text → Text) (id : Text)
    → Ensures (Ready (total ds) id) (with_device parsers ds field id)
unfolding with_device
with_device-Ready parsers ds field id = elim (Bool-cases (is_known ds id)) [
  | inl known ↦ rw known (refl, known)
  | inr new ↦ rw new (
      Ensures-bind (Empty id) (Ready (total ds) id) _ _ (new_device-Empty parsers field id) (λ d h.
        (
          total-append ds (d ∷ []) ∙ ap (λ ps. total ds + (length ps + 0)) h.0 ∙ omega arith,
          ap (is_known (ds ++ (d ∷ []))) (sym h.1) ∙ is_known-append ds d,
        )))
]

pub fail_if-Ensures : (b : Bool) (e : Error) → Ensures (λ _. Unit {0}) (fail_if b e)
fail_if-Ensures true e = tt
fail_if-Ensures false e = tt

new_point-Ensures :
    {F : Type 0} (parsers : Parsers F) (field : Text → Text) (id : Text)
    → Ensures (λ _. Unit {0}) (new_point parsers field id)
unfolding new_point number_or
new_point-Ensures {F} parsers field id =
    let name : Text =
      if is_empty (field (text "point_name"))
      then field (text "name")
      else field (text "point_name") in
    Ensures-bind {A = Unit {0}} {B = Point F} (λ _. Unit {0}) (λ _. Unit {0}) _ _
      (fail_if-Ensures (is_empty name) (no_point_name id))
      (λ _ _.
        Ensures-bind {A = ℕ} {B = Point F} (λ _. Unit {0}) (λ _. Unit {0}) _ _
          (or_fail-Ensures (parse_uint 65536 (field (text "address"))) (invalid_address id name))
          (λ address _.
            Ensures-bind {A = Unit {0}} {B = Point F} (λ _. Unit {0}) (λ _. Unit {0}) _ _
              (fail_if-Ensures (is_empty (field (text "register_type")))
                (missing_register_type id name))
              (λ _ _.
                Ensures-bind {A = F} {B = Point F} (λ _. Unit {0}) (λ _. Unit {0}) _ _
                  (number-Ensures (is_empty (field (text "scale"))) parsers.one _ (
                    or_fail-Ensures (parsers.parse_float (field (text "scale")))
                      (invalid_scale id name)))
                  (λ scale _.
                    Ensures-bind {A = F} {B = Point F} (λ _. Unit {0}) (λ _. Unit {0}) _ _
                      (number-Ensures (is_empty (field (text "offset"))) parsers.zero _ (
                        or_fail-Ensures (parsers.parse_float (field (text "offset")))
                          (invalid_offset id name)))
                      (λ offset _. tt)))))

add_row-total :
    {F : Type 0} (parsers : Parsers F) (ds : List (Device F)) (field : Text → Text)
    → Ensures (λ es. total es ≡ total ds + 1) (add_row parsers ds field)
unfolding add_row
add_row-total parsers ds field =
    Ensures-bind (λ _. Unit {0}) _ _ _
      (fail_if-Ensures (is_empty (field (text "device_id"))) no_device_id)
      (λ _ _.
        Ensures-bind (Ready (total ds) (field (text "device_id"))) _ _ _
          (with_device-Ready parsers ds field _)
          (λ known h.
            Ensures-bind (λ _. Unit {0}) _ _ _ (new_point-Ensures parsers field _)
              (λ point _.
                append_point-total known (field (text "device_id")) point h.1
                ∙ ap (λ n. n + 1) h.0)))

add_rows-total :
    {F : Type 0} (parsers : Parsers F) (header : List Text) (ds : List (Device F))
    (recs : List (List Text))
    → Ensures (λ es. total es ≡ total ds + length recs) (add_rows parsers header ds recs)
unfolding add_rows
add_rows-total parsers header ds [] = omega arith
add_rows-total parsers header ds (rec ∷ recs) =
    Ensures-bind (λ es. total es ≡ total ds + 1) (λ es. total es ≡ total ds + length (rec ∷ recs)) _
      _ (add_row-total parsers ds (trim header rec))
      (λ more h.
        Ensures-imp (λ es. total es ≡ total more + length recs)
          (λ es. total es ≡ total ds + length (rec ∷ recs)) _ (λ es e. omega arith)
          (add_rows-total parsers header more recs))

abbrev pub HasPoint : {F : Type 0} → Device F → Type 0
HasPoint d = 1 ≤ length d.points

abbrev pub Filled : {F : Type 0} → ℕ → List (Device F) → Type 0
Filled n ds = (total ds ≡ n) × All HasPoint ds

pub check_points-Filled :
    {F : Type 0} (ds : List (Device F)) → Ensures (Filled (total ds)) (check_points ds)
unfolding check_points
check_points-Filled [] = (refl, tt)
check_points-Filled (d ∷ ds) = elim (Bool-cases (length d.points == 0)) [
  | inl e ↦ rw (e, check_points) tt
  | inr e ↦
      rw (e, check_points)
        (Ensures-bind (Filled (total ds)) (Filled (length d.points + total ds)) _ _
          (check_points-Filled ds)
          (λ rest h. (ap (λ n. length d.points + n) h.0, (ground arith, h.1))))
]

pub require-Ensures : (header keys : List Text) → Ensures (λ _. Unit {0}) (require header keys)
unfolding require
require-Ensures header [] = tt
require-Ensures header (key ∷ keys) = elim (Option-cases (column_of header 0 key)) [
  | inl e ↦ rw (e, require) tt
  | inr (i, e) ↦ rw (e, require) (require-Ensures header keys)
]

-- Together the devices have as many points as the file has rows.
pub load_devices-Filled :
    {F : Type 0} (parsers : Parsers F) (header : List Text) (recs : List (List Text))
    → Ensures (Filled (length recs)) (load_devices parsers (header ∷ recs))
unfolding load_devices
load_devices-Filled parsers header recs =
    Ensures-bind (λ _. Unit {0}) _ _ _ (fail_if-Ensures (length header == 0) empty_header)
      (λ _ _.
        Ensures-bind (λ _. Unit {0}) _ _ _ (require-Ensures header _)
          (λ _ _.
            Ensures-bind (λ es. total es ≡ 0 + length recs) _ _ _
              (add_rows-total parsers header [] recs)
              (λ ds h.
                Ensures-imp (Filled (total ds)) (Filled (length recs)) _
                  (λ es f. (f.0 ∙ h ∙ omega arith, f.1)) (check_points-Filled ds))))
