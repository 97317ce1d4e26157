-- ===== src/Collector/Manager/KeyedTables.antt =====
-- Tables with a primary key, as gorm saves into them (internal/model/modbus.go).
use mutil_modbus.Prelude.{
  All-append, ◌≡◌, refl, false, List, [], ◌∷◌, ◌++◌, append-nil, append_assoc, sym, ◌∙◌, All,
  length, if◌then◌else◌,
}
use mutil_modbus.Prelude.Text.{Text, same}
use mutil_modbus.Go.{ok}
use mutil_modbus.Collector.Manager.{ServerRow, DeviceRow, Tables}

-- Tables that take all rows, by their primary keys: `Save` replaces the row of the same key, and else
-- the row comes last.
pub record Rows : Type 0 where
  pub servers : List ServerRow
  pub devices : List DeviceRow

module _ {A : Type 0} (key : A → Text) where
  abbrev pub put : List A → A → List A
  put [] r = r ∷ []
  put (x ∷ xs) r = let rest = put xs r in if same (key x) (key r) then r ∷ xs else x ∷ rest

  abbrev pub put_all : List A → List A → List A
  put_all old [] = old
  put_all old (r ∷ rs) = put_all (put old r) rs

  -- No two of them have the same key.
  abbrev pub Distinct : List A → Type 0
  Distinct [] = Unit
  Distinct (r ∷ rs) = All (λ s. same (key r) (key s) ≡ false) rs × Distinct rs

  abbrev Apart : List A → A → Type 0
  Apart old r = All (λ o. same (key o) (key r) ≡ false) old

  put_lem : (old : List A) (r : A) → Apart old r → put old r ≡ old ++ (r ∷ [])
  put_lem [] r h = refl
  put_lem (x ∷ xs) r h = rw (h.0, put_lem xs r h.1) refl

  Apart-append :
      (old : List A) (r : A) (rs : List A)
      → All (Apart old) rs
      → All (λ s. same (key r) (key s) ≡ false) rs
      → All (Apart (old ++ (r ∷ []))) rs
  Apart-append old r [] h k = tt
  Apart-append old r (s ∷ rs) h k = (
    All-append (λ o. same (key o) (key s) ≡ false) old (r ∷ []) h.0 (k.0, tt),
    Apart-append old r rs h.1 k.1,
  )

  put_all_lem : (old rs : List A) → Distinct rs → All (Apart old) rs → put_all old rs ≡ old ++ rs
  put_all_lem old [] d h = sym (append-nil old)
  put_all_lem old (r ∷ rs) d h = rw (put_lem old r h.0) (
      put_all_lem (old ++ (r ∷ [])) rs d.1 (Apart-append old r rs h.1 d.0)
      ∙ append_assoc old (r ∷ []) rs)

  all_Apart : (rs : List A) → All (Apart []) rs
  all_Apart [] = tt
  all_Apart (r ∷ rs) = (tt, all_Apart rs)

  pub put_all-Distinct : (rs : List A) → Distinct rs → put_all [] rs ≡ rs
  put_all-Distinct rs d = put_all_lem [] rs d (all_Apart rs)

  pub put_all-append : (old xs ys : List A) → put_all old (xs ++ ys) ≡ put_all (put_all old xs) ys
  put_all-append old [] ys = refl
  put_all-append old (x ∷ xs) ys = put_all-append (put old x) xs ys

abbrev pub server_key : ServerRow → Text
server_key r = r.server_id

abbrev pub device_key : DeviceRow → Text
device_key r = r.device_id

abbrev pub keyed_tables : Tables Rows
keyed_tables = record {
  count_servers = λ w. ok (length w.servers);
  save_server = λ r w. ok record { servers = put server_key w.servers r; devices = w.devices };
  save_device = λ r w. ok record { servers = w.servers; devices = put device_key w.devices r };
}
