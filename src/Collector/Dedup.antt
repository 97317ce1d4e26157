-- ===== src/Collector/Dedup.antt =====
-- The cache of last values (internal/utils/cache.go) and the handler that skips a value that has
-- not changed (Manager.Run of internal/collector/manager.go). A map is an association list with
-- the newest entry first; a time is a number of nanoseconds, and `now` is read once in each
-- operation, under the mutex.
pub mod Laws
use mutil_modbus.Prelude.{
  ℕ, ◌-◌, Bool, true, false, List, [], ◌∷◌, ◌++◌, Option, none, some, ltb, ◌==◌, if◌then◌else◌,
}
use mutil_modbus.Prelude.Text.{Text, text, same}

pub record Entry (F : Type 0) : Type 0 where
  pub v : F
  pub at : ℕ

pub record ValueCache (F : Type 0) : Type 0 where
  pub ttl : ℕ
  pub entries : List (Text × Entry F)

module _ {A : Type 0} where
  abbrev pub lookup : List (Text × A) → Text → Option A
  lookup [] key = none
  lookup ((k, a) ∷ m) key = let rest = lookup m key in if same k key then some a else rest

  abbrev pub delete : List (Text × A) → Text → List (Text × A)
  delete [] key = []
  delete ((k, a) ∷ m) key = let rest = delete m key in if same k key then rest else (k, a) ∷ rest

module _ {F : Type 0} where
  -- A TTL of 0 stands for one of 0 or less; the default is one hour.
  unfoldable pub new_value_cache : ℕ → ValueCache F
  new_value_cache ttl = record { ttl = if ttl == 0 then 3600000000000 else ttl; entries = [] }

  unfoldable pub set_ttl : ValueCache F → ℕ → ValueCache F
  set_ttl c ttl = record c { ttl = if ttl == 0 then 3600000000000 else ttl }

  unfoldable pub get_value : ValueCache F → Text → ℕ → Option F × ValueCache F
  get_value c key now = elim (lookup c.entries key) [
    | none ↦ (none, c)
    | some e ↦
        if ltb c.ttl (now - e.at)
        then (none, record c { entries = delete c.entries key })
        else (some e.v, c)
  ]

  unfoldable pub set_value : ValueCache F → Text → F → ℕ → ValueCache F
  set_value c key v now = record c {
    entries = (key, record { v = v; at = now }) ∷ delete c.entries key;
  }

-- What FloatsEqual uses of float64: the comparisons, and its two tests against 1e-9.
pub record NearOps (F : Type 0) : Type 0 where
  pub equal : F → F → Bool
  pub is_zero_abs : F → Bool
  pub close_absolute : F → F → Bool
  pub close_relative : F → F → Bool

unfoldable pub floats_equal : {F : Type 0} → NearOps F → F → F → Bool
floats_equal ops a b =
    if ops.equal a b
    then true
    else if ops.is_zero_abs a
    then ops.close_absolute a b
    else if ops.is_zero_abs b
    then ops.close_absolute a b
    else ops.close_relative a b

-- What the handler reads of a value.
pub record Reading (F : Type 0) : Type 0 where
  pub device_id : Text
  pub point_name : Text
  pub register : Text
  pub server_id : Text
  pub value : F

-- `v.DeviceID + "|" + v.PointName + "|" + v.Register + "|" + v.ServerID`
unfoldable pub key_of : {F : Type 0} → Reading F → Text
key_of v = v.device_id ++ (124 ∷ (v.point_name ++ (124 ∷ (v.register ++ (124 ∷ v.server_id)))))

-- What the handler leaves: the cache, the values that reached the store, and whether it returned
-- the store's error.
pub record Handled (F : Type 0) : Type 0 where
  pub cache : ValueCache F
  pub stored : List (Reading F)
  pub failed : Bool

-- `store` is whether the storage takes the value: its error otherwise.
unfoldable pub on_value :
    {F : Type 0}
    → NearOps F
    → (Reading F → Bool)
    → ℕ
    → ValueCache F
    → List (Reading F)
    → Reading F
    → Handled F
on_value ops store now c stored v =
    let (cached, c') = get_value c (key_of v) now in
    let unchanged : Bool = elim cached [ none ↦ false | some old ↦ floats_equal ops old v.value ] in
    if unchanged
    then record { cache = c'; stored = stored; failed = false }
    else if store v
    then record {
      cache = set_value c' (key_of v) v.value now;
      stored = stored ++ (v ∷ []);
      failed = false;
    }
    else record { cache = c'; stored = stored; failed = true }
