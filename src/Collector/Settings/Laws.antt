-- ===== src/Collector/Settings/Laws.antt =====
-- The settings are usable after the defaults, and each server has devices or a devices file.
use mutil_modbus.Prelude.{
  ◌≡◌, ◌⊎◌, ◌≤◌, refl, Bool, true, false, List, [], ◌∷◌, Bool-cases, inl, inr, All, if◌then◌else◌,
  length, ◌==◌, arith,
}
use mutil_modbus.Prelude.Text.{Text, text, is_empty, to_lower, trim_space}
use mutil_modbus.Prelude.Float.{ℤ, pos, negsuc}
use mutil_modbus.Go.{Go, ok, fail, panic, Ensures, Ensures-bind, Ensures-imp}
use mutil_modbus.Collector.Devices.{Parsers, load_devices}
use mutil_modbus.Collector.Devices.Laws.{Filled, load_devices-Filled}
use mutil_modbus.Collector.Settings.{
  SystemConfig, is_positive, is_negative, positive_or, with_defaults, ServerConfig, is_listed,
  is_csv, wrapped, resolve_server, resolve_servers,
}

positive_if :
    (b : Bool) (default x : ℤ)
    → is_positive x ≡ b
    → is_positive default ≡ true
    → is_positive (if b then x else default) ≡ true
positive_if true default x e h = e
positive_if false default x e h = h

positive_or_lem :
    (default x : ℤ) → is_positive default ≡ true → is_positive (positive_or default x) ≡ true
positive_or_lem default x h = positive_if (is_positive x) default x refl h

nonnegative_lem : (x : ℤ) → is_negative (if is_negative x then pos 0 else x) ≡ false
nonnegative_lem (pos n) = refl
nonnegative_lem (negsuc n) = refl

-- What the collector relies on: sizes that are positive or not negative, and a file type.
pub record IsUsable (c : SystemConfig) : Type 0 where
  pub workers : is_positive c.max_workers ≡ true
  pub queue : is_positive c.max_queue_size ≡ true
  pub storage_workers : is_negative c.storage_workers ≡ false
  pub storage_queue : is_negative c.storage_queue_size ≡ false
  pub ttl : is_positive c.cache_ttl ≡ true
  pub analysis : is_positive c.result_analysis_count ≡ true
  pub file_type : is_empty c.file_type ≡ false
  pub snapshot : is_positive c.snapshot_interval ≡ true

file_type_lem : (t : Text) → is_empty (if is_empty t then text "csv" else t) ≡ false
file_type_lem [] = refl
file_type_lem (c ∷ s) = refl

-- Whatever the file sets, after the defaults the workers, the queue, the TTL, the count of results
-- and the snapshot interval are positive, the storage's sizes are not negative, and there is a file
-- type.
pub with_defaults-IsUsable : (c : SystemConfig) → IsUsable (with_defaults c)
unfolding with_defaults
with_defaults-IsUsable c = record {
  workers = positive_or_lem (pos 10) c.max_workers refl;
  queue = positive_or_lem (pos 1000) c.max_queue_size refl;
  storage_workers = nonnegative_lem c.storage_workers;
  storage_queue = nonnegative_lem c.storage_queue_size;
  ttl = positive_or_lem (pos 3600000000000) c.cache_ttl refl;
  analysis = positive_or_lem (pos 10) c.result_analysis_count refl;
  file_type = file_type_lem (to_lower (trim_space c.file_type));
  snapshot = positive_or_lem (pos 30000000000) c.snapshot_interval refl;
}

-- A server as the collector takes it: its type is one of the two, and a listed one has devices.
abbrev pub Resolved : {F : Type 0} → ServerConfig F → Type 0
Resolved srv =
    ((srv.devices_type ≡ text "device") × (1 ≤ length srv.devices))
    ⊎ (srv.devices_type ≡ text "csvfile")

wrapped-Ensures :
    {A E : Type 0} (id : Text) (m : Go E A)
    → Ensures (λ _. Unit {0}) m
    → Ensures (λ _. Unit {0}) (wrapped id m)
wrapped-Ensures id (ok a) h = tt
wrapped-Ensures id (fail e) h = tt
wrapped-Ensures id panic h = h

load_devices-Ensures :
    {F : Type 0} (parsers : Parsers F) (recs : List (List Text))
    → Ensures (λ _. Unit {0}) (load_devices parsers recs)
unfolding load_devices
load_devices-Ensures parsers [] = tt
load_devices-Ensures parsers (header ∷ recs) =
    Ensures-imp (Filled (length recs)) (λ _. Unit {0}) _ (λ _ _. tt)
      (load_devices-Filled parsers header recs)

resolve_server-Resolved :
    {F : Type 0} (parsers : Parsers F) (locate : Text → Text) (records : Text → List (List Text))
    (srv : ServerConfig F)
    → Ensures Resolved (resolve_server parsers locate records srv)
unfolding resolve_server
resolve_server-Resolved {F} parsers locate records srv =
    let source = to_lower (trim_space srv.devices_type) in
    elim (Bool-cases (is_listed source)) [
      | inl l ↦ elim (Bool-cases (length srv.devices == 0)) [
        | inl e ↦ rw (l, e) tt
        | inr e ↦ rw (l, e) (inl (refl, ground arith))
      ]
      | inr l ↦ elim (Bool-cases (is_csv source)) [
        | inl c ↦ elim (Bool-cases (is_empty (trim_space srv.devices_file))) [
          | inl e ↦ rw (l, c, e) tt
          | inr e ↦
              rw (l, c, e)
                (Ensures-bind (λ _. Unit {0}) (λ (v : ServerConfig F). Resolved v)
                  (wrapped srv.server_id (load_devices parsers (records (locate srv.devices_file))))
                  _
                  (wrapped-Ensures srv.server_id _
                    (load_devices-Ensures parsers (records (locate srv.devices_file))))
                  (λ ds _. inr refl))
        ]
        | inr c ↦ rw (l, c) tt
      ]
    ]

-- The loop over the servers does not panic, whatever the files hold, and when it succeeds it leaves
-- as many servers as it was given: each has the type of listed devices, with at least one device, or
-- the type of a devices file.
pub resolve_servers-Resolved :
    {F : Type 0} (parsers : Parsers F) (locate : Text → Text) (records : Text → List (List Text))
    (srvs : List (ServerConfig F))
    → Ensures
        (λ vs. (length vs ≡ length srvs) × All Resolved vs)
        (resolve_servers parsers locate records srvs)
unfolding resolve_servers
resolve_servers-Resolved parsers locate records [] = (refl, tt)
resolve_servers-Resolved {F} parsers locate records (srv ∷ srvs) =
    Ensures-bind Resolved (λ vs. (length vs ≡ length (srv ∷ srvs)) × All Resolved vs)
      (resolve_server parsers locate records srv) _
      (resolve_server-Resolved parsers locate records srv)
      (λ v h.
        Ensures-bind (λ vs. (length vs ≡ length srvs) × All Resolved vs)
          (λ vs. (length vs ≡ length (srv ∷ srvs)) × All Resolved vs)
          (resolve_servers parsers locate records srvs) _
          (resolve_servers-Resolved parsers locate records srvs)
          (λ vs k. (omega (arith, k.0), (h, k.1))))
