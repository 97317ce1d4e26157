-- ===== src/Collector/Opening.antt =====
-- How NewStorage of internal/collector/storage.go chooses the outputs of a storage and opens them. The
-- operating system, the CSV writer, the data base and path/filepath are a parameter; a state `W`
-- stands for the files and the data base, and an error carries the state that it leaves.
use mutil_modbus.Prelude.{ℕ, Bool, true, false, ◌||◌, ◌&&◌, not, List, [], ◌∷◌, ◌==◌, if◌then◌else◌}
use mutil_modbus.Prelude.Text.{Text, text, same, is_empty, to_lower, trim_space}
use mutil_modbus.Go.{Go, ok, fail, panic, ◌>>=◌, ◌>>◌, fail_if}
use mutil_modbus.Collector.Records.{csv_header}

pub data Error : Type 0 where
  unsupported_file_type : Text → Error
  no_output : Error
  mkdir_failed open_json_failed open_csv_failed : Text → Error
  header_not_written header_not_flushed : Error
  open_db_failed : Text → Error

-- enableJSON, enableCSV and enableDB
pub record Outputs : Type 0 where
  pub json : Bool
  pub csv : Bool
  pub db : Bool

abbrev pub outputs : Bool → Bool → Bool → Outputs
outputs json csv db = record { json = json; csv = csv; db = db }

abbrev pub is_one_of : Text → List Text → Bool
is_one_of t [] = false
is_one_of t (u ∷ us) = same t u || is_one_of t us

unfoldable pub switch_file_type : Text → Go Error Outputs
switch_file_type ft =
    if is_one_of ft (text "json" ∷ text "jsonl" ∷ [])
    then ok (outputs true false false)
    else if same ft (text "csv")
    then ok (outputs false true false)
    else if same ft (text "db")
    then ok (outputs false false true)
    else if is_one_of ft (text "json+csv" ∷ text "csv+json" ∷ text "both" ∷ [])
    then ok (outputs true true false)
    else if is_one_of ft (text "json+db" ∷ text "db+json" ∷ [])
    then ok (outputs true false true)
    else if is_one_of ft (text "csv+db" ∷ text "db+csv" ∷ [])
    then ok (outputs false true true)
    else if is_one_of ft (text "all" ∷ [] ∷ [])
    then ok (outputs true true true)
    else fail (unsupported_file_type ft)

unfoldable pub select_outputs : Text → Go Error Outputs
select_outputs file_type = do
  o ← switch_file_type (to_lower (trim_space file_type))
  fail_if (not o.json && not o.csv && not o.db) no_output
  ok o

-- What the opening uses of libraries: whether an operation succeeds, and the state after it.
pub record Opening (W : Type 0) : Type 0 where
  -- filepath.Base, Dir and Join
  pub base : Text → Text
  pub dir : Text → Text
  pub join : Text → Text → Text
  pub mkdir_all : Text → W → Bool × W
  -- to append, made when it is missing
  pub open_file : Text → W → Bool × W
  pub close_file : Text → W → W
  -- the offset of the end; its error is dropped by the code
  pub seek_end : Text → W → ℕ
  pub write_header : List Text → W → Bool × W
  pub flush_header : W → Bool × W
  pub open_db : Text → W → Bool × W

-- An operation's outcome; behind an error the files are closed.
abbrev pub attempt : {W : Type 0} → (W → W) → Error → Bool × W → Go (Error × W) W
attempt closing e (true, w) = ok w
attempt closing e (false, w) = fail (e, closing w)

-- An error that leaves the files as they are.
abbrev pub untouched : {A W : Type 0} → W → Go Error A → Go (Error × W) A
untouched w (ok a) = ok a
untouched w (fail e) = fail (e, w)
untouched w panic = panic

abbrev pub has_dot : Text → Bool
has_dot [] = false
has_dot (c ∷ s) = c == 46 || has_dot s

module _ {W : Type 0} (opening : Opening W) where
  -- The directory of the files and the file of the data base.
  unfoldable pub out_dir : Text → Text
  out_dir db_path = if has_dot (opening.base db_path) then opening.dir db_path else db_path

  unfoldable pub db_file : Text → Text
  db_file db_path =
      if has_dot (opening.base db_path)
      then db_path
      else opening.join (out_dir db_path) (text "data.sqlite")

  abbrev pub mkdir_if_named : Text → W → Go (Error × W) W
  mkdir_if_named dir w =
      if is_empty (trim_space dir)
      then ok w
      else attempt (λ v. v) (mkdir_failed dir) (opening.mkdir_all dir w)

  unfoldable pub open_json_file : Outputs → Text → W → Go (Error × W) W
  open_json_file o dir w =
      if o.json
      then attempt (λ v. v) (open_json_failed dir)
          (opening.open_file (opening.join dir (text "collector.jsonl")) w)
      else ok w

  abbrev pub close_json : Outputs → Text → W → W
  close_json o dir w =
      if o.json then opening.close_file (opening.join dir (text "collector.jsonl")) w else w

  -- A file without content gets the header; when that fails, both files are closed.
  unfoldable pub write_new_header : Outputs → Text → W → Go (Error × W) W
  write_new_header o dir w =
      let path = opening.join dir (text "collector.csv") in
      let close_both : W → W = λ v. opening.close_file path (close_json o dir v) in
      if opening.seek_end path w == 0
      then (do
        written ← attempt close_both header_not_written (opening.write_header csv_header w)
        attempt close_both header_not_flushed (opening.flush_header written))
      else ok w

  unfoldable pub open_csv_file : Outputs → Text → W → Go (Error × W) W
  open_csv_file o dir w =
      if o.csv
      then (do
        opened ←
            attempt (λ v. close_json o dir v) (open_csv_failed dir)
              (opening.open_file (opening.join dir (text "collector.csv")) w)
        write_new_header o dir opened)
      else ok w

  -- The files stay open when the data base cannot be opened.
  unfoldable pub open_data_base : Outputs → Text → W → Go (Error × W) W
  open_data_base o path w =
      if o.db
      then (do
        made ← mkdir_if_named (opening.dir path) w
        attempt (λ v. v) (open_db_failed path) (opening.open_db path made))
      else ok w

  unfoldable pub open_outputs : Outputs → Text → W → Go (Error × W) W
  open_outputs o db_path w = do
    let dir = out_dir db_path
    made ← if o.json || o.csv then mkdir_if_named dir w else ok w
    json ← open_json_file o dir made
    csv ← open_csv_file o dir json
    open_data_base o (db_file db_path) csv
