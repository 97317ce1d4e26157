-- ===== src/Collector/Storage.antt =====
-- The storage of collected values (internal/collector/storage.go): NewStorage, and the queue between
-- Handle and the writer. Handle, Close and the writer
-- run side by side, and a send or a receive of the queue is one step; the files and the database are
-- a state `W`, with the effect of each write on it, errors of a write being dropped by the code.
pub mod Laws
pub mod Drain
use mutil_modbus.Prelude.{
  ℕ, ◌≡◌, ◌+◌, Bool, true, false, ◌||◌, ◌&&◌, not, List, [], ◌∷◌, ◌++◌, Option, none, some, length,
  ltb, if◌then◌else◌,
}
use mutil_modbus.Prelude.Text.{Text, text, same, is_empty, to_lower, trim_space}
use mutil_modbus.Prelude.Float.{ℤ, pos, negsuc}
use mutil_modbus.Go.{Go, NoError, ok, fail, panic, ◌>>=◌, ◌>>◌, fail_if}
use mutil_modbus.Collector.Point.{PointValue, Raw}
pub use mutil_modbus.Collector.Opening.{Error, Outputs, Opening}
unfoldable pub use mutil_modbus.Collector.Opening.{
  outputs, switch_file_type, select_outputs, untouched, open_outputs,
}
pub use mutil_modbus.Collector.Records.{
  csv_header, Formats, csv_record, Json, json_text, json_number, json_float, json_raw, json_object,
  StoredPoint, db_row,
}

unfoldable pub max_queue_if_positive : ℤ → ℕ → ℕ
max_queue_if_positive (pos v) def = if ltb 0 v then v else def
max_queue_if_positive (negsuc v) def = def

-- What a write does to the files and the database, whether it succeeds or not.
pub record Files (F W : Type 0) : Type 0 where
  pub write_jsonl : List (Text × Json F) → W → W
  pub write_csv : List Text → W → W
  pub write_db : StoredPoint F → W → W
  pub flush_json : W → W
  pub flush_csv : W → W

pub record Storage (F W : Type 0) : Type 0 where
  pub enabled : Outputs
  pub capacity : ℕ
  pub queue : List (PointValue F)
  pub queue_closed : Bool
  pub closed : Bool
  pub files : W

-- An empty path stands for db.sqlite.
abbrev pub path_or_default : Text → Text
path_or_default db_path = if is_empty db_path then text "db.sqlite" else db_path

unfoldable pub new_storage :
    {F W : Type 0} → Opening W → Text → Text → ℤ → W → Go (Error × W) (Storage F W)
new_storage opening db_path file_type max_queue w = do
  enabled ← untouched w (select_outputs file_type)
  files ← open_outputs opening enabled (path_or_default db_path) w
  ok record {
    enabled = enabled;
    capacity = max_queue_if_positive max_queue 1000;
    queue = [];
    queue_closed = false;
    closed = false;
    files = files;
  }

module _ {F W : Type 0} where
  -- `case s.q <- v`: a send on a closed channel panics, and none is for a full queue.
  unfoldable pub try_send : Storage F W → PointValue F → Go NoError (Option (Storage F W))
  try_send s v =
      if s.queue_closed
      then panic
      else if ltb (length s.queue) s.capacity
      then ok (some (record s { queue = s.queue ++ (v ∷ []) }))
      else ok none

  module _ (formats : Formats F) (io : Files F W) where
    -- One round of the writer.
    unfoldable pub write_value : Outputs → PointValue F → W → W
    write_value o v w =
        let json = if o.json then io.write_jsonl (json_object formats v) w else w in
        let csv = if o.csv then io.write_csv (csv_record formats v) json else json in
        if o.db then io.write_db (db_row v) csv else csv

    unfoldable pub flush : Outputs → W → W
    flush o w =
        let json = if o.json then io.flush_json w else w in
        if o.csv then io.flush_csv json else json

    -- The steps of Handle, Close and the writer. A value that Handle drops after its timeout found
    -- the queue full at first.
    pub data Step : Storage F W → Storage F W → Type 0 where
      accept : (s t : Storage F W) (v : PointValue F) → try_send s v ≡ ok (some t) → Step s t
      drop : (s : Storage F W) (v : PointValue F) → try_send s v ≡ ok none → Step s s
      write :
          (s : Storage F W) (v : PointValue F) (rest : List (PointValue F))
          → s.queue ≡ v ∷ rest
          → s.closed ≡ false
          → Step s (record s { queue = rest; files = write_value s.enabled v s.files })
      close : (s : Storage F W) → s.queue_closed ≡ false → Step s (record s { queue_closed = true })
      finish :
          (s : Storage F W)
          → s.queue ≡ []
          → s.queue_closed ≡ true
          → s.closed ≡ false
          → Step s (record s { closed = true; files = flush s.enabled s.files })

    pub data Run : Storage F W → Storage F W → Type 0 where
      start : (s : Storage F W) → Run s s
      next : (s t u : Storage F W) → Run s t → Step t u → Run s u

    -- The values that Handle accepted, in their order.
    unfoldable pub accepted : (s t : Storage F W) → Run s t → List (PointValue F)
    accepted _ _ (start s) = []
    accepted _ _ (next s t _ run (accept _ _ v e)) = accepted s t run ++ (v ∷ [])
    accepted _ _ (next s t _ run (drop _ v e)) = accepted s t run
    accepted _ _ (next s t _ run (write _ v rest e c)) = accepted s t run
    accepted _ _ (next s t _ run (close _ e)) = accepted s t run
    accepted _ _ (next s t _ run (finish _ e c d)) = accepted s t run
