-- ===== src/Tests/Config.antt =====
-- The theorems on the reader of the settings at small files.
use mutil_modbus.Prelude.{
  ◌≡◌, refl, Bool, true, false, not, ◌&&◌, ◌||◌, [], ◌∷◌, some, none, ◌==◌, if◌then◌else◌, arith,
}
use mutil_modbus.Prelude.Text.{Text, text, same, to_lower, to_upper, lower_code, upper_code}
use mutil_modbus.Prelude.Float.{pos, negsuc}
use mutil_modbus.Go.{ok, Outcome}
use mutil_modbus.Config.{Floats, Config, ServerSettings, no_settings}
use mutil_modbus.Config.Parse.{File, load}
use mutil_modbus.Config.Parse.Laws.{IsComplete, IsReported, load-Outcome}
use mutil_modbus.Config.Print.{print}
use mutil_modbus.Config.Print.Values.{IsClean, IsWordText}
use mutil_modbus.Config.Print.RoundTrip.{load-print}
use mutil_modbus.Config.Print.Printable.{IsPrintable, IsPrintableConfig}

-- Two floats, written 1 and 0.
abbrev two_floats : Floats Bool
two_floats = record {
  parse_float =
      λ s. if same s (text "1") then some true else if same s (text "0") then some false else none;
  zero = false;
  one = true;
}

abbrev show_float : Bool → Text
show_float true = text "1"
show_float false = text "0"

show_float-IsWordText : (x : Bool) → IsWordText (show_float x)
show_float-IsWordText true = (refl, (refl, tt))
show_float-IsWordText false = (refl, (refl, tt))

show_float-parsed : (x : Bool) → two_floats.parse_float (show_float x) ≡ some x
show_float-parsed true = refl
show_float-parsed false = refl

abbrev all_clean : Text → Bool
all_clean [] = true
all_clean (c ∷ s) = not ((c == 34) || (c == 35) || (c == 10)) && all_clean s

clean : (s : Text) → all_clean s ≡ true → IsClean s
clean [] h = tt
clean (c ∷ s) h = (ground (arith, h), clean s (ground (arith, h)))

abbrev serial : ServerSettings
serial = record no_settings {
  listen_address = text ":1502";
  mode = text "rtu";
  serial_port = text " COM 3";
  baud_rate = pos 19200;
  slave_id = negsuc 4;
  parity = text "E";
}

abbrev sample : Config Bool
sample = record {
  server = serial;
  client = no_settings;
  registers =
      record {
        type = text "holding";
        address = 40001;
        csv_column = text "a=b";
        scale = true;
        offset = false;
        data_type = [];
      }
      ∷ [];
  csv_file = text "data.csv";
  update_interval = text "2s";
}

serial-IsPrintable : IsPrintable serial
unfolding to_lower to_upper lower_code upper_code
serial-IsPrintable = record {
  listen_address = clean (text ":1502") refl;
  mode = clean (text "rtu") refl;
  mode_lower = refl;
  serial_port = clean (text " COM 3") refl;
  baud_rate = omega arith;
  data_bits = omega arith;
  stop_bits = omega arith;
  parity = clean (text "E") refl;
  parity_upper = refl;
  slave_id = omega arith;
  update_interval = tt;
}

no_settings-IsPrintable : IsPrintable no_settings
unfolding to_lower to_upper
no_settings-IsPrintable = record {
  listen_address = tt;
  mode = tt;
  mode_lower = refl;
  serial_port = tt;
  baud_rate = omega arith;
  data_bits = omega arith;
  stop_bits = omega arith;
  parity = tt;
  parity_upper = refl;
  slave_id = omega arith;
  update_interval = tt;
}

sample-IsPrintableConfig : IsPrintableConfig sample
unfolding to_lower lower_code
sample-IsPrintableConfig = record {
  server = serial-IsPrintable;
  client = no_settings-IsPrintable;
  registers = (
    record {
      type = clean (text "holding") refl;
      type_lower = refl;
      address = omega arith;
      csv_column = clean (text "a=b") refl;
      data_type = tt;
      data_type_lower = refl;
    },
    tt,
  );
  csv_file = clean (text "data.csv") refl;
  update_interval = clean (text "2s") refl;
  csv_file_set = refl;
  listen_address_set = refl;
  update_interval_set = refl;
  registers_set = omega arith;
}

load-print_example :
    load two_floats (some (record { lines = print show_float sample; broken = false })) ≡ ok sample
load-print_example =
    load-print two_floats show_float
      (record { is_word = show_float-IsWordText; reads_back = show_float-parsed }) sample
      sample-IsPrintableConfig

abbrev messy : File
messy = record {
  lines =
      text "csv_file = data.csv   # the data"
      ∷ text ""
      ∷ text "  [[registers]]"
      ∷ text "address = 70000"
      ∷ [];
  broken = false;
}

load-Outcome_example : Outcome IsComplete (IsReported 0 4) (load two_floats (some messy))
load-Outcome_example = load-Outcome two_floats (some messy)
