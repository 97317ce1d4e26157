-- ===== src/Tests/Sim.antt =====
-- The theorems on the replay and the collector at small inputs.
use mutil_modbus.Prelude.{
  ℕ, ◌+◌, ◌-◌, ◌*◌, ◌/◌, ◌≡◌, refl, true, false, [], ◌∷◌, ltb, leb, ◌==◌, arith,
}
use mutil_modbus.Prelude.Text.{text}
use mutil_modbus.Prelude.Float.{pos, negsuc, FloatOps}
use mutil_modbus.Go.{ok}
use mutil_modbus.Tcp.Server.{Server}
use mutil_modbus.Tcp.Registers.{set_holding_float32}
use mutil_modbus.Simulator.Replay.{RegisterValue, set_register_float32}
use mutil_modbus.Simulator.Replay.Laws.{server_writer, set_register_float32-server}
use mutil_modbus.Collector.Point.{raw_float32, decode_raw}
use mutil_modbus.Collector.Point.Decoding.{badc, layout, decode_raw-layout}
use mutil_modbus.Collector.Dedup.{
  ValueCache, set_value, NearOps, floats_equal, Reading, key_of, on_value,
}
use mutil_modbus.Collector.Dedup.Laws.{on_value_repeated}
use mutil_modbus.Prelude.{leb}
use mutil_modbus.Prelude.Text.{to_upper, upper_code, trim_space, trim_left, trim_right}
use mutil_modbus.Collector.Point.{raw_uint32, raw_int32}
use mutil_modbus.Go.{ok}
use mutil_modbus.Prelude.Float.{negsuc, signed}
use mutil_modbus.Go.{NoError, index}
use mutil_modbus.Simulator.Replay.{RegisterWriter, Simulator, Row, apply_values, next_row}
use mutil_modbus.Simulator.Replay.Cycle.{IsQuiet, next_row_cycle}
use mutil_modbus.Prelude.{List}

-- Whole numbers in place of float64.
abbrev pub whole : FloatOps ℕ
whole = record {
  of_int = λ i. elim i [ pos n ↦ n | negsuc n ↦ 0 ];
  of_bits = λ n. n;
  to_bits = λ n. n;
  add = λ a b. a + b;
  sub = λ a b. a - b;
  mul = λ a b. a * b;
  div = λ a b. a / b;
  is_zero = λ a. a == 0;
  is_positive = λ a. ltb 0 a;
  is_finite = λ a. true;
  overflows = λ a. leb 0xFF000000 a;
  round_to_int = λ a. pos a;
}

abbrev nearly : NearOps ℕ
nearly = record {
  equal = λ a b. a == b;
  is_zero_abs = λ a. a == 0;
  close_absolute = λ a b. a == b;
  close_relative = λ a b. a == b;
}

abbrev server : Server
server = record {
  holding_registers = 5 ∷ 6 ∷ 7 ∷ 8 ∷ [];
  input_registers = 9 ∷ [];
  coils = true ∷ [];
  discrete_inputs = [];
}

abbrev level : RegisterValue ℕ
level = record {
  reg_type = text "holding";
  address = 1;
  column = text "level";
  scale = 1;
  offset = 0;
  data_type = text "float32";
}

set_register_float32-server_example :
    (t : Server) × (set_register_float32 whole server_writer server level 0x40490FDB ≡ ok t)
    × (set_holding_float32 server 1 0x40490FDB ≡ ok t)
set_register_float32-server_example =
    set_register_float32-server whole server level 0x40490FDB refl refl refl (omega arith)
      (omega arith)

decode_raw-layout_example :
    (decode_raw whole (layout badc 0x40 0x49 0x0F 0xDB) (text "float32") (text " badc")
      ≡ ok (raw_float32 0x40490FDB, 0x40490FDB))
    × (decode_raw whole (layout badc 0x40 0x49 0x0F 0xDB) (text "uint32") (text " badc")
        ≡ ok (raw_uint32 0x40490FDB, 0x40490FDB))
    × (decode_raw whole (layout badc 0x40 0x49 0x0F 0xDB) (text "int32") (text " badc")
        ≡ ok (raw_int32 (pos 0x40490FDB), 0x40490FDB))
unfolding to_upper trim_space trim_right trim_left upper_code signed
decode_raw-layout_example = decode_raw-layout whole badc 0x40 0x49 0x0F 0xDB (text " badc") refl

abbrev cache : ValueCache ℕ
cache = record { ttl = 60; entries = [] }

abbrev reading : Reading ℕ
reading = record {
  device_id = text "d";
  point_name = text "p";
  register = text "coil";
  server_id = text "s";
  value = 7;
}

on_value_repeated_example :
    on_value nearly (λ v. true) 120 (set_value cache (key_of reading) 7 100) (reading ∷ []) reading
    ≡ record {
      cache = set_value cache (key_of reading) 7 100;
      stored = reading ∷ [];
      failed = false;
    }
unfolding floats_equal
on_value_repeated_example =
    on_value_repeated nearly (λ v. true) cache (reading ∷ []) reading reading 100 120 refl refl
      (omega arith)

-- A writer that keeps the words written, last first.
abbrev journal : RegisterWriter (List (ℕ × ℕ))
journal = record {
  set_holding_register = λ s a w. ok ((a, w) ∷ s);
  set_input_register = λ s a w. ok ((a, w) ∷ s);
  set_coil = λ s a b. ok s;
  set_discrete_input = λ s a b. ok s;
}

journal-IsQuiet : IsQuiet journal
journal-IsQuiet = record {
  holding = λ s a w. tt;
  input = λ s a w. tt;
  coil = λ s a b. tt;
  discrete = λ s a b. tt;
}

abbrev replay : Simulator ℕ (List (ℕ × ℕ))
replay = record {
  rw = [];
  values = level ∷ [];
  data_rows = ((text "level", 3) ∷ []) ∷ ((text "level", 4) ∷ []) ∷ [];
  row_index = 1;
}

next_row_cycle_example :
    (t : List (ℕ × ℕ)) × (row : Row ℕ) × (index {E = NoError} replay.data_rows 0 ≡ ok row)
    × (apply_values whole journal row [] (level ∷ []) ≡ ok t)
    × (next_row whole journal replay ≡ ok (record replay { rw = t; row_index = 0 }))
next_row_cycle_example = next_row_cycle whole journal replay journal-IsQuiet (omega arith)
