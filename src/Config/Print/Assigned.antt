-- ===== src/Config/Print/Assigned.antt =====
-- The entries of the settings are assigned as they are (assignServer and assignRoot of
-- internal/config/config.go).
use mutil_modbus.Prelude.{◌≡◌, refl, some, All}
use mutil_modbus.Prelude.Float.{ℤ}
use mutil_modbus.Go.{ok}
use mutil_modbus.Config.{
  parse_string, parse_int32, Config, ServerSettings, no_config, no_settings, assign_root,
  assign_server,
}
use mutil_modbus.Config.Print.{print_int, settings_entries, root_entries}
use mutil_modbus.Config.Print.Numbers.{parse_int32-print_int, IsInt32}
use mutil_modbus.Config.Print.Lines.{IsValue}
use mutil_modbus.Config.Print.Values.{
  quoted-IsValue, parse_string-quoted, word-IsValue, parse_string-word, print_int-IsWordText,
}
use mutil_modbus.Config.Print.Entries.{IsEntry, assign_all}
use mutil_modbus.Config.Print.Printable.{IsPrintable, IsPrintableConfig}

printed_int : (z : ℤ) → IsInt32 z → parse_int32 (parse_string (print_int z)) ≡ some z
printed_int z h =
    rw (parse_string-word (print_int z) (print_int-IsWordText z)) (parse_int32-print_int z h)

pub settings-assigned :
    (s : ServerSettings)
    → IsPrintable s
    → assign_all assign_server no_settings (settings_entries s) ≡ ok s
unfolding assign_server
settings-assigned s h =
    rw
      (
        parse_string-quoted s.listen_address h.listen_address,
        parse_string-quoted s.mode h.mode,
        h.mode_lower,
        parse_string-quoted s.serial_port h.serial_port,
        printed_int s.baud_rate h.baud_rate,
        printed_int s.data_bits h.data_bits,
        printed_int s.stop_bits h.stop_bits,
        parse_string-quoted s.parity h.parity,
        h.parity_upper,
        printed_int s.slave_id h.slave_id,
        parse_string-quoted s.update_interval h.update_interval,
      )
      refl

pub settings-IsEntry : (s : ServerSettings) → IsPrintable s → All IsEntry (settings_entries s)
settings-IsEntry s h = (
  (refl, quoted-IsValue s.listen_address h.listen_address),
  (
    (refl, quoted-IsValue s.mode h.mode),
    (
      (refl, quoted-IsValue s.serial_port h.serial_port),
      (
        (refl, number s.baud_rate),
        (
          (refl, number s.data_bits),
          (
            (refl, number s.stop_bits),
            (
              (refl, quoted-IsValue s.parity h.parity),
              (
                (refl, number s.slave_id),
                ((refl, quoted-IsValue s.update_interval h.update_interval), tt),
              ),
            ),
          ),
        ),
      ),
    ),
  ),
)
  where
    number : (z : ℤ) → IsValue (print_int z)
    number z = word-IsValue (print_int z) (print_int-IsWordText z)

pub root-assigned :
    {F : Type 0} (cfg : Config F)
    → IsPrintableConfig cfg
    → assign_all (assign_root {F = F}) no_config (root_entries cfg)
      ≡ ok (record no_config { csv_file = cfg.csv_file; update_interval = cfg.update_interval })
unfolding assign_root
root-assigned cfg p =
    rw
      (
        parse_string-quoted cfg.csv_file p.csv_file,
        parse_string-quoted cfg.update_interval p.update_interval,
      )
      refl

pub root-IsEntry :
    {F : Type 0} (cfg : Config F) → IsPrintableConfig cfg → All IsEntry (root_entries cfg)
root-IsEntry cfg p = (
  (refl, quoted-IsValue cfg.csv_file p.csv_file),
  ((refl, quoted-IsValue cfg.update_interval p.update_interval), tt),
)
