-- ===== src/Config/Print/RoundTrip.antt =====
-- A configuration that is written out is read back by Load (internal/config/config.go).
use mutil_modbus.Prelude.{
  ℕ, ◌+◌, ◌≡◌, refl, append-nil, append_assoc, ◌∙◌, false, List, [], ◌∷◌, ◌++◌, some, ◌==◌, All,
  arith, length,
}
use mutil_modbus.Prelude.Text.{Text, text}
use mutil_modbus.Go.{ok}
use mutil_modbus.Simulator.Load.{RegisterConfig}
use mutil_modbus.Config.{
  Floats, Config, no_config, no_settings, assign_root, assign_server, assign_register, new_register,
}
use mutil_modbus.Config.Parse.{Reader, bare, read_bare, read_lines, load, complete}
use mutil_modbus.Config.Print.{
  entries, print_nat, settings_entries, root_entries, register_entries, print_registers, print,
}
use mutil_modbus.Config.Print.Numbers.{parse_uint-print_nat}
use mutil_modbus.Config.Print.Values.{
  IsWordText, quoted-IsValue, parse_string-quoted, word-IsValue, parse_string-word,
  print_nat-IsWordText,
}
use mutil_modbus.Config.Print.Sections.{
  at_root, at_server, at_client, at_register, root_law, server_law, client_law, register_law,
  server_header, client_header, registers_header,
}
use mutil_modbus.Config.Print.Entries.{IsEntry, assign_all, read_entries}
use mutil_modbus.Config.Print.Printable.{IsPrintableRegister, IsPrintableConfig}
use mutil_modbus.Config.Print.Assigned.{
  settings-assigned, settings-IsEntry, root-assigned, root-IsEntry,
}

-- A printed float is one word, and is read back.
pub record Prints {F : Type 0} (floats : Floats F) (print_float : F → Text) : Type 0 where
  pub is_word : (x : F) → IsWordText (print_float x)
  pub reads_back : (x : F) → floats.parse_float (print_float x) ≡ some x

module _ {F : Type 0} (floats : Floats F) (print_float : F → Text)
    (h : Prints floats print_float) where
  register-assigned :
      (r : RegisterConfig F)
      → IsPrintableRegister r
      → assign_all (assign_register floats) (new_register floats) (register_entries print_float r)
        ≡ ok r
  unfolding assign_register
  register-assigned r p =
      rw
        (
          parse_string-quoted r.type p.type,
          p.type_lower,
          parse_string-word (print_nat r.address) (print_nat-IsWordText r.address),
          parse_uint-print_nat 65536 r.address p.address,
          parse_string-quoted r.csv_column p.csv_column,
          parse_string-word (print_float r.scale) (h.is_word r.scale),
          h.reads_back r.scale,
          parse_string-word (print_float r.offset) (h.is_word r.offset),
          h.reads_back r.offset,
          parse_string-quoted r.data_type p.data_type,
          p.data_type_lower,
        )
        refl

  register-IsEntry :
      (r : RegisterConfig F) → IsPrintableRegister r → All IsEntry (register_entries print_float r)
  register-IsEntry r p = (
    (refl, quoted-IsValue r.type p.type),
    (
      (refl, word-IsValue (print_nat r.address) (print_nat-IsWordText r.address)),
      (
        (refl, quoted-IsValue r.csv_column p.csv_column),
        (
          (refl, word-IsValue (print_float r.scale) (h.is_word r.scale)),
          (
            (refl, word-IsValue (print_float r.offset) (h.is_word r.offset)),
            ((refl, quoted-IsValue r.data_type p.data_type), tt),
          ),
        ),
      ),
    ),
  )

  -- The registers behind those that are read.
  registers_read :
      (n : ℕ) (cfg : Config F) (known rs : List (RegisterConfig F)) (section : Text)
      → All (λ r. IsPrintableRegister r) rs
      → (last : Text) × (read_lines floats n
            (print_registers print_float rs)
            (record { config = record cfg { registers = known }; section = section })
          ≡ ok (record { config = record cfg { registers = known ++ rs }; section = last }))
  unfolding read_lines
  registers_read n cfg known [] section p = (section, rw (append-nil known) refl)
  registers_read n cfg known (r ∷ rs) section p =
      let (last, e) =
        registers_read (n + 1 + 6) cfg (known ++ (r ∷ [])) rs (text "registers") p.1 in
      (
        last,
        rw (registers_header floats (n + 1) (record cfg { registers = known }) section) (
            read_entries floats (at_register cfg known) (assign_register floats)
              (register_law floats cfg known) (n + 1) (register_entries print_float r)
              (print_registers print_float rs) (new_register floats) r (register-IsEntry r p.0)
              (register-assigned r p.0)
            ∙ rw (append_assoc known (r ∷ []) rs) at e),
      )

  header_lem :
      (n : ℕ) (line : Text) (rest : List Text) (st next : Reader F)
      → read_bare floats (n + 1) (bare line) st ≡ ok next
      → read_lines floats n (line ∷ rest) st ≡ read_lines floats (n + 1) rest next
  unfolding read_lines
  header_lem n line rest st next e = rw e refl

  read_lines-print :
      (cfg : Config F)
      → IsPrintableConfig cfg
      → (last : Text) × (read_lines floats 0 (print print_float cfg) (at_root no_config)
          ≡ ok (record { config = cfg; section = last }))
  unfolding print
  read_lines-print cfg p =
      let cfg1 : Config F = record no_config {
        csv_file = cfg.csv_file;
        update_interval = cfg.update_interval;
      } in
      let cfg2 : Config F = record cfg1 { server = cfg.server } in
      let cfg3 : Config F = record cfg2 { client = cfg.client } in
      let clients : List Text =
        entries (settings_entries cfg.client) ++ print_registers print_float cfg.registers in
      let servers : List Text =
        entries (settings_entries cfg.server) ++ (text "[client]" ∷ clients) in
      let (last, e3) = registers_read 22 cfg3 [] cfg.registers (text "client") p.registers in
      let e2 =
        read_entries floats (at_client cfg2) assign_server (client_law floats cfg2) 13
          (settings_entries cfg.client) (print_registers print_float cfg.registers) no_settings
          cfg.client (settings-IsEntry cfg.client p.client)
          (settings-assigned cfg.client p.client) in
      let e1 =
        read_entries floats (at_server cfg1) assign_server (server_law floats cfg1) 3
          (settings_entries cfg.server) (text "[client]" ∷ clients) no_settings cfg.server
          (settings-IsEntry cfg.server p.server) (settings-assigned cfg.server p.server) in
      let e0 =
        read_entries floats at_root assign_root (root_law floats) 0 (root_entries cfg)
          (text "[server]" ∷ servers) no_config cfg1 (root-IsEntry cfg p) (root-assigned cfg p) in
      (
        last,
        e0
            ∙ header_lem 2 (text "[server]") servers (at_root cfg1) (at_server cfg1 no_settings)
                (server_header floats 3 cfg1 [])
            ∙ e1
            ∙ header_lem 12 (text "[client]") clients (at_server cfg1 cfg.server)
                (at_client cfg2 no_settings) (client_header floats 13 cfg2 (text "server"))
            ∙ e2
            ∙ e3,
      )

  -- A configuration whose entries can stand in a file is read back as it is from the file that it is
  -- written to: for texts without quotes, `#` and line feeds, with the case-folded ones in their
  -- case, numbers of their width, at least one register, and a CSV file, a listen address and an
  -- interval that are set.
  pub load-print :
      (cfg : Config F)
      → IsPrintableConfig cfg
      → load floats (some (record { lines = print print_float cfg; broken = false })) ≡ ok cfg
  unfolding load complete
  load-print cfg p =
      let (last, e) = read_lines-print cfg p in
      let z : (length cfg.registers == 0) ≡ false = ground (arith, p.registers_set) in
      rw (e, p.listen_address_set, p.update_interval_set, p.csv_file_set, z) refl
