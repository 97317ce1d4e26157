-- ===== src/Config/Print/Sections.antt =====
-- The sections of a configuration file: which assignments each one makes, and what its header does
-- (the switch and the section branch of Load in internal/config/config.go).
use mutil_modbus.Prelude.{
  ℕ, ◌≡◌, refl, false, List, [], ◌∷◌, ◌++◌, ◌==◌, arith, length, length-append,
}
use mutil_modbus.Prelude.Text.{
  trim_space, trim_left, trim_right, before, ends, trim_codes, drop_left, drop_right, Text, text,
}
use mutil_modbus.Go.{Go, ok, fail, panic, ◌>>=◌}
use mutil_modbus.Simulator.Load.{RegisterConfig}
use mutil_modbus.Config.{
  Floats, KeyError, Config, ServerSettings, assign_root, assign_server, assign_register,
  new_register,
}
use mutil_modbus.Config.Parse.{
  Reader, bare, read_bare, assign, assign_last, wrapped, open_section, section_of,
}

-- The reader in each section, with the part that the section assigns.
abbrev pub at_root : {F : Type 0} → Config F → Reader F
at_root cfg = record { config = cfg; section = [] }

abbrev pub at_server : {F : Type 0} → Config F → ServerSettings → Reader F
at_server cfg s = record { config = record cfg { server = s }; section = text "server" }

abbrev pub at_client : {F : Type 0} → Config F → ServerSettings → Reader F
at_client cfg s = record { config = record cfg { client = s }; section = text "client" }

abbrev pub at_register :
    {F : Type 0} → Config F → List (RegisterConfig F) → RegisterConfig F → Reader F
at_register cfg regs r = record {
  config = record cfg { registers = regs ++ (r ∷ []) };
  section = text "registers";
}

module _ {F : Type 0} (floats : Floats F) where
  pub root_law :
      (n : ℕ) (key value : Text) (cfg : Config F)
      → assign floats n key value (at_root cfg) ≡ wrapped n (assign_root cfg key value) at_root
  unfolding assign
  root_law n key value cfg = refl

  pub server_law :
      (cfg : Config F) (n : ℕ) (key value : Text) (s : ServerSettings)
      → assign floats n key value (at_server cfg s)
        ≡ wrapped n (assign_server s key value) (at_server cfg)
  unfolding assign
  server_law cfg n key value s = refl

  pub client_law :
      (cfg : Config F) (n : ℕ) (key value : Text) (s : ServerSettings)
      → assign floats n key value (at_client cfg s)
        ≡ wrapped n (assign_server s key value) (at_client cfg)
  unfolding assign
  client_law cfg n key value s = refl

  wrapped-snoc :
      {A B : Type 0} (n : ℕ) (m : Go KeyError A) (f : A → B) (g : B → Reader F)
      → wrapped n (m >>= λ a. ok (f a)) g ≡ wrapped n m (λ a. g (f a))
  wrapped-snoc n (ok a) f g = refl
  wrapped-snoc n (fail e) f g = refl
  wrapped-snoc n panic f g = refl

  bind_ok :
      {A B C : Type 0} (m : Go KeyError A) (f : A → B) (g : B → C)
      → (m >>= λ a. ok (f a)) >>= (λ b. ok (g b)) ≡ (m >>= λ a. ok (g (f a)))
  bind_ok (ok a) f g = refl
  bind_ok (fail e) f g = refl
  bind_ok panic f g = refl

  assign_last-snoc :
      (regs : List (RegisterConfig F)) (r : RegisterConfig F) (key value : Text)
      → assign_last floats (regs ++ (r ∷ [])) key value
        ≡ (assign_register floats r key value >>= λ v. ok (regs ++ (v ∷ [])))
  unfolding assign_last
  assign_last-snoc [] r key value = refl
  assign_last-snoc (q ∷ []) r key value = bind_ok (assign_register floats r key value) _ _
  assign_last-snoc (q ∷ p ∷ regs) r key value =
      rw (assign_last-snoc (p ∷ regs) r key value)
        (bind_ok (assign_register floats r key value) _ _)

  pub register_law :
      (cfg : Config F) (regs : List (RegisterConfig F)) (n : ℕ) (key value : Text)
      (r : RegisterConfig F)
      → assign floats n key value (at_register cfg regs r)
        ≡ wrapped n (assign_register floats r key value) (at_register cfg regs)
  unfolding assign
  register_law cfg regs n key value r =
      let z : (length (regs ++ (r ∷ [])) == 0) ≡ false =
        ground (arith, length-append regs (r ∷ [])) in
      rw (z, assign_last-snoc regs r key value)
        (wrapped-snoc n (assign_register floats r key value) _ _)

  pub server_header :
      (n : ℕ) (cfg : Config F) (section : Text)
      → read_bare floats n (bare (text "[server]")) (record { config = cfg; section = section })
        ≡ ok (at_server cfg cfg.server)
  unfolding read_bare bare open_section section_of trim_space trim_left trim_right before ends
      trim_codes drop_left drop_right
  server_header n cfg section = refl

  pub client_header :
      (n : ℕ) (cfg : Config F) (section : Text)
      → read_bare floats n (bare (text "[client]")) (record { config = cfg; section = section })
        ≡ ok (at_client cfg cfg.client)
  unfolding read_bare bare open_section section_of trim_space trim_left trim_right before ends
      trim_codes drop_left drop_right
  client_header n cfg section = refl

  pub registers_header :
      (n : ℕ) (cfg : Config F) (section : Text)
      → read_bare floats n
          (bare (text "[[registers]]"))
          (record { config = cfg; section = section })
        ≡ ok (at_register cfg cfg.registers (new_register floats))
  unfolding read_bare bare open_section section_of trim_space trim_left trim_right before ends
      trim_codes drop_left drop_right
  registers_header n cfg section = refl
