-- ===== src/Manager/Run/Tables.antt =====
-- What the manager's writes keep of a server's tables (internal/servermgr/manager.go).
use mutil_modbus.Prelude.{
  ℕ, ◌<◌, ◌≡◌, ◌∙◌, Bool, false, length, length-set, Bool-cases, inl, inr, leb, arith, All-set,
  All-replicate, length-replicate,
}
use mutil_modbus.Go.{Go, ok, fail, panic, ◌>>=◌, assign-eq_ok, IsWord, Ensures}
use mutil_modbus.Tcp.Server.{Server, IsValid, new_server}
use mutil_modbus.Tcp.Registers.{
  AddressError, set_holding_register, set_input_register, set_coil, set_discrete_input,
}
use mutil_modbus.Manager.Apply.{Written, set_or_refused, logged}

-- The four tables of a server as NewServer makes them, with words in the registers.
pub record IsFull (s : Server) : Type 0 where
  pub valid : IsValid s
  pub holding : length s.holding_registers ≡ 65536
  pub input : length s.input_registers ≡ 65536
  pub coils : length s.coils ≡ 65536
  pub discrete : length s.discrete_inputs ≡ 65536

pub new_server-IsFull : IsFull new_server
unfolding new_server
new_server-IsFull = record {
  valid = record {
    holding_words = All-replicate IsWord 65536 0 (omega arith);
    input_words = All-replicate IsWord 65536 0 (omega arith);
  };
  holding = length-replicate {A = ℕ} 65536 0;
  input = length-replicate {A = ℕ} 65536 0;
  coils = length-replicate {A = Bool} 65536 false;
  discrete = length-replicate {A = Bool} 65536 false;
}

-- The write ends with a full server, also when it is refused.
abbrev pub Keeps : Written → Type 0
Keeps (ok t) = IsFull t
Keeps (fail e) = IsFull e.1
Keeps panic = ⊥

pub set-Keeps :
    (s : Server) (m : Go AddressError Server)
    → IsFull s
    → Ensures IsFull m
    → Keeps (set_or_refused s m)
set-Keeps s (ok t) f h = h
set-Keeps s (fail e) f h = f
set-Keeps s panic f h = h

pub logged-Ensures : (m : Written) → Keeps m → Ensures IsFull (logged m)
logged-Ensures (ok t) h = h
logged-Ensures (fail e) h = h
logged-Ensures panic h = h

pub bind-Keeps :
    (m : Written) (f : Server → Written)
    → Keeps m
    → ((t : Server) → IsFull t → Keeps (f t))
    → Keeps (m >>= f)
bind-Keeps (ok t) f h k = k t h
bind-Keeps (fail e) f h k = h
bind-Keeps panic f h k = h

pub holding_lem :
    (s : Server) (a w : ℕ) → IsFull s → w < 65536 → Ensures IsFull (set_holding_register s a w)
unfolding set_holding_register
holding_lem s a w f l = elim (Bool-cases (leb (length s.holding_registers) a)) [
  | inl e ↦ rw e tt
  | inr e ↦
      rw (e, assign-eq_ok {E = AddressError} s.holding_registers a w (ground (arith, e)))
        (record {
          valid = record {
            holding_words = All-set IsWord s.holding_registers a w f.valid.holding_words l;
            input_words = f.valid.input_words;
          };
          holding = length-set s.holding_registers a w ∙ f.holding;
          input = f.input;
          coils = f.coils;
          discrete = f.discrete;
        })
]

pub input_lem :
    (s : Server) (a w : ℕ) → IsFull s → w < 65536 → Ensures IsFull (set_input_register s a w)
unfolding set_input_register
input_lem s a w f l = elim (Bool-cases (leb (length s.input_registers) a)) [
  | inl e ↦ rw e tt
  | inr e ↦
      rw (e, assign-eq_ok {E = AddressError} s.input_registers a w (ground (arith, e)))
        (record {
          valid = record {
            holding_words = f.valid.holding_words;
            input_words = All-set IsWord s.input_registers a w f.valid.input_words l;
          };
          holding = f.holding;
          input = length-set s.input_registers a w ∙ f.input;
          coils = f.coils;
          discrete = f.discrete;
        })
]

pub coil_lem : (s : Server) (a : ℕ) (b : Bool) → IsFull s → Ensures IsFull (set_coil s a b)
unfolding set_coil
coil_lem s a b f = elim (Bool-cases (leb (length s.coils) a)) [
  | inl e ↦ rw e tt
  | inr e ↦
      rw (e, assign-eq_ok {E = AddressError} s.coils a b (ground (arith, e)))
        (record {
          valid = record {
            holding_words = f.valid.holding_words;
            input_words = f.valid.input_words;
          };
          holding = f.holding;
          input = f.input;
          coils = length-set s.coils a b ∙ f.coils;
          discrete = f.discrete;
        })
]

pub discrete_lem :
    (s : Server) (a : ℕ) (b : Bool) → IsFull s → Ensures IsFull (set_discrete_input s a b)
unfolding set_discrete_input
discrete_lem s a b f = elim (Bool-cases (leb (length s.discrete_inputs) a)) [
  | inl e ↦ rw e tt
  | inr e ↦
      rw (e, assign-eq_ok {E = AddressError} s.discrete_inputs a b (ground (arith, e)))
        (record {
          valid = record {
            holding_words = f.valid.holding_words;
            input_words = f.valid.input_words;
          };
          holding = f.holding;
          input = f.input;
          coils = f.coils;
          discrete = length-set s.discrete_inputs a b ∙ f.discrete;
        })
]
