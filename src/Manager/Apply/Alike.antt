-- ===== src/Manager/Apply/Alike.antt =====
-- The writes of the manager and of the simulator of cmd/server end alike
-- (internal/servermgr/manager.go).
use mutil_modbus.Prelude.{ℕ, ◌+◌, ◌/◌, ◌%◌, ◌≡◌, refl, ap, subst, Bool-cases, inl, inr, ◌==◌}
use mutil_modbus.Prelude.Text.{Text, text, same}
use mutil_modbus.Prelude.Float.{FloatOps}
use mutil_modbus.Go.{Go, ok, fail, panic, ◌>>=◌}
use mutil_modbus.Tcp.Server.{Server}
use mutil_modbus.Tcp.Registers.{AddressError, set_holding_register, set_input_register}
use mutil_modbus.Simulator.Replay.{
  RegisterWriter, RegisterValue, Row, Simulator, Outcome, from_writer, at_state, in_range,
  apply_value, apply_values, apply_row,
}
use mutil_modbus.Simulator.Replay
use mutil_modbus.Simulator.Replay.Laws.{server_writer, refused}
use mutil_modbus.Manager.Apply.{
  Error, Written, set_or_refused, word_of, logged, float_to_uint16, float_to_int16,
  set_register_word, set_register_float32, write_numeric_register,
}

-- The two outcomes are of one kind and leave the same server; the errors may differ in words.
abbrev pub Alike : Written → Outcome Server → Type 0
Alike (ok s) (ok t) = s ≡ t
Alike (fail e) (fail f) = e.1 ≡ f.1
Alike panic panic = Unit
Alike _ _ = ⊥

abbrev pub AlikeWords : Go (Error × Server) ℕ → Go (Replay.Error × Server) ℕ → Type 0
AlikeWords (ok s) (ok t) = s ≡ t
AlikeWords (fail e) (fail f) = e.1 ≡ f.1
AlikeWords panic panic = Unit
AlikeWords _ _ = ⊥

pub logged-Alike : (m : Written) (k : Outcome Server) → Alike m k → logged m ≡ Replay.logged k
logged-Alike (ok s) (ok t) h = ap ok h
logged-Alike (fail e) (fail f) h = ap ok h
logged-Alike panic panic h = refl
logged-Alike (ok s) (fail f) h = absurd h
logged-Alike (ok s) panic h = absurd h
logged-Alike (fail e) (ok f) h = absurd h
logged-Alike (fail e) panic h = absurd h
logged-Alike panic (ok t) h = absurd h
logged-Alike panic (fail t) h = absurd h

pub set-Alike :
    (s : Server) (r : Go AddressError Server)
    → Alike (set_or_refused s r) (from_writer s (refused r))
set-Alike s (ok t) = refl
set-Alike s (fail e) = refl
set-Alike s panic = tt

bind-Alike :
    (m : Written) (k : Outcome Server) (f : Server → Written) (g : Server → Outcome Server)
    → Alike m k
    → ((s : Server) → Alike (f s) (g s))
    → Alike (m >>= f) (k >>= g)
bind-Alike (ok s) (ok t) f g h p = subst (λ u. Alike (f s) (g u)) h (p s)
bind-Alike (fail e) (fail x) f g h p = h
bind-Alike panic panic f g h p = tt
bind-Alike (ok s) (fail x) f g h p = absurd h
bind-Alike (ok s) panic f g h p = absurd h
bind-Alike (fail e) (ok x) f g h p = absurd h
bind-Alike (fail e) panic f g h p = absurd h
bind-Alike panic (ok t) f g h p = absurd h
bind-Alike panic (fail t) f g h p = absurd h

word-Alike :
    (m : Go (Error × Server) ℕ) (k : Go (Replay.Error × Server) ℕ) (f : ℕ → Written)
    (g : ℕ → Outcome Server)
    → AlikeWords m k
    → ((w : ℕ) → Alike (f w) (g w))
    → Alike (m >>= f) (k >>= g)
word-Alike (ok s) (ok t) f g h p = subst (λ u. Alike (f s) (g u)) h (p s)
word-Alike (fail e) (fail x) f g h p = h
word-Alike panic panic f g h p = tt
word-Alike (ok s) (fail x) f g h p = absurd h
word-Alike (ok s) panic f g h p = absurd h
word-Alike (fail e) (ok x) f g h p = absurd h
word-Alike (fail e) panic f g h p = absurd h
word-Alike panic (ok t) f g h p = absurd h
word-Alike panic (fail t) f g h p = absurd h

set_register_word-Alike :
    (s : Server) (t : Text) (a w : ℕ)
    → Alike (set_register_word s t a w) (Replay.set_register_word server_writer s t a w)
unfolding set_register_word Replay.set_register_word
set_register_word-Alike s t a w = elim (Bool-cases (same t (text "holding"))) [
  | inl e ↦ rw e (set-Alike s (set_holding_register s a w))
  | inr e ↦ elim (Bool-cases (same t (text "input"))) [
    | inl i ↦ rw (e, i) (set-Alike s (set_input_register s a w))
    | inr i ↦ rw (e, i) refl
  ]
]

module _ {F : Type 0} (ops : FloatOps F) where
  uint16-Alike :
      (s : Server) (x : F)
      → AlikeWords (word_of s (float_to_uint16 ops x)) (at_state s (Replay.float_to_uint16 ops x))
  unfolding float_to_uint16 Replay.float_to_uint16
  uint16-Alike s x = elim (Bool-cases (ops.is_finite x)) [
    | inr e ↦ rw e refl
    | inl e ↦ elim (Bool-cases (in_range (ops.round_to_int x) 0 65535)) [
      | inl r ↦ rw (e, r) refl
      | inr r ↦ rw (e, r) refl
    ]
  ]

  int16-Alike :
      (s : Server) (x : F)
      → AlikeWords (word_of s (float_to_int16 ops x)) (at_state s (Replay.float_to_int16 ops x))
  unfolding float_to_int16 Replay.float_to_int16
  int16-Alike s x = elim (Bool-cases (ops.is_finite x)) [
    | inr e ↦ rw e refl
    | inl e ↦ elim (Bool-cases (in_range (ops.round_to_int x) 32768 32767)) [
      | inl r ↦ rw (e, r) refl
      | inr r ↦ rw (e, r) refl
    ]
  ]

  float32-Alike :
      (s : Server) (v : RegisterValue F) (x : F)
      → Alike
          (set_register_float32 ops s v.reg_type v.address x)
          (Replay.set_register_float32 ops server_writer s v x)
  unfolding set_register_float32 Replay.set_register_float32
  float32-Alike s v x = elim (Bool-cases (ops.is_finite x)) [
    | inr e ↦ rw e refl
    | inl e ↦ elim (Bool-cases (v.address == 65535)) [
      | inl a ↦ rw (e, a) refl
      | inr a ↦ elim (Bool-cases (ops.overflows x)) [
        | inl o ↦ rw (e, a, o) refl
        | inr o ↦
            rw (e, a, o)
              (bind-Alike (set_register_word s v.reg_type v.address (ops.to_bits x / 65536 % 65536))
                _ _ _
                (set_register_word-Alike s v.reg_type v.address (ops.to_bits x / 65536 % 65536))
                (λ t.
                  set_register_word-Alike t v.reg_type ((v.address + 1) % 65536)
                    (ops.to_bits x % 65536)))
      ]
    ]
  ]

  pub numeric-Alike :
      (s : Server) (v : RegisterValue F) (x : F)
      → Alike
          (write_numeric_register ops s v.reg_type v.address v.data_type x)
          (Replay.write_numeric_register ops server_writer s v x)
  unfolding write_numeric_register Replay.write_numeric_register
  numeric-Alike s v x = elim (Bool-cases (same v.data_type (text "uint16"))) [
    | inl u ↦ rw u (
        word-Alike (word_of s (float_to_uint16 ops x)) _ _ _ (uint16-Alike s x)
          (λ w. set_register_word-Alike s v.reg_type v.address w))
    | inr u ↦ elim (Bool-cases (same v.data_type (text "int16"))) [
      | inl i ↦
          rw (u, i)
            (word-Alike (word_of s (float_to_int16 ops x)) _ _ _ (int16-Alike s x)
              (λ w. set_register_word-Alike s v.reg_type v.address w))
      | inr i ↦ elim (Bool-cases (same v.data_type (text "float32"))) [
        | inl f ↦ rw (u, i, f) (float32-Alike s v x)
        | inr f ↦ rw (u, i, f) refl
      ]
    ]
  ]
