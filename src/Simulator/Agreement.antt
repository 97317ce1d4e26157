-- ===== src/Simulator/Agreement.antt =====
-- The simulator's RTU endpoint does what the mock device does for any slave.
use mutil_modbus.Prelude.{
  ℕ, zero, suc, ◌≡◌, refl, Option, none, some, get_or, List, [], ◌∷◌, ◌++◌, Bool, true, false,
  if◌then◌else◌, ltb, leb, ◌==◌, ◌&&◌, ◌||◌, length, not, ◌+◌, drop, take,
}
use mutil_modbus.Go.{Go, ok, fail, panic, Bytes, ◌>>=◌, fail_if, be16, index, read_full}
use mutil_modbus.Rtu.Crc.{crc16_modbus}
use mutil_modbus.Mocktty.Store.{Store}
use mutil_modbus.Mocktty.Pdu.{
  Error, invalid_pdu, invalid_pdu_len, read_bits, read_regs, write_single_coil, write_single_reg,
  coil_value, write_multiple_coils, write_multiple_regs, exception, read_answer, write_answer,
  with_coils, with_holding, short_request, long_request, handle_rtu_pdu,
}
use mutil_modbus.Mocktty.Stream.{
  Round, closed, skipped, answered, crashed, respond, check, short_frame, long_frame, round,
  Session, ended, fault, out_of_fuel, handle_stream, le16,
}
use mutil_modbus.Simulator.RtuStore.{RtuStore}
use mutil_modbus.Simulator.RtuPdu.{
  rtu_read_bits, rtu_read_regs, rtu_write_single_coil, rtu_write_single_reg, payload_coil,
  rtu_write_multiple_coils, rtu_write_multiple_regs, rtu_exception, rtu_read_answer,
  rtu_write_answer, set_coils, set_holding, rtu_short_request, rtu_long_request, handle_request,
}
use mutil_modbus.Simulator.RtuStream.{
  RtuRound, stopped, dropped, replied, failed, rtu_respond, rtu_check, rtu_short_frame,
  rtu_long_frame, rtu_round, RtuSession, over, crash, unfinished, rtu_stream,
}

-- The same registers in the simulator's record.
abbrev pub as_rtu : Store → RtuStore
as_rtu st = record {
  coils = st.coils;
  discretes = st.discrete_inputs;
  holding = st.holding;
  input = st.input;
}

abbrev pub as_answer : Go Error (Store × Bytes) → Go Error (RtuStore × Bytes)
as_answer (ok (st, response)) = ok (as_rtu st, response)
as_answer (fail e) = fail e
as_answer panic = panic

abbrev pub as_session : Session → RtuSession
as_session (ended st out) = over (as_rtu st) out
as_session fault = crash
as_session out_of_fuel = unfinished

abbrev pub as_round : Round → RtuRound
as_round closed = stopped
as_round (skipped rest) = dropped rest
as_round (answered st rest response) = replied (as_rtu st) rest response
as_round crashed = failed

read_answer-as_rtu :
    (fn : ℕ) (st : Store) (r : Go Error Bytes)
    → rtu_read_answer fn (as_rtu st) r ≡ as_answer (read_answer fn st r)
unfolding rtu_read_answer read_answer rtu_exception exception
read_answer-as_rtu fn st (ok c) = refl
read_answer-as_rtu fn st (fail e) = refl
read_answer-as_rtu fn st panic = refl

coils_answer-as_rtu :
    (fn : ℕ) (st : Store) (head : Bytes) (r : Go Error (List Bool))
    → rtu_write_answer fn (as_rtu st) (set_coils (as_rtu st)) head r
      ≡ as_answer (write_answer fn st (with_coils st) head r)
unfolding rtu_write_answer write_answer rtu_exception exception set_coils with_coils
coils_answer-as_rtu fn st head (ok c) = refl
coils_answer-as_rtu fn st head (fail e) = refl
coils_answer-as_rtu fn st head panic = refl

holding_answer-as_rtu :
    (fn : ℕ) (st : Store) (head : Bytes) (r : Go Error (List ℕ))
    → rtu_write_answer fn (as_rtu st) (set_holding (as_rtu st)) head r
      ≡ as_answer (write_answer fn st (with_holding st) head r)
unfolding rtu_write_answer write_answer rtu_exception exception set_holding with_holding
holding_answer-as_rtu fn st head (ok c) = refl
holding_answer-as_rtu fn st head (fail e) = refl
holding_answer-as_rtu fn st head panic = refl

bind-as_answer :
    {A : Type 0} (m : Go Error A) (f : A → Go Error (Store × Bytes))
    (g : A → Go Error (RtuStore × Bytes))
    → ((a : A) → g a ≡ as_answer (f a))
    → m >>= g ≡ as_answer (m >>= f)
bind-as_answer (ok a) f g h = h a
bind-as_answer (fail e) f g h = refl
bind-as_answer panic f g h = refl

if-as_answer :
    (b : Bool) (x x' : Go Error (RtuStore × Bytes)) (y y' : Go Error (Store × Bytes))
    → x ≡ as_answer y
    → x' ≡ as_answer y'
    → (if b then x else x') ≡ as_answer (if b then y else y')
if-as_answer true x x' y y' h k = h
if-as_answer false x x' y y' h k = k

if-as_round :
    (b : Bool) (x x' : RtuRound) (y y' : Round)
    → x ≡ as_round y
    → x' ≡ as_round y'
    → (if b then x else x') ≡ as_round (if b then y else y')
if-as_round true x x' y y' h k = h
if-as_round false x x' y y' h k = k

short_request-as_rtu :
    (st : Store) (fn : ℕ) (pdu : Bytes)
    → rtu_short_request (as_rtu st) fn pdu ≡ as_answer (short_request st fn pdu)
unfolding rtu_short_request short_request rtu_read_bits read_bits rtu_read_regs read_regs
    rtu_write_single_coil write_single_coil rtu_write_single_reg write_single_reg
short_request-as_rtu st fn pdu =
    bind-as_answer (fail_if {E = Error} (ltb (length pdu) 5) invalid_pdu) _ _ (λ _.
      bind-as_answer (be16 {E = Error} pdu 1) _ _ (λ a.
        bind-as_answer (be16 {E = Error} pdu 3) _ _ (λ b.
          if-as_answer (fn == 1) _ _ _ _ (read_answer-as_rtu fn st (read_bits st.coils a b)) (
            if-as_answer (fn == 2) _ _ _ _
              (read_answer-as_rtu fn st (read_bits st.discrete_inputs a b))
              (if-as_answer (fn == 3) _ _ _ _ (read_answer-as_rtu fn st (read_regs st.holding a b))
                (if-as_answer (fn == 4) _ _ _ _ (read_answer-as_rtu fn st (read_regs st.input a b))
                  (if-as_answer (fn == 5) _ _ _ _
                    (coils_answer-as_rtu fn st _ (write_single_coil st.coils a b))
                    (holding_answer-as_rtu fn st _ (write_single_reg st.holding a b)))))))))

long_request-as_rtu :
    (st : Store) (fn : ℕ) (pdu : Bytes)
    → rtu_long_request (as_rtu st) fn pdu ≡ as_answer (long_request st fn pdu)
unfolding rtu_long_request long_request rtu_write_multiple_coils write_multiple_coils
    rtu_write_multiple_regs write_multiple_regs payload_coil coil_value
long_request-as_rtu st fn pdu =
    bind-as_answer (fail_if {E = Error} (ltb (length pdu) 6) invalid_pdu) _ _ (λ _.
      bind-as_answer (be16 {E = Error} pdu 1) _ _ (λ a.
        bind-as_answer (be16 {E = Error} pdu 3) _ _ (λ b.
          bind-as_answer (index {E = Error} pdu 5) _ _ (λ bc.
            bind-as_answer (fail_if {E = Error} (not (length pdu == 6 + bc)) invalid_pdu_len) _ _
              (λ _.
                if-as_answer (fn == 15) _ _ _ _
                  (coils_answer-as_rtu fn st _ (write_multiple_coils st.coils a b (drop 6 pdu)))
                  (holding_answer-as_rtu fn st _
                    (write_multiple_regs st.holding a b (drop 6 pdu))))))))

-- The simulator's handler answers a request as the mock device's does, and leaves the same
-- registers, errors and panics included.
pub handle_request-as_rtu :
    (st : Store) (pdu : Bytes) → handle_request (as_rtu st) pdu ≡ as_answer (handle_rtu_pdu st pdu)
unfolding handle_request handle_rtu_pdu
handle_request-as_rtu st [] = refl
handle_request-as_rtu st (fn ∷ rest) =
    if-as_answer (leb 1 fn && leb fn 6) _ _ _ _ (short_request-as_rtu st fn (fn ∷ rest))
      (if-as_answer (fn == 15 || fn == 16) _ _ _ _ (long_request-as_rtu st fn (fn ∷ rest)) refl)

respond-as_rtu :
    (st : Store) (address : ℕ) (rest : Bytes) (r : Go Error (Store × Bytes))
    → rtu_respond (as_rtu st) address rest (as_answer r) ≡ as_round (respond st address rest r)
unfolding rtu_respond respond
respond-as_rtu st address rest (ok (st', response)) = refl
respond-as_rtu st address rest (fail e) = refl
respond-as_rtu st address rest panic = refl

check-as_rtu :
    (st : Store) (address : ℕ) (pdu crc rest : Bytes)
    → rtu_check (as_rtu st) address pdu crc rest ≡ as_round (check st 0 address pdu crc rest)
unfolding rtu_check check
check-as_rtu st address pdu crc rest =
    if-as_round (not (crc16_modbus (address ∷ pdu) == le16 crc)) _ _ _ _ refl
      (rw (handle_request-as_rtu st pdu) (respond-as_rtu st address rest (handle_rtu_pdu st pdu)))

read-as_round :
    (m : Option (Bytes × Bytes)) (f : Bytes → Bytes → Round) (g : Bytes → Bytes → RtuRound)
    → ((body rest : Bytes) → g body rest ≡ as_round (f body rest))
    → elim m [ none ↦ stopped | some (body, rest) ↦ g body rest ]
      ≡ as_round (elim m [ none ↦ closed | some (body, rest) ↦ f body rest ])
read-as_round none f g h = refl
read-as_round (some (body, rest)) f g h = h body rest

short_frame-as_rtu :
    (st : Store) (address fn : ℕ) (input : Bytes)
    → rtu_short_frame (as_rtu st) address fn input ≡ as_round (short_frame st 0 address fn input)
unfolding rtu_short_frame short_frame
short_frame-as_rtu st address fn input =
    read-as_round (read_full 6 input) _ _
      (λ body rest. check-as_rtu st address (fn ∷ take 4 body) (drop 4 body) rest)

long_frame-as_rtu :
    (st : Store) (address fn : ℕ) (input : Bytes)
    → rtu_long_frame (as_rtu st) address fn input ≡ as_round (long_frame st 0 address fn input)
unfolding rtu_long_frame long_frame
long_frame-as_rtu st address fn input = read-as_round (read_full 5 input) _ _ (λ hdr rest.
    read-as_round (read_full (get_or hdr 4 0) rest) _ _ (λ payload rest'.
      read-as_round (read_full 2 rest') _ _
        (λ crc rest''. check-as_rtu st address (fn ∷ (hdr ++ payload)) crc rest'')))

round-as_rtu :
    (st : Store) (input : Bytes) → rtu_round (as_rtu st) input ≡ as_round (round st 0 input)
unfolding rtu_round round
round-as_rtu st [] = refl
round-as_rtu st (address ∷ []) = refl
round-as_rtu st (address ∷ (fn ∷ input)) =
    if-as_round (leb 1 fn && leb fn 6) _ _ _ _ (short_frame-as_rtu st address fn input)
      (if-as_round (fn == 15 || fn == 16) _ _ _ _ (long_frame-as_rtu st address fn input) refl)

after_round-as_rtu :
    (fuel : ℕ) (st : Store) (out : Bytes) (r : Round)
    → ((t : Store) (input written : Bytes)
        → rtu_stream fuel (as_rtu t) input written
          ≡ as_session (handle_stream fuel t 0 input written))
    → elim (as_round r) [
      | stopped ↦ over (as_rtu st) out
      | dropped rest ↦ rtu_stream fuel (as_rtu st) rest out
      | replied t rest response ↦ rtu_stream fuel t rest (out ++ response)
      | failed ↦ crash
    ]
      ≡ as_session (elim r [
        | closed ↦ ended st out
        | skipped rest ↦ handle_stream fuel st 0 rest out
        | answered t rest response ↦ handle_stream fuel t 0 rest (out ++ response)
        | crashed ↦ fault
      ])
after_round-as_rtu fuel st out closed h = refl
after_round-as_rtu fuel st out (skipped rest) h = h st rest out
after_round-as_rtu fuel st out (answered t rest response) h = h t rest (out ++ response)
after_round-as_rtu fuel st out crashed h = refl

-- The simulator's stream ends as the mock device's stream does when that takes any slave: with the
-- same registers and the same bytes written, for each number of rounds.
pub rtu_stream-as_rtu :
    (fuel : ℕ) (st : Store) (input out : Bytes)
    → rtu_stream fuel (as_rtu st) input out ≡ as_session (handle_stream fuel st 0 input out)
unfolding rtu_stream handle_stream
rtu_stream-as_rtu zero st input out = refl
rtu_stream-as_rtu (suc fuel) st input out =
    rw (round-as_rtu st input, rtu_stream)
      (after_round-as_rtu fuel st out (round st 0 input) (rtu_stream-as_rtu fuel))
