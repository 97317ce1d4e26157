-- ===== src/Tcp/Pdu/Safety.antt =====
-- Every request is answered, on every branch of the switch, and the server stays well formed.
use mutil_modbus.Prelude.{
  ℕ, ◌≤◌, ◌≡◌, refl, Bool, true, false, [], ◌∷◌, length, ◌==◌, if◌then◌else◌, arith, Bool-cases,
  inl, inr, All,
}
use mutil_modbus.Prelude.Bits.{or_top}
use mutil_modbus.Go.{Go, NoError, ok, fail, panic, Bytes, IsByte, Ensures}
use mutil_modbus.Tcp.Server.{Error, Server, IsValid, SameSizes}
use mutil_modbus.Tcp.Pdu.{exception_response, err_to_code, read_reply, write_reply, handle_pdu}
use mutil_modbus.Tcp.Pdu.Written.{
  Content, Written, read_bits-Content, read_registers-Content, write_single_coil-Written,
  write_single_register-Written, write_multiple_coils-Written, write_multiple_registers-Written,
}

-- A server and a response that may follow a request to the server `s`.
pub record IsReply (s : Server) (p : Server × Bytes) : Type 0 where
  pub sizes : SameSizes s p.0
  pub server : IsValid p.0
  pub lower : 2 ≤ length p.1
  pub upper : length p.1 ≤ 252
  pub bytes : All IsByte p.1

-- The request is answered: no panic, and no error is left over.
abbrev pub Answered : Server → Go NoError (Server × Bytes) → Type 0
Answered s r = (p : Server × Bytes) × (r ≡ ok p) × IsReply s p

unchanged : (s : Server) → SameSizes s s
unchanged s = record {
  holding_size = refl;
  input_size = refl;
  coils_size = refl;
  discrete_size = refl;
}

exception-Answered :
    (s : Server) (f code : ℕ)
    → IsValid s
    → IsByte f
    → IsByte code
    → Answered s (ok (s, exception_response f code))
unfolding exception_response
exception-Answered s f code v hf hc = elim (Bool-cases (f == 0)) [
  | inl z ↦ rw z (
    _,
    refl,
    record {
      sizes = unchanged s;
      server = v;
      lower = omega arith;
      upper = omega arith;
      bytes = omega arith;
    },
  )
  | inr p ↦ rw p (
    _,
    refl,
    record {
      sizes = unchanged s;
      server = v;
      lower = omega arith;
      upper = omega arith;
      bytes = (ground (arith, or_top f hf), (hc, tt));
    },
  )
]

err_to_code-IsByte : (e : Error) → IsByte (err_to_code e)
unfolding err_to_code
err_to_code-IsByte e = ground arith

read_reply-Answered :
    (s : Server) (f : ℕ) (r : Go Error Bytes)
    → IsValid s
    → IsByte f
    → Ensures Content r
    → Answered s (read_reply f s r)
unfolding read_reply
read_reply-Answered s f (ok content) v hf h = (
  _,
  refl,
  record {
    sizes = unchanged s;
    server = v;
    lower = omega arith;
    upper = omega arith;
    bytes = (hf, (omega arith, h.1));
  },
)
read_reply-Answered s f (fail e) v hf h =
    exception-Answered s f (err_to_code e) v hf (err_to_code-IsByte e)
read_reply-Answered s f panic v hf h = absurd h

write_reply-Answered :
    (s : Server) (f : ℕ) (r : Go Error (Server × Bytes))
    → IsValid s
    → IsByte f
    → Ensures (Written s) r
    → Answered s (write_reply f s r)
unfolding write_reply
write_reply-Answered s f (ok p) v hf h = (
  p,
  refl,
  record {
    sizes = h.sizes;
    server = h.server;
    lower = omega (arith, h.length_eq);
    upper = omega (arith, h.length_eq);
    bytes = h.bytes;
  },
)
write_reply-Answered s f (fail e) v hf h =
    exception-Answered s f (err_to_code e) v hf (err_to_code-IsByte e)
write_reply-Answered s f panic v hf h = absurd h

if_Answered :
    (s : Server) (b : Bool) {x y : Go NoError (Server × Bytes)}
    → Answered s x
    → Answered s y
    → Answered s (if b then x else y)
if_Answered s true h k = h
if_Answered s false h k = k

-- From a server whose registers are words and a request made of bytes, the switch never panics and
-- always answers; the server left has words and tables of the same sizes, and the response has 2
-- to 252 bytes.
pub handle_pdu-Answered :
    (s : Server) (pdu : Bytes) → IsValid s → All IsByte pdu → Answered s (handle_pdu s pdu)
unfolding handle_pdu
handle_pdu-Answered s [] v h = exception-Answered s 0 1 v (omega arith) (omega arith)
handle_pdu-Answered s (f ∷ rest) v h =
    let pdu : Bytes = f ∷ rest in
    if_Answered s (f == 1) (read_reply-Answered s f _ v h.0 (read_bits-Content s.coils pdu)) (
      if_Answered s (f == 2)
        (read_reply-Answered s f _ v h.0 (read_bits-Content s.discrete_inputs pdu))
        (if_Answered s (f == 3)
          (read_reply-Answered s f _ v h.0 (read_registers-Content s.holding_registers pdu))
          (if_Answered s (f == 4)
            (read_reply-Answered s f _ v h.0 (read_registers-Content s.input_registers pdu))
            (if_Answered s (f == 5)
              (write_reply-Answered s f _ v h.0 (write_single_coil-Written s pdu v h))
              (if_Answered s (f == 6)
                (write_reply-Answered s f _ v h.0 (write_single_register-Written s pdu v h))
                (if_Answered s (f == 15)
                  (write_reply-Answered s f _ v h.0 (write_multiple_coils-Written s pdu v h))
                  (if_Answered s (f == 16)
                    (write_reply-Answered s f _ v h.0 (write_multiple_registers-Written s pdu v h))
                    (exception-Answered s f 1 v h.0 (omega arith)))))))))
