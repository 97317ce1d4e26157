-- ===== src/Tcp/Connection/Totality.antt =====
-- A connection on any bytes: it ends, and no request brings the server down.
use mutil_modbus.Prelude.{
  ℕ, zero, suc, ◌-◌, ◌<◌, ◌≡◌, refl, All-take, All-drop, length-drop, ◌++◌, length, take, drop, leb,
  ◌==◌, arith, All, Bool-cases, inl, inr,
}
use mutil_modbus.Go.{ok, Bytes, IsByte, read_full-cases}
use mutil_modbus.Tcp.Server.{Server, IsValid, SameSizes}
use mutil_modbus.Tcp.Pdu.Safety.{IsReply, handle_pdu-Answered}
use mutil_modbus.Tcp.Connection.{
  frame_length, Round, closed, skipped, answered, crashed, respond, after_header, round, Session,
  ended, fault, out_of_fuel, serve,
}

-- What a round leaves for the next one.
abbrev Fine : Server → Bytes → Round → Type 0
Fine s input closed = Unit
Fine s input (skipped rest) = (length rest < length input) × All IsByte rest
Fine s input (answered t rest out) =
    (length rest < length input) × All IsByte rest × IsValid t × SameSizes s t
Fine s input crashed = ⊥

respond-Fine :
    (s : Server) (header rest input : Bytes) (p : Server × Bytes)
    → IsReply s p
    → length rest < length input
    → All IsByte rest
    → Fine s input (respond header rest (ok p))
unfolding respond
respond-Fine s header rest input (t, response) r l h = elim (Bool-cases (length response == 0)) [
  | inl empty ↦ rw empty (l, h, r.server, r.sizes)
  | inr filled ↦ rw filled (l, h, r.server, r.sizes)
]

after_header-Fine :
    (s : Server) (header rest input : Bytes)
    → IsValid s
    → length rest < length input
    → All IsByte rest
    → Fine s input (after_header s header rest)
unfolding after_header
after_header-Fine s header rest input v l h =
    let size = frame_length header in
    elim (Bool-cases (size == 0)) [
      | inl none_left ↦ rw none_left (l, h)
      | inr some_left ↦ rw some_left (elim (Bool-cases (leb (size - 1) 0)) [
        | inl bare ↦ rw bare (l, h)
        | inr body ↦ rw body (elim (read_full-cases (size - 1) rest) [
          | inl short ↦ rw short tt
          | inr (fits, e) ↦
              let pdu = take (size - 1) rest in
              let (p, e', r) = handle_pdu-Answered s pdu v (All-take IsByte (size - 1) rest h) in
              rw (e, e')
                (respond-Fine s header (drop (size - 1) rest) input p r
                  (omega (arith, length-drop (size - 1) rest)) (All-drop IsByte (size - 1) rest h))
        ])
      ])
    ]

round-Fine :
    (s : Server) (input : Bytes) → IsValid s → All IsByte input → Fine s input (round s input)
unfolding round
round-Fine s input v h = elim (read_full-cases 7 input) [
  | inl short ↦ rw (short, round) tt
  | inr (fits, e) ↦
      rw (e, round)
        (after_header-Fine s (take 7 input) (drop 7 input) input v
          (omega (arith, length-drop 7 input)) (All-drop IsByte 7 input h))
]

SameSizes-trans : {s t u : Server} → SameSizes s t → SameSizes t u → SameSizes s u
SameSizes-trans h k = omega arith

-- The end of a connection to a server of the sizes of `s`.
abbrev pub EndsWell : Server → Session → Type 0
EndsWell s (ended t out) = IsValid t × SameSizes s t
EndsWell s fault = ⊥
EndsWell s out_of_fuel = ⊥

EndsWell-SameSizes : {s t : Server} (x : Session) → SameSizes s t → EndsWell t x → EndsWell s x
EndsWell-SameSizes (ended u out) h e = (e.0, SameSizes-trans h e.1)
EndsWell-SameSizes fault h e = e
EndsWell-SameSizes out_of_fuel h e = e

serve-step :
    (fuel : ℕ) (s : Server) (input out : Bytes) (r : Round)
    → round s input ≡ r
    → Fine s input r
    → IsValid s
    → ((t : Server) (rest out' : Bytes)
        → length rest < length input
        → IsValid t
        → All IsByte rest
        → EndsWell t (serve fuel t rest out'))
    → EndsWell s (serve (suc fuel) s input out)
unfolding serve
serve-step fuel s input out closed e f v go =
    rw (e, serve)
      (
        v,
        record { holding_size = refl; input_size = refl; coils_size = refl; discrete_size = refl },
      )
serve-step fuel s input out (skipped rest) e f v go = rw (e, serve) (go s rest out f.0 v f.1)
serve-step fuel s input out (answered t rest more) e f v go =
    rw (e, serve) (EndsWell-SameSizes _ f.3 (go t rest (out ++ more) f.0 f.2 f.1))
serve-step fuel s input out crashed e f v go = absurd f

-- Whatever bytes a peer sends, the connection to a valid server ends once they are read, with no
-- panic, and leaves a valid server with tables of the same sizes; rounds one more than the bytes are enough.
pub serve-EndsWell :
    (fuel : ℕ) (s : Server) (input out : Bytes)
    → length input < fuel
    → IsValid s
    → All IsByte input
    → EndsWell s (serve fuel s input out)
serve-EndsWell zero s input out l v h = absurd (omega arith)
serve-EndsWell (suc fuel) s input out l v h =
    serve-step fuel s input out (round s input) refl (round-Fine s input v h) v
      (λ t rest out' shorter v' h'. serve-EndsWell fuel t rest out' (omega arith) v' h')
