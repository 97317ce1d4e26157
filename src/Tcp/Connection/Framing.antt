-- ===== src/Tcp/Connection/Framing.antt =====
-- The stream of a connection: requests in frames, answered one by one and in order.
use mutil_modbus.Prelude.{
  append-nil, append_assoc, ℕ, zero, suc, ◌+◌, ◌-◌, ◌%◌, ◌≤◌, ◌<◌, ◌≡◌, refl, ◌∙◌, ap, false, List,
  [], ◌∷◌, ◌++◌, length, leb, ◌==◌, arith, All,
}
use mutil_modbus.Go.{ok, Bytes, IsByte, high_byte, low_byte, read_full-append, read_full-none}
use mutil_modbus.Tcp.Server.{Server, IsValid}
use mutil_modbus.Tcp.Pdu.{handle_pdu}
use mutil_modbus.Tcp.Pdu.Safety.{handle_pdu-Answered}
use mutil_modbus.Tcp.Connection.{
  frame_length, reply_header, closed, answered, respond, after_header, round, ended, serve,
}

-- A frame of the protocol: transaction, protocol, unit and PDU.
pub record Frame : Type 0 where
  pub t₁ : ℕ
  pub t₂ : ℕ
  pub p₁ : ℕ
  pub p₂ : ℕ
  pub unit : ℕ
  pub pdu : Bytes

abbrev pub encode : Frame → Bytes
encode f =
    f.t₁
    ∷ f.t₂
    ∷ f.p₁
    ∷ f.p₂
    ∷ high_byte (length f.pdu + 1)
    ∷ low_byte (length f.pdu + 1)
    ∷ f.unit
    ∷ f.pdu

abbrev pub encode_all : List Frame → Bytes
encode_all [] = []
encode_all (f ∷ fs) = encode f ++ encode_all fs

-- A frame whose length field is exact and whose PDU is made of bytes.
pub record IsFrame (f : Frame) : Type 0 where
  pub nonempty : 1 ≤ length f.pdu
  pub short : length f.pdu < 65535
  pub bytes : All IsByte f.pdu

-- The frame that answers `f` with the PDU `response`.
abbrev pub reply_to : Frame → Bytes → Frame
reply_to f response = record f { p₁ = 0; p₂ = 0; pdu = response }

abbrev header_of : Frame → Bytes
header_of f =
    f.t₁
    ∷ f.t₂
    ∷ f.p₁
    ∷ f.p₂
    ∷ high_byte (length f.pdu + 1)
    ∷ low_byte (length f.pdu + 1)
    ∷ f.unit
    ∷ []

frame_length-header_of : (f : Frame) → IsFrame f → frame_length (header_of f) ≡ length f.pdu + 1
unfolding frame_length
frame_length-header_of f h = omega arith

respond-reply_to :
    (t : Server) (f : Frame) (response rest : Bytes)
    → 2 ≤ length response
    → length response ≤ 252
    → respond (header_of f) rest (ok (t, response)) ≡ answered t rest (encode (reply_to f response))
unfolding respond reply_header
respond-reply_to t f response rest lo hi =
    let some_bytes : (length response == 0) ≡ false = ground arith in
    let fits : (length response + 1) % 65536 ≡ length response + 1 = omega arith in
    rw (some_bytes, fits) refl

after_header-encode :
    (s t : Server) (f : Frame) (response rest : Bytes)
    → IsFrame f
    → handle_pdu s f.pdu ≡ ok (t, response)
    → 2 ≤ length response
    → length response ≤ 252
    → after_header s (header_of f) (f.pdu ++ rest) ≡ answered t rest (encode (reply_to f response))
unfolding after_header
after_header-encode s t f response rest h e lo hi =
    let not_empty : (length f.pdu + 1 == 0) ≡ false = ground arith in
    let not_bare : leb (length f.pdu + 1 - 1) 0 ≡ false = ground (arith, h.nonempty) in
    rw
      (
        frame_length-header_of f h,
        not_empty,
        not_bare,
        read_full-append f.pdu rest (length f.pdu + 1 - 1) (omega arith),
        e,
      )
      (respond-reply_to t f response rest lo hi)

-- One round on a whole frame.
round-encode :
    (s t : Server) (f : Frame) (response rest : Bytes)
    → IsFrame f
    → handle_pdu s f.pdu ≡ ok (t, response)
    → 2 ≤ length response
    → length response ≤ 252
    → round s (encode f ++ rest) ≡ answered t rest (encode (reply_to f response))
unfolding round
round-encode s t f response rest h e lo hi =
    rw (read_full-append (header_of f) (f.pdu ++ rest) 7 refl, round)
      (after_header-encode s t f response rest h e lo hi)

-- The requests of `fs` are handled one after the other, and `rs` are the frames of the responses,
-- each with its request's transaction and unit.
pub data Handles : Server → List Frame → Server → List Frame → Type 0 where
  done : {s : Server} → Handles s [] s []
  handled :
      {s t u : Server} {f : Frame} {fs rs : List Frame} (response : Bytes)
      → handle_pdu s f.pdu ≡ ok (t, response)
      → Handles t fs u rs
      → Handles s (f ∷ fs) u (reply_to f response ∷ rs)

round_short : (s : Server) (cut : Bytes) → length cut < 7 → round s cut ≡ closed
unfolding round
round_short s cut h = rw (read_full-none 7 cut h, round) refl

serve-Handles :
    (fs : List Frame) (fuel : ℕ) (s : Server) (cut out : Bytes)
    → IsValid s
    → All IsFrame fs
    → length cut < 7
    → length fs < fuel
    → (t : Server) × (rs : List Frame) × Handles s fs t rs
      × (serve fuel s (encode_all fs ++ cut) out ≡ ended t (out ++ encode_all rs))
unfolding serve
serve-Handles fs zero s cut out v h short enough = absurd (omega arith)
serve-Handles [] (suc fuel) s cut out v h short enough =
    (s, [], done, rw (round_short s cut short, serve) (rw append-nil refl))
serve-Handles (f ∷ fs) (suc fuel) s cut out v h short enough =
    let ((t, response), e, r) = handle_pdu-Answered s f.pdu v h.0.bytes in
    let reply = encode (reply_to f response) in
    let (u, rs, hs, eq) =
      serve-Handles fs fuel t cut (out ++ reply) r.server h.1 short (omega arith) in
    (
      u,
      reply_to f response ∷ rs,
      handled response e hs,
      rw
          (
            append_assoc (encode f) (encode_all fs) cut,
            round-encode s t f response (encode_all fs ++ cut) h.0 e r.lower r.upper,
            serve,
          )
          (eq ∙ ap (ended u) (append_assoc out reply (encode_all rs))),
    )

-- A connection that sends whole frames, and then closes within a header, gets for each frame the
-- response that the handler gives, in order, behind the request's transaction and unit and a zero
-- protocol, and the server is left by the last of them.
pub serve-encode_all :
    (fs : List Frame) (s : Server) (cut : Bytes)
    → IsValid s
    → All IsFrame fs
    → length cut < 7
    → (t : Server) × (rs : List Frame) × Handles s fs t rs
      × (serve (suc (length fs)) s (encode_all fs ++ cut) [] ≡ ended t (encode_all rs))
serve-encode_all fs s cut v h short =
    serve-Handles fs (suc (length fs)) s cut [] v h short (omega arith)
