-- ===== src/Tests/Tcp.antt =====
-- The theorems on the TCP server at a server of a few registers.
use mutil_modbus.Prelude.{
  ℕ, ◌≡◌, refl, true, false, List, [], ◌∷◌, ◌++◌, length, ltb, if◌then◌else◌, inl, arith,
}
use mutil_modbus.Go.{ok, Bytes, bit_of}
use mutil_modbus.Tcp.Server.{Server, IsValid}
use mutil_modbus.Tcp.Pdu.{handle_pdu}
use mutil_modbus.Tcp.Pdu.Safety.{Answered, handle_pdu-Answered}
use mutil_modbus.Tcp.Pdu.RoundTrip.{handle_pdu-write_read_registers, handle_pdu-write_read_coils}
use mutil_modbus.Tcp.Pdu.Replies.{
  AnswersBits, AnswersWords, handle_pdu-AnswersBits, handle_pdu-AnswersWords,
  handle_pdu_illegal_function,
}
use mutil_modbus.Tcp.Registers.{set_holding_float32, holding_float32}
use mutil_modbus.Tcp.Registers.Laws.{holding_float32-set}
use mutil_modbus.Tcp.Connection.{ended, serve}
use mutil_modbus.Tcp.Connection.Framing.{Frame, encode_all, Handles, serve-encode_all}
use mutil_modbus.Tcp.Connection.Totality.{EndsWell, serve-EndsWell}

abbrev pub small : Server
small = record {
  holding_registers = 5 ∷ 6 ∷ 7 ∷ 8 ∷ [];
  input_registers = 0xCAFE ∷ 9 ∷ [];
  coils = true ∷ false ∷ true ∷ [];
  discrete_inputs = false ∷ true ∷ [];
}

pub small-IsValid : IsValid small
small-IsValid = record { holding_words = omega arith; input_words = omega arith }

handle_pdu-Answered_example : Answered small (handle_pdu small (6 ∷ 0 ∷ 1 ∷ 0xAB ∷ 0xCD ∷ []))
handle_pdu-Answered_example =
    handle_pdu-Answered small (6 ∷ 0 ∷ 1 ∷ 0xAB ∷ 0xCD ∷ []) small-IsValid (omega arith)

-- A write of the register 1, then a read of it.
abbrev frames : List Frame
frames =
    record { t₁ = 0; t₂ = 1; p₁ = 0; p₂ = 0; unit = 1; pdu = 6 ∷ 0 ∷ 1 ∷ 0xAB ∷ 0xCD ∷ [] }
    ∷ record { t₁ = 0; t₂ = 2; p₁ = 0; p₂ = 0; unit = 1; pdu = 3 ∷ 0 ∷ 1 ∷ 0 ∷ 1 ∷ [] }
    ∷ []

serve-encode_all_example :
    (t : Server) × (rs : List Frame) × Handles small frames t rs
    × (serve 3 small (encode_all frames ++ (0 ∷ 3 ∷ [])) [] ≡ ended t (encode_all rs))
serve-encode_all_example =
    serve-encode_all frames small (0 ∷ 3 ∷ []) small-IsValid
      (
        record { nonempty = omega arith; short = omega arith; bytes = omega arith },
        (record { nonempty = omega arith; short = omega arith; bytes = omega arith }, tt),
      )
      (omega arith)

serve-EndsWell_example :
    EndsWell small (serve 12 small (0 ∷ 1 ∷ 0 ∷ 0 ∷ 0 ∷ 3 ∷ 1 ∷ 99 ∷ 98 ∷ []) [])
serve-EndsWell_example =
    serve-EndsWell 12 small (0 ∷ 1 ∷ 0 ∷ 0 ∷ 0 ∷ 3 ∷ 1 ∷ 99 ∷ 98 ∷ []) [] (omega arith)
      small-IsValid (omega arith)

handle_pdu-write_read_registers_example :
    (t : Server) × (handle_pdu small (16 ∷ 0 ∷ 1 ∷ 0 ∷ 2 ∷ 4 ∷ 1 ∷ 2 ∷ 3 ∷ 4 ∷ [])
      ≡ ok (t, 16 ∷ 0 ∷ 1 ∷ 0 ∷ 2 ∷ []))
    × (handle_pdu t (3 ∷ 0 ∷ 1 ∷ 0 ∷ 2 ∷ []) ≡ ok (t, 3 ∷ 4 ∷ 1 ∷ 2 ∷ 3 ∷ 4 ∷ []))
handle_pdu-write_read_registers_example =
    handle_pdu-write_read_registers small 0 1 0 2 4 (1 ∷ 2 ∷ 3 ∷ 4 ∷ [])
      (record {
        lower = omega arith;
        upper = omega arith;
        byte_count = refl;
        size = refl;
        fits = omega arith;
      })
      (omega arith)

handle_pdu-write_read_coils_example :
    (t : Server) × (content : Bytes) × (handle_pdu small (15 ∷ 0 ∷ 1 ∷ 0 ∷ 2 ∷ 1 ∷ 3 ∷ [])
      ≡ ok (t, 15 ∷ 0 ∷ 1 ∷ 0 ∷ 2 ∷ []))
    × (handle_pdu t (1 ∷ 0 ∷ 1 ∷ 0 ∷ 2 ∷ []) ≡ ok (t, 1 ∷ 1 ∷ content))
    × (length content ≡ 1)
    × ((j : ℕ) → bit_of content j ≡ (if ltb j 2 then bit_of (3 ∷ []) j else false))
handle_pdu-write_read_coils_example = handle_pdu-write_read_coils small 0 1 0 2 1 (3 ∷ []) (record {
  lower = omega arith;
  upper = omega arith;
  byte_count = refl;
  size = refl;
  fits = omega arith;
})

handle_pdu-AnswersBits_example :
    ((response : Bytes) × (handle_pdu small (1 ∷ 0 ∷ 0 ∷ 0 ∷ 3 ∷ []) ≡ ok (small, response))
      × AnswersBits 1 (true ∷ false ∷ true ∷ []) 0 3 response)
    × ((response : Bytes) × (handle_pdu small (2 ∷ 0 ∷ 0 ∷ 0 ∷ 3 ∷ []) ≡ ok (small, response))
        × AnswersBits 2 (false ∷ true ∷ []) 0 3 response)
handle_pdu-AnswersBits_example = handle_pdu-AnswersBits small 0 0 0 3 []

handle_pdu-AnswersWords_example :
    ((response : Bytes) × (handle_pdu small (3 ∷ 0 ∷ 0 ∷ 0 ∷ 2 ∷ []) ≡ ok (small, response))
      × AnswersWords 3 (5 ∷ 6 ∷ 7 ∷ 8 ∷ []) 0 2 response)
    × ((response : Bytes) × (handle_pdu small (4 ∷ 0 ∷ 0 ∷ 0 ∷ 2 ∷ []) ≡ ok (small, response))
        × AnswersWords 4 (0xCAFE ∷ 9 ∷ []) 0 2 response)
handle_pdu-AnswersWords_example = handle_pdu-AnswersWords small 0 0 0 2 []

handle_pdu_illegal_function_example : handle_pdu small (7 ∷ 1 ∷ []) ≡ ok (small, 135 ∷ 1 ∷ [])
handle_pdu_illegal_function_example =
    handle_pdu_illegal_function small 7 (1 ∷ []) (inl (omega arith)) (omega arith) (omega arith)
      (omega arith)

holding_float32-set_example :
    (t : Server) × (set_holding_float32 small 2 0x40490FDB ≡ ok t)
    × (holding_float32 t 2 ≡ ok 0x40490FDB)
holding_float32-set_example =
    holding_float32-set small 2 0x40490FDB (omega arith) (omega arith) (omega arith)
