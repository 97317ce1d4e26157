-- ===== src/Tcp/Pdu/Replies.antt =====
-- The responses to requests, by what is asked.
use mutil_modbus.Prelude.{
  ℕ, ◌+◌, ◌*◌, ◌%◌, ◌≤◌, ◌<◌, ◌≡◌, ◌≢◌, ◌⊎◌, refl, Bool, List, [], ◌∷◌, length, ltb, if◌then◌else◌,
  arith,
}
use mutil_modbus.Prelude.Bits.{or_top}
use mutil_modbus.Go.{Go, ok, Bytes}
use mutil_modbus.Tcp.Server.{Error, Server}
use mutil_modbus.Tcp.Pdu.{read_reply, dispatch, handle_pdu, exception_response, err_to_code}
use mutil_modbus.Tcp.Pdu.Reads.{
  read_bits-BitsReply, read_registers-WordsReply, BitsReply, WordsReply, BitsRead, WordsRead,
}

-- The response to a read of bits by function `f`: exception 3 for a bad quantity, exception 2 for a
-- range past the table, and else the byte count and the bits.
pub data AnswersBits (f : ℕ) (source : List Bool) (start quantity : ℕ) : Bytes → Type 0 where
  wrong_quantity :
      (quantity ≡ 0) ⊎ (2000 < quantity) → AnswersBits f source start quantity ((f + 128) ∷ 3 ∷ [])
  past_end :
      1 ≤ quantity
      → quantity ≤ 2000
      → length source < start + quantity
      → AnswersBits f source start quantity ((f + 128) ∷ 2 ∷ [])
  content :
      {c : Bytes}
      → 1 ≤ quantity
      → quantity ≤ 2000
      → start + quantity ≤ length source
      → BitsRead source start quantity c
      → AnswersBits f source start quantity (f ∷ length c ∷ c)

-- The response to a read of registers by function `f`, likewise.
pub data AnswersWords (f : ℕ) (source : List ℕ) (start quantity : ℕ) : Bytes → Type 0 where
  wrong_quantity :
      (quantity ≡ 0) ⊎ (125 < quantity) → AnswersWords f source start quantity ((f + 128) ∷ 3 ∷ [])
  past_end :
      1 ≤ quantity
      → quantity ≤ 125
      → length source < start + quantity
      → AnswersWords f source start quantity ((f + 128) ∷ 2 ∷ [])
  content :
      {c : Bytes}
      → 1 ≤ quantity
      → quantity ≤ 125
      → start + quantity ≤ length source
      → WordsRead source start quantity c
      → AnswersWords f source start quantity (f ∷ length c ∷ c)

exceptions : (f e : ℕ) → 1 ≤ f → f ≤ 4 → exception_response f e ≡ (f + 128) ∷ e ∷ []
unfolding exception_response
exceptions f e l u = ground (arith, or_top f)

bits_answer :
    (s : Server) (f : ℕ) {source : List Bool} {start quantity : ℕ} {r : Go Error Bytes}
    → 1 ≤ f
    → f ≤ 4
    → BitsReply source start quantity r
    → (response : Bytes) × (read_reply f s r ≡ ok (s, response))
      × AnswersBits f source start quantity response
unfolding read_reply err_to_code
bits_answer s f l u (BitsReply.wrong_quantity h) =
    (_, rw (exceptions f 3 l u) refl, AnswersBits.wrong_quantity h)
bits_answer s f l u (BitsReply.past_end h k m) =
    (_, rw (exceptions f 2 l u) refl, AnswersBits.past_end h k m)
bits_answer s f l u (BitsReply.content {c} h k m b) =
    let small : length c % 256 ≡ length c = omega (arith, b.byte_count) in
    (_, rw small refl, AnswersBits.content h k m b)

words_answer :
    (s : Server) (f : ℕ) {source : List ℕ} {start quantity : ℕ} {r : Go Error Bytes}
    → 1 ≤ f
    → f ≤ 4
    → WordsReply source start quantity r
    → (response : Bytes) × (read_reply f s r ≡ ok (s, response))
      × AnswersWords f source start quantity response
unfolding read_reply err_to_code
words_answer s f l u (WordsReply.wrong_quantity h) =
    (_, rw (exceptions f 3 l u) refl, AnswersWords.wrong_quantity h)
words_answer s f l u (WordsReply.past_end h k m) =
    (_, rw (exceptions f 2 l u) refl, AnswersWords.past_end h k m)
words_answer s f l u (WordsReply.content {c} h k m b) =
    let small : length c % 256 ≡ length c = omega (arith, b.byte_count) in
    (_, rw small refl, AnswersWords.content h k m b)

-- The reads of bits, functions 1 and 2, leave the server and answer from the coils or the discrete
-- inputs: exception 3 for a quantity of 0 or above 2000, exception 2 for a range past the table,
-- and else the byte count, the requested bits lowest first, and zeros behind them.
pub handle_pdu-AnswersBits :
    (s : Server) (a b c d : ℕ) (rest : Bytes)
    → ((response : Bytes) × (handle_pdu s (1 ∷ a ∷ b ∷ c ∷ d ∷ rest) ≡ ok (s, response))
        × AnswersBits 1 s.coils (a * 256 + b) (c * 256 + d) response)
      × ((response : Bytes) × (handle_pdu s (2 ∷ a ∷ b ∷ c ∷ d ∷ rest) ≡ ok (s, response))
          × AnswersBits 2 s.discrete_inputs (a * 256 + b) (c * 256 + d) response)
unfolding handle_pdu
handle_pdu-AnswersBits s a b c d rest = (
  bits_answer s 1 (omega arith) (omega arith) (read_bits-BitsReply s.coils 1 a b c d rest),
  bits_answer s 2 (omega arith) (omega arith)
      (read_bits-BitsReply s.discrete_inputs 2 a b c d rest),
)

-- The reads of registers, functions 3 and 4, leave the server and answer from the holding or the
-- input registers: exception 3 for a quantity of 0 or above 125, exception 2 for a range past the
-- table, and else the byte count and the registers' words, high byte first.
pub handle_pdu-AnswersWords :
    (s : Server) (a b c d : ℕ) (rest : Bytes)
    → ((response : Bytes) × (handle_pdu s (3 ∷ a ∷ b ∷ c ∷ d ∷ rest) ≡ ok (s, response))
        × AnswersWords 3 s.holding_registers (a * 256 + b) (c * 256 + d) response)
      × ((response : Bytes) × (handle_pdu s (4 ∷ a ∷ b ∷ c ∷ d ∷ rest) ≡ ok (s, response))
          × AnswersWords 4 s.input_registers (a * 256 + b) (c * 256 + d) response)
unfolding handle_pdu
handle_pdu-AnswersWords s a b c d rest = (
  words_answer s 3 (omega arith) (omega arith)
      (read_registers-WordsReply s.holding_registers 3 a b c d rest),
  words_answer s 4 (omega arith) (omega arith)
      (read_registers-WordsReply s.input_registers 4 a b c d rest),
)

-- A function code other than the eight of the switch is refused with exception 1, whatever
-- follows it, and the server is left as it was.
pub handle_pdu_illegal_function :
    (s : Server) (f : ℕ) (rest : Bytes)
    → (6 < f) ⊎ (f ≡ 0)
    → f ≢ 15
    → f ≢ 16
    → f < 256
    → handle_pdu s (f ∷ rest) ≡ ok (s, (if ltb f 128 then f + 128 else f) ∷ 1 ∷ [])
unfolding handle_pdu dispatch exception_response
handle_pdu_illegal_function s f rest h k l m = ground (arith, or_top f)
