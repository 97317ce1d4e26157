-- ===== src/Tcp/Pdu/RoundTrip.antt =====
-- What a client reads back after a write.
use mutil_modbus.Prelude.{
  ℕ, some, ◌+◌, ◌*◌, ◌/◌, ◌%◌, ◌≤◌, ◌<◌, ◌≡◌, refl, Bool, false, List, [], ◌∷◌, length, get_elem?,
  ltb, if◌then◌else◌, arith, Bool-cases, inl, inr, get_elem?-some, get_elem?-none, All,
  All-get_elem?, list_ext,
}
use mutil_modbus.Go.{Go, ok, Bytes, IsByte, Stored, bit_of, word_byte}
use mutil_modbus.Tcp.Server.{Error, Server}
use mutil_modbus.Tcp.Pdu.{read_reply, write_reply, handle_pdu}
use mutil_modbus.Tcp.Pdu.Reads.{
  read_bits-BitsReply, read_registers-WordsReply, BitsReply, WordsReply, BitsRead, WordsRead,
}
use mutil_modbus.Tcp.Pdu.Writes.{
  write_multiple_coils-CoilsWritten, write_multiple_registers-WordsWritten, word_of, CoilsWritten,
  WordsWritten,
}

words_content :
    {source : List ℕ} {start quantity : ℕ} {r : Go Error Bytes}
    → WordsReply source start quantity r
    → 1 ≤ quantity
    → quantity ≤ 125
    → start + quantity ≤ length source
    → (c : Bytes) × (r ≡ ok c) × WordsRead source start quantity c
words_content (WordsReply.wrong_quantity h) l u f = absurd (omega arith)
words_content (WordsReply.past_end _ _ h) l u f = absurd (omega arith)
words_content (WordsReply.content {c} _ _ _ h) l u f = (c, refl, h)

bits_content :
    {source : List Bool} {start quantity : ℕ} {r : Go Error Bytes}
    → BitsReply source start quantity r
    → 1 ≤ quantity
    → quantity ≤ 2000
    → start + quantity ≤ length source
    → (c : Bytes) × (r ≡ ok c) × BitsRead source start quantity c
bits_content (BitsReply.wrong_quantity h) l u f = absurd (omega arith)
bits_content (BitsReply.past_end _ _ h) l u f = absurd (omega arith)
bits_content (BitsReply.content {c} _ _ _ h) l u f = (c, refl, h)

-- A write request for registers that the server accepts.
pub record AcceptsWords (s : Server) (a b c d n : ℕ) (payload : Bytes) : Type 0 where
  pub lower : 1 ≤ c * 256 + d
  pub upper : c * 256 + d ≤ 123
  pub byte_count : n ≡ (c * 256 + d) * 2
  pub size : length payload ≡ n
  pub fits : a * 256 + b + (c * 256 + d) ≤ length s.holding_registers

words-Stored :
    {s : Server} {a b c d n : ℕ} {payload : Bytes} {r : Go Error (Server × Bytes)}
    → WordsWritten s a b c d n payload r
    → AcceptsWords s a b c d n payload
    → (registers : List ℕ) × (r
        ≡ ok (record s { holding_registers = registers }, 16 ∷ a ∷ b ∷ c ∷ d ∷ []))
      × Stored
          (word_of payload)
          (a * 256 + b)
          (a * 256 + b)
          (a * 256 + b + (c * 256 + d))
          s.holding_registers
          registers
words-Stored (WordsWritten.wrong_quantity h) acc = absurd (omega arith)
words-Stored (WordsWritten.wrong_count _ _ h) acc = absurd (h acc.byte_count)
words-Stored (WordsWritten.wrong_size _ h) acc = absurd (h acc.size)
words-Stored (WordsWritten.past_end h) acc = absurd (omega arith)
words-Stored (WordsWritten.stored {registers} _ _ _ _ _ st) acc = (registers, refl, st)

word_of-byte :
    (payload : Bytes) (source : List ℕ) (start j x y : ℕ)
    → get_elem? payload (j / 2 * 2) ≡ some x
    → get_elem? payload (j / 2 * 2 + 1) ≡ some y
    → x < 256
    → y < 256
    → get_elem? source (start + j / 2) ≡ some (word_of payload (j / 2))
    → get_elem? payload j ≡ some (word_byte source start j)
word_of-byte payload source start j x y ex ey hx hy e = ground arith

read_back :
    {s : Server} {a b c d n : ℕ} {payload content : Bytes} (registers : List ℕ)
    → AcceptsWords s a b c d n payload
    → All IsByte payload
    → Stored
        (word_of payload)
        (a * 256 + b)
        (a * 256 + b)
        (a * 256 + b + (c * 256 + d))
        s.holding_registers
        registers
    → WordsRead registers (a * 256 + b) (c * 256 + d) content
    → content ≡ payload
read_back {s} {a} {b} {c} {d} {n} {payload} {content} registers acc h st w =
    list_ext content payload λ j. elim (Bool-cases (ltb j ((c * 256 + d) * 2))) [
      | inl within ↦
          let (x, ex) =
            get_elem?-some payload (j / 2 * 2) (ground (arith, acc.size, acc.byte_count)) in
          let (y, ey) =
            get_elem?-some payload (j / 2 * 2 + 1) (ground (arith, acc.size, acc.byte_count)) in
          ground (
            arith,
            w.entry j,
            word_of-byte payload registers (a * 256 + b) j x y ex ey
                (All-get_elem? IsByte payload _ x h ex) (All-get_elem? IsByte payload _ y h ey)
                (ground (arith, st.entry (a * 256 + b + j / 2))),
          )
      | inr without ↦ ground (arith, w.entry j, get_elem?-none payload j, acc.size, acc.byte_count)
    ]

-- After an accepted write of registers (function 16), whose response echoes the request's head, a
-- read of the same range (function 3) answers the bytes that were written, and the server is left
-- as the write left it.
pub handle_pdu-write_read_registers :
    (s : Server) (a b c d n : ℕ) (payload : Bytes)
    → AcceptsWords s a b c d n payload
    → All IsByte payload
    → (t : Server) × (handle_pdu s (16 ∷ a ∷ b ∷ c ∷ d ∷ n ∷ payload)
        ≡ ok (t, 16 ∷ a ∷ b ∷ c ∷ d ∷ []))
      × (handle_pdu t (3 ∷ a ∷ b ∷ c ∷ d ∷ []) ≡ ok (t, 3 ∷ n ∷ payload))
unfolding handle_pdu read_reply write_reply
handle_pdu-write_read_registers s a b c d n payload acc h =
    let (registers, e, st) =
      words-Stored (write_multiple_registers-WordsWritten s 16 a b c d n payload) acc in
    let t : Server = record s { holding_registers = registers } in
    let (content, e', w) =
      words_content (read_registers-WordsReply registers 3 a b c d []) acc.lower (omega arith)
        (omega (arith, st.length_eq)) in
    let same = read_back {content = content} registers acc h st w in
    let bytes : length payload % 256 ≡ n = omega arith in
    (t, rw e refl, rw e' (rw (same, bytes) refl))

-- A write request for coils that the server accepts.
pub record AcceptsCoils (s : Server) (a b c d n : ℕ) (payload : Bytes) : Type 0 where
  pub lower : 1 ≤ c * 256 + d
  pub upper : c * 256 + d ≤ 1968
  pub byte_count : n ≡ (c * 256 + d + 7) / 8
  pub size : length payload ≡ n
  pub fits : a * 256 + b + (c * 256 + d) ≤ length s.coils

coils-Stored :
    {s : Server} {a b c d n : ℕ} {payload : Bytes} {r : Go Error (Server × Bytes)}
    → CoilsWritten s a b c d n payload r
    → AcceptsCoils s a b c d n payload
    → (coils : List Bool) × (r ≡ ok (record s { coils = coils }, 15 ∷ a ∷ b ∷ c ∷ d ∷ []))
      × Stored
          (bit_of payload)
          (a * 256 + b)
          (a * 256 + b)
          (a * 256 + b + (c * 256 + d))
          s.coils
          coils
coils-Stored (CoilsWritten.wrong_quantity h) acc = absurd (omega arith)
coils-Stored (CoilsWritten.wrong_count _ _ h) acc = absurd (h acc.byte_count)
coils-Stored (CoilsWritten.wrong_size _ h) acc = absurd (h acc.size)
coils-Stored (CoilsWritten.past_end h) acc = absurd (omega arith)
coils-Stored (CoilsWritten.stored {coils} _ _ _ _ _ st) acc = (coils, refl, st)

-- After an accepted write of coils (function 15), whose response echoes the request's head, a read
-- of the same range (function 1) answers as many bytes as were written, with the written bits in
-- the range and zeros in the padding behind it, and the server is left as the write left it.
pub handle_pdu-write_read_coils :
    (s : Server) (a b c d n : ℕ) (payload : Bytes)
    → AcceptsCoils s a b c d n payload
    → (t : Server) × (content : Bytes) × (handle_pdu s (15 ∷ a ∷ b ∷ c ∷ d ∷ n ∷ payload)
        ≡ ok (t, 15 ∷ a ∷ b ∷ c ∷ d ∷ []))
      × (handle_pdu t (1 ∷ a ∷ b ∷ c ∷ d ∷ []) ≡ ok (t, 1 ∷ n ∷ content))
      × (length content ≡ length payload)
      × ((j : ℕ) → bit_of content j ≡ (if ltb j (c * 256 + d) then bit_of payload j else false))
unfolding handle_pdu read_reply write_reply
handle_pdu-write_read_coils s a b c d n payload acc =
    let (coils, e, st) =
      coils-Stored (write_multiple_coils-CoilsWritten s 15 a b c d n payload) acc in
    let t : Server = record s { coils = coils } in
    let (content, e', w) =
      bits_content (read_bits-BitsReply coils 1 a b c d []) acc.lower (omega arith)
        (omega (arith, st.length_eq)) in
    let bytes : length content % 256 ≡ n = omega (arith, w.byte_count) in
    (
      t,
      content,
      rw e refl,
      rw e' (rw bytes refl),
      omega (arith, w.byte_count),
      λ j. ground (arith, w.bit j, st.entry (a * 256 + b + j)),
    )
