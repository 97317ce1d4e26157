-- ===== src/Client/Reads.antt =====
-- What a client that is connected to the server reads of its holding registers
-- (cmd/client/main.go and internal/modbus/server.go).
use mutil_modbus.Prelude.{
  ℕ, zero, suc, ◌+◌, ◌*◌, ◌/◌, ◌%◌, ◌^◌, ◌≡◌, ◌≤◌, ◌<◌, ◌⊎◌, refl, true, false, List, [], ◌∷◌,
  length, list_ext, get_elem?, some, inl, inr, if◌then◌else◌, arith,
}
use mutil_modbus.Prelude.Text.{Text, text, same}
use mutil_modbus.Prelude.Float.{FloatOps}
use mutil_modbus.Go.{ok, Bytes, be16, index, high_byte, low_byte}
use mutil_modbus.Tcp.Server.{Server}
use mutil_modbus.Tcp.Pdu.{handle_pdu}
use mutil_modbus.Tcp.Pdu.Reads.{WordsRead}
use mutil_modbus.Tcp.Pdu.Replies.{AnswersWords, handle_pdu-AnswersWords}
use mutil_modbus.Collector.Point.{Client}
use mutil_modbus.Simulator.Replay.{in_range}
use mutil_modbus.Client.{Error}

-- The request for `n` holding registers, function 3.
abbrev pub request : ℕ → ℕ → Bytes
request address n = 3 ∷ high_byte address ∷ low_byte address ∷ high_byte n ∷ low_byte n ∷ []

-- A client that is connected to the server: a read of 1 to 125 holding registers sends the request,
-- and an answer with its byte count and content is taken as the content.
pub record IsConnected (client : Client Server) : Type 0 where
  pub holding :
      (s t : Server) (address n : ℕ) (content : Bytes)
      → address < 65536
      → 1 ≤ n
      → n ≤ 125
      → handle_pdu s (request address n) ≡ ok (t, 3 ∷ length content ∷ content)
      → client.read_holding_registers address n s ≡ (ok content, t)

answered_content :
    {source : List ℕ} {start n : ℕ} {response : Bytes}
    → AnswersWords 3 source start n response
    → 1 ≤ n
    → n ≤ 125
    → start + n ≤ length source
    → (content : Bytes) × (response ≡ 3 ∷ length content ∷ content)
      × WordsRead source start n content
answered_content (AnswersWords.wrong_quantity (inl h)) lo hi inside = absurd (omega arith)
answered_content (AnswersWords.wrong_quantity (inr h)) lo hi inside = absurd (omega arith)
answered_content (AnswersWords.past_end _ _ h) lo hi inside = absurd (omega arith)
answered_content (AnswersWords.content {c} _ _ _ w) lo hi inside = (c, refl, w)

-- What a connected client reads inside the table, by what the server answers.
pub holding_content :
    (client : Client Server)
    → IsConnected client
    → (s : Server) (address n : ℕ) → address < 65536
    → 1 ≤ n
    → n ≤ 125
    → address + n ≤ length s.holding_registers
    → (content : Bytes) × (client.read_holding_registers address n s ≡ (ok content, s))
      × WordsRead s.holding_registers address n content
holding_content client connected s address n small lo hi inside =
    let a : high_byte address * 256 + low_byte address ≡ address = omega (arith, small) in
    let b : high_byte n * 256 + low_byte n ≡ n = omega (arith, hi) in
    let replies =
      handle_pdu-AnswersWords s (high_byte address) (low_byte address) (high_byte n) (low_byte n)
        [] in
    let (response, e, answers) = replies.0 in
    let answers' : AnswersWords 3 s.holding_registers address n response = rw (a, b) at answers in
    let (content, same, read) = answered_content answers' lo hi inside in
    (content, connected.holding s s address n content small lo hi (cc (e, same)), read)

-- The content for one word and for two, high byte first.
pub content_one :
    (source : List ℕ) (start w : ℕ) (content : Bytes)
    → WordsRead source start 1 content
    → get_elem? source start ≡ some w
    → content ≡ high_byte w ∷ low_byte w ∷ []
content_one source start w content read e =
    list_ext content (high_byte w ∷ low_byte w ∷ []) λ j. entry j
  where
    entry : (j : ℕ) → get_elem? content j ≡ get_elem? (high_byte w ∷ low_byte w ∷ []) j
    entry zero = ground (arith, read.entry 0)
    entry (suc zero) = ground (arith, read.entry 1)
    entry (suc (suc j)) = ground (arith, read.entry (suc (suc j)))

pub content_two :
    (source : List ℕ) (start hi lo : ℕ) (content : Bytes)
    → WordsRead source start 2 content
    → get_elem? source start ≡ some hi
    → get_elem? source (start + 1) ≡ some lo
    → content ≡ high_byte hi ∷ low_byte hi ∷ high_byte lo ∷ low_byte lo ∷ []
content_two source start hi lo content read e e' =
    list_ext content (high_byte hi ∷ low_byte hi ∷ high_byte lo ∷ low_byte lo ∷ []) λ j. entry j
  where
    entry :
        (j : ℕ)
        → get_elem? content j
          ≡ get_elem? (high_byte hi ∷ low_byte hi ∷ high_byte lo ∷ low_byte lo ∷ []) j
    entry zero = ground (arith, read.entry 0)
    entry (suc zero) = ground (arith, read.entry 1)
    entry (suc (suc zero)) = ground (arith, read.entry 2)
    entry (suc (suc (suc zero))) = ground (arith, read.entry 3)
    entry (suc (suc (suc (suc j)))) = ground (arith, read.entry (suc (suc (suc (suc j)))))

pub be16-word :
    (w : ℕ) (rest : Bytes) → w < 65536 → be16 {E = Error} (high_byte w ∷ low_byte w ∷ rest) 0 ≡ ok w
unfolding be16 index
be16-word w rest h = let e : w / 256 % 256 * 256 + w % 256 ≡ w = omega (arith, h) in rw e refl

-- What a register reads as.
abbrev pub reads_as : {F : Type 0} → FloatOps F → Text → F → F
reads_as ops data_type x =
    if same data_type (text "float32")
    then ops.of_bits (ops.to_bits x)
    else ops.of_int (ops.round_to_int x)

-- The value fits the data type.
abbrev pub Fits : {F : Type 0} → FloatOps F → Text → F → Type 0
Fits ops data_type x =
    (ops.is_finite x ≡ true)
    × (((data_type ≡ text "uint16") × (in_range (ops.round_to_int x) 0 65535 ≡ true))
        ⊎ (((data_type ≡ text "int16") × (in_range (ops.round_to_int x) 32768 32767 ≡ true))
            ⊎ ((data_type ≡ text "float32")
                × (ops.overflows x ≡ false)
                × (ops.to_bits x < 2 ^ 32))))

-- How many registers a value takes.
abbrev pub words_of : Text → ℕ
words_of data_type = if same data_type (text "float32") then 2 else 1
