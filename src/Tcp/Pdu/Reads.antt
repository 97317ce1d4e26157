-- ===== src/Tcp/Pdu/Reads.antt =====
-- What the read functions answer, on every branch.
use mutil_modbus.Prelude.{
  ℕ, suc, none, some, ◌+◌, ◌*◌, ◌/◌, ◌%◌, ◌≤◌, ◌<◌, ◌≡◌, ◌⊎◌, Bool, false, List, ◌∷◌, length,
  replicate, get_elem?, get_or, ltb, if◌then◌else◌, arith, Bool-cases, inl, inr, length-replicate,
  All, All-replicate, All-of_get_elem?, get_elem?-replicate, get_elem?-none, ◌∙◌,
}
use mutil_modbus.Prelude.Bits.{bit_at-zero}
use mutil_modbus.Go.{
  Go, ok, fail, Bytes, IsByte, be16, index, pack_loop, put_loop, pack_loop_lem, put_loop_lem,
  bit_of, word_byte,
}
use mutil_modbus.Tcp.Server.{Error, out_of_range, invalid_qty}
use mutil_modbus.Tcp.Pdu.{bad_quantity, read_bits, read_registers}

-- What a read of bits promises of its data.
pub record BitsRead (source : List Bool) (start quantity : ℕ) (content : Bytes) : Type 0 where
  pub byte_count : length content ≡ (quantity + 7) / 8
  pub bytes : All IsByte content
  pub bit :
      (j : ℕ)
      → bit_of content j ≡ (if ltb j quantity then get_or source (start + j) false else false)

-- How a read of bits ends: a bad quantity, a range past the table, or the bits.
pub data BitsReply (source : List Bool) (start quantity : ℕ) : Go Error Bytes → Type 0 where
  wrong_quantity :
      (quantity ≡ 0) ⊎ (2000 < quantity) → BitsReply source start quantity (fail invalid_qty)
  past_end :
      1 ≤ quantity
      → quantity ≤ 2000
      → length source < start + quantity
      → BitsReply source start quantity (fail out_of_range)
  content :
      {c : Bytes}
      → 1 ≤ quantity
      → quantity ≤ 2000
      → start + quantity ≤ length source
      → BitsRead source start quantity c
      → BitsReply source start quantity (ok c)

long_enough : (rest : Bytes) → ltb (suc (suc (suc (suc (suc (length rest)))))) 5 ≡ false
long_enough rest = ground arith

bit_of-zeros : (n j : ℕ) → bit_of (replicate n 0) j ≡ false
bit_of-zeros n j = ground (arith, get_elem?-replicate {A = ℕ} n 0 (j / 8), bit_at-zero (j % 8))

pack_zeros :
    (source : List Bool) (start quantity : ℕ)
    → start + quantity ≤ length source
    → (content : Bytes) × (pack_loop {E = Error} source start quantity 0
          (replicate ((quantity + 7) / 8) 0)
        ≡ ok content)
      × BitsRead source start quantity content
pack_zeros source start quantity h =
    let zeros : Bytes = replicate ((quantity + 7) / 8) 0 in
    let l : length zeros ≡ (quantity + 7) / 8 = length-replicate _ 0 in
    let (r, e, p) =
      pack_loop_lem {E = Error} source start quantity 0 zeros (omega arith) (omega arith)
        (All-replicate IsByte _ 0 (omega arith)) in
    (
      r,
      e,
      record {
        byte_count = p.length_eq ∙ l;
        bytes = p.bytes;
        bit = λ j. ground (arith, p.bit j, bit_of-zeros ((quantity + 7) / 8) j);
      },
    )

pub read_bits-BitsReply :
    (source : List Bool) (f a b c d : ℕ) (rest : Bytes)
    → BitsReply source (a * 256 + b) (c * 256 + d) (read_bits source (f ∷ a ∷ b ∷ c ∷ d ∷ rest))
unfolding read_bits be16 index
read_bits-BitsReply source f a b c d rest =
    let start = a * 256 + b in
    let quantity = c * 256 + d in
    rw (long_enough rest) (elim (Bool-cases (bad_quantity quantity 2000)) [
      | inl bad ↦ rw bad (BitsReply.wrong_quantity (ground arith))
      | inr good ↦ rw good (elim (Bool-cases (ltb (length source) (start + quantity))) [
        | inl out ↦ rw out (BitsReply.past_end (ground arith) (ground arith) (ground arith))
        | inr fits ↦ rw fits (
            let (c, e, r) = pack_zeros source start quantity (ground arith) in
            rw e (BitsReply.content (ground arith) (ground arith) (ground arith) r))
      ])
    ])

-- What a read of registers promises of its data.
pub record WordsRead (source : List ℕ) (start quantity : ℕ) (content : Bytes) : Type 0 where
  pub byte_count : length content ≡ quantity * 2
  pub bytes : All IsByte content
  pub entry :
      (j : ℕ)
      → get_elem? content j
        ≡ (if ltb j (quantity * 2) then some (word_byte source start j) else none)

-- How a read of registers ends.
pub data WordsReply (source : List ℕ) (start quantity : ℕ) : Go Error Bytes → Type 0 where
  wrong_quantity :
      (quantity ≡ 0) ⊎ (125 < quantity) → WordsReply source start quantity (fail invalid_qty)
  past_end :
      1 ≤ quantity
      → quantity ≤ 125
      → length source < start + quantity
      → WordsReply source start quantity (fail out_of_range)
  content :
      {c : Bytes}
      → 1 ≤ quantity
      → quantity ≤ 125
      → start + quantity ≤ length source
      → WordsRead source start quantity c
      → WordsReply source start quantity (ok c)

word_byte-lt : (source : List ℕ) (start j : ℕ) → word_byte source start j < 256
word_byte-lt source start j = ground arith

put_zeros :
    (source : List ℕ) (start quantity : ℕ)
    → start + quantity ≤ length source
    → quantity ≤ 125
    → (content : Bytes) × (put_loop {E = Error} source start quantity 0
          (replicate (quantity * 2 % 65536) 0)
        ≡ ok content)
      × WordsRead source start quantity content
put_zeros source start quantity h small =
    let zeros : Bytes = replicate (quantity * 2 % 65536) 0 in
    let l : length zeros ≡ quantity * 2 % 65536 = length-replicate _ 0 in
    let (r, e, p) =
      put_loop_lem {E = Error} source start quantity 0 zeros (omega arith) (omega arith) in
    let entry : (j : ℕ)
        → get_elem? r j ≡ (if ltb j (quantity * 2) then some (word_byte source start j) else none) =
      λ j. ground (arith, p.entry j, get_elem?-none zeros j) in
    (
      r,
      e,
      record {
        byte_count = omega (arith, p.length_eq);
        bytes =
            All-of_get_elem? IsByte r
              (λ j w hw. ground (arith, entry j, word_byte-lt source start j));
        entry = entry;
      },
    )

pub read_registers-WordsReply :
    (source : List ℕ) (f a b c d : ℕ) (rest : Bytes)
    → WordsReply source
        (a * 256 + b)
        (c * 256 + d)
        (read_registers source (f ∷ a ∷ b ∷ c ∷ d ∷ rest))
unfolding read_registers be16 index
read_registers-WordsReply source f a b c d rest =
    let start = a * 256 + b in
    let quantity = c * 256 + d in
    rw (long_enough rest) (elim (Bool-cases (bad_quantity quantity 125)) [
      | inl bad ↦ rw bad (WordsReply.wrong_quantity (ground arith))
      | inr good ↦ rw good (elim (Bool-cases (ltb (length source) (start + quantity))) [
        | inl out ↦ rw out (WordsReply.past_end (ground arith) (ground arith) (ground arith))
        | inr fits ↦ rw fits (
            let (c, e, r) = put_zeros source start quantity (ground arith) (ground arith) in
            rw e (WordsReply.content (ground arith) (ground arith) (ground arith) r))
      ])
    ])
