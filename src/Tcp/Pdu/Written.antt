-- ===== src/Tcp/Pdu/Written.antt =====
-- What each handler's success leaves: data of the right size, or a valid server and five bytes.
use mutil_modbus.Prelude.{
  ℕ, suc, ◌+◌, ◌-◌, ◌*◌, ◌≤◌, ◌≡◌, refl, Bool, false, ◌&&◌, List, [], ◌∷◌, length, get_or, ltb, leb,
  ◌==◌, arith, Bool-cases, inl, inr, All, length-set, get_or-All, All-set, All-get_elem?,
  All-of_get_elem?,
}
use mutil_modbus.Go.{Go, Bytes, IsByte, IsWord, Stored, Ensures}
use mutil_modbus.Tcp.Server.{Error, Server, IsValid, SameSizes}
use mutil_modbus.Tcp.Pdu.{
  read_bits, read_registers, write_single_coil, write_single_register, write_multiple_coils,
  write_multiple_registers,
}
use mutil_modbus.Tcp.Pdu.Reads.{
  read_bits-BitsReply, read_registers-WordsReply, BitsReply, WordsReply,
}
use mutil_modbus.Tcp.Pdu.Writes.{
  write_multiple_coils-CoilsWritten, write_multiple_registers-WordsWritten, word_of, CoilsWritten,
  WordsWritten,
}
use mutil_modbus.Tcp.Pdu.Singles.{
  write_single_coil-CoilWritten, write_single_register-WordWritten, CoilWritten, WordWritten,
}

abbrev pub Content : Bytes → Type 0
Content c = (length c ≤ 250) × All IsByte c

BitsReply-Content :
    {source : List Bool} {start quantity : ℕ} {r : Go Error Bytes}
    → BitsReply source start quantity r
    → Ensures Content r
BitsReply-Content (BitsReply.wrong_quantity h) = tt
BitsReply-Content (BitsReply.past_end h k l) = tt
BitsReply-Content (BitsReply.content h k l b) = (omega (arith, b.byte_count), b.bytes)

WordsReply-Content :
    {source : List ℕ} {start quantity : ℕ} {r : Go Error Bytes}
    → WordsReply source start quantity r
    → Ensures Content r
WordsReply-Content (WordsReply.wrong_quantity h) = tt
WordsReply-Content (WordsReply.past_end h k l) = tt
WordsReply-Content (WordsReply.content h k l b) = (omega (arith, b.byte_count), b.bytes)

pub read_bits-Content : (source : List Bool) (pdu : Bytes) → Ensures Content (read_bits source pdu)
unfolding read_bits
read_bits-Content source [] = tt
read_bits-Content source (f ∷ []) = tt
read_bits-Content source (f ∷ a ∷ []) = tt
read_bits-Content source (f ∷ a ∷ b ∷ []) = tt
read_bits-Content source (f ∷ a ∷ b ∷ c ∷ []) = tt
read_bits-Content source (f ∷ a ∷ b ∷ c ∷ d ∷ rest) =
    BitsReply-Content (read_bits-BitsReply source f a b c d rest)

pub read_registers-Content :
    (source : List ℕ) (pdu : Bytes) → Ensures Content (read_registers source pdu)
unfolding read_registers
read_registers-Content source [] = tt
read_registers-Content source (f ∷ []) = tt
read_registers-Content source (f ∷ a ∷ []) = tt
read_registers-Content source (f ∷ a ∷ b ∷ []) = tt
read_registers-Content source (f ∷ a ∷ b ∷ c ∷ []) = tt
read_registers-Content source (f ∷ a ∷ b ∷ c ∷ d ∷ rest) =
    WordsReply-Content (read_registers-WordsReply source f a b c d rest)

-- A write of a valid request leaves a valid server and answers five bytes.
pub record Written (s : Server) (p : Server × Bytes) : Type 0 where
  pub sizes : SameSizes s p.0
  pub server : IsValid p.0
  pub length_eq : length p.1 ≡ 5
  pub bytes : All IsByte p.1

get_or-IsByte : (payload : Bytes) (i : ℕ) → All IsByte payload → IsByte (get_or payload i 0)
get_or-IsByte payload i h = get_or-All IsByte payload i 0 h (omega arith)

word_of-IsWord : (payload : Bytes) (i : ℕ) → All IsByte payload → IsWord (word_of payload i)
word_of-IsWord payload i h =
    ground (arith, get_or-IsByte payload (i * 2) h, get_or-IsByte payload (i * 2 + 1) h)

Stored-IsWord :
    {v : ℕ → ℕ} {start lo hi : ℕ} (xs r : List ℕ)
    → ((i : ℕ) → IsWord (v i))
    → All IsWord xs
    → Stored v start lo hi xs r
    → All IsWord r
Stored-IsWord {v} {start} {lo} {hi} xs r hv h st = All-of_get_elem? IsWord r (λ j w e.
    elim (Bool-cases (leb lo j && ltb j hi)) [
      | inl within ↦ ground (arith, st.entry j, hv (j - start))
      | inr without ↦ All-get_elem? IsWord xs j w h (ground (arith, st.entry j))
    ])

CoilsWritten-Written :
    {s : Server} {a b c d n : ℕ} {payload : Bytes} {r : Go Error (Server × Bytes)}
    → IsValid s
    → IsByte a × IsByte b × IsByte c × IsByte d
    → CoilsWritten s a b c d n payload r
    → Ensures (Written s) r
CoilsWritten-Written v h (CoilsWritten.wrong_quantity _) = tt
CoilsWritten-Written v h (CoilsWritten.wrong_count _ _ _) = tt
CoilsWritten-Written v h (CoilsWritten.wrong_size _ _) = tt
CoilsWritten-Written v h (CoilsWritten.past_end _) = tt
CoilsWritten-Written v h (CoilsWritten.stored _ _ _ _ _ st) = record {
  sizes = omega (arith, st.length_eq);
  server = record { holding_words = v.holding_words; input_words = v.input_words };
  length_eq = refl;
  bytes = omega arith;
}

WordsWritten-Written :
    {s : Server} {a b c d n : ℕ} {payload : Bytes} {r : Go Error (Server × Bytes)}
    → IsValid s
    → IsByte a × IsByte b × IsByte c × IsByte d
    → All IsByte payload
    → WordsWritten s a b c d n payload r
    → Ensures (Written s) r
WordsWritten-Written v h p (WordsWritten.wrong_quantity _) = tt
WordsWritten-Written v h p (WordsWritten.wrong_count _ _ _) = tt
WordsWritten-Written v h p (WordsWritten.wrong_size _ _) = tt
WordsWritten-Written v h p (WordsWritten.past_end _) = tt
WordsWritten-Written v h p (WordsWritten.stored _ _ _ _ _ st) = record {
  sizes = omega (arith, st.length_eq);
  server = record {
    holding_words = Stored-IsWord _ _ (λ i. word_of-IsWord _ i p) v.holding_words st;
    input_words = v.input_words;
  };
  length_eq = refl;
  bytes = omega arith;
}

CoilWritten-Written :
    {s : Server} {a b c d : ℕ} {r : Go Error (Server × Bytes)}
    → IsValid s
    → IsByte a × IsByte b × IsByte c × IsByte d
    → CoilWritten s a b c d r
    → Ensures (Written s) r
CoilWritten-Written v h (CoilWritten.wrong_value _ _) = tt
CoilWritten-Written v h (CoilWritten.past_end _) = tt
CoilWritten-Written {s} {a} {b} v h (CoilWritten.stored value _ _) = record {
  sizes = omega (arith, length-set s.coils (a * 256 + b) value);
  server = record { holding_words = v.holding_words; input_words = v.input_words };
  length_eq = refl;
  bytes = omega arith;
}

WordWritten-Written :
    {s : Server} {a b c d : ℕ} {r : Go Error (Server × Bytes)}
    → IsValid s
    → IsByte a × IsByte b × IsByte c × IsByte d
    → WordWritten s a b c d r
    → Ensures (Written s) r
WordWritten-Written v h (WordWritten.past_end _) = tt
WordWritten-Written {s} {a} {b} {c} {d} v h (WordWritten.stored _) = record {
  sizes = omega (arith, length-set s.holding_registers (a * 256 + b) (c * 256 + d));
  server = record {
    holding_words =
        All-set IsWord s.holding_registers (a * 256 + b) (c * 256 + d) v.holding_words
          (omega arith);
    input_words = v.input_words;
  };
  length_eq = refl;
  bytes = omega arith;
}

not_five : (rest : Bytes) → (suc (suc (suc (suc (suc (suc (length rest)))))) == 5) ≡ false
not_five rest = ground arith

pub write_single_coil-Written :
    (s : Server) (pdu : Bytes)
    → IsValid s
    → All IsByte pdu
    → Ensures (Written s) (write_single_coil s pdu)
write_single_coil-Written s (f ∷ a ∷ b ∷ c ∷ d ∷ []) v h =
    CoilWritten-Written v (omega arith) (write_single_coil-CoilWritten s f a b c d)
write_single_coil-Written s (f ∷ a ∷ b ∷ c ∷ d ∷ e ∷ rest) v h =
    unfold write_single_coil in rw (not_five rest) tt
write_single_coil-Written s [] v h = unfold write_single_coil in tt
write_single_coil-Written s (f ∷ []) v h = unfold write_single_coil in tt
write_single_coil-Written s (f ∷ a ∷ []) v h = unfold write_single_coil in tt
write_single_coil-Written s (f ∷ a ∷ b ∷ []) v h = unfold write_single_coil in tt
write_single_coil-Written s (f ∷ a ∷ b ∷ c ∷ []) v h = unfold write_single_coil in tt

pub write_single_register-Written :
    (s : Server) (pdu : Bytes)
    → IsValid s
    → All IsByte pdu
    → Ensures (Written s) (write_single_register s pdu)
write_single_register-Written s (f ∷ a ∷ b ∷ c ∷ d ∷ []) v h =
    WordWritten-Written v (omega arith) (write_single_register-WordWritten s f a b c d)
write_single_register-Written s (f ∷ a ∷ b ∷ c ∷ d ∷ e ∷ rest) v h =
    unfold write_single_register in rw (not_five rest) tt
write_single_register-Written s [] v h = unfold write_single_register in tt
write_single_register-Written s (f ∷ []) v h = unfold write_single_register in tt
write_single_register-Written s (f ∷ a ∷ []) v h = unfold write_single_register in tt
write_single_register-Written s (f ∷ a ∷ b ∷ []) v h = unfold write_single_register in tt
write_single_register-Written s (f ∷ a ∷ b ∷ c ∷ []) v h = unfold write_single_register in tt

pub write_multiple_coils-Written :
    (s : Server) (pdu : Bytes)
    → IsValid s
    → All IsByte pdu
    → Ensures (Written s) (write_multiple_coils s pdu)
write_multiple_coils-Written s (f ∷ a ∷ b ∷ c ∷ d ∷ n ∷ payload) v h =
    CoilsWritten-Written v (omega arith) (write_multiple_coils-CoilsWritten s f a b c d n payload)
write_multiple_coils-Written s [] v h = unfold write_multiple_coils in tt
write_multiple_coils-Written s (f ∷ []) v h = unfold write_multiple_coils in tt
write_multiple_coils-Written s (f ∷ a ∷ []) v h = unfold write_multiple_coils in tt
write_multiple_coils-Written s (f ∷ a ∷ b ∷ []) v h = unfold write_multiple_coils in tt
write_multiple_coils-Written s (f ∷ a ∷ b ∷ c ∷ []) v h = unfold write_multiple_coils in tt
write_multiple_coils-Written s (f ∷ a ∷ b ∷ c ∷ d ∷ []) v h = unfold write_multiple_coils in tt

pub write_multiple_registers-Written :
    (s : Server) (pdu : Bytes)
    → IsValid s
    → All IsByte pdu
    → Ensures (Written s) (write_multiple_registers s pdu)
write_multiple_registers-Written s (f ∷ a ∷ b ∷ c ∷ d ∷ n ∷ payload) v h =
    WordsWritten-Written v (omega arith) h.1.1.1.1.1.1
      (write_multiple_registers-WordsWritten s f a b c d n payload)
write_multiple_registers-Written s [] v h = unfold write_multiple_registers in tt
write_multiple_registers-Written s (f ∷ []) v h = unfold write_multiple_registers in tt
write_multiple_registers-Written s (f ∷ a ∷ []) v h = unfold write_multiple_registers in tt
write_multiple_registers-Written s (f ∷ a ∷ b ∷ []) v h = unfold write_multiple_registers in tt
write_multiple_registers-Written s (f ∷ a ∷ b ∷ c ∷ []) v h = unfold write_multiple_registers in tt
write_multiple_registers-Written s (f ∷ a ∷ b ∷ c ∷ d ∷ []) v h =
    unfold write_multiple_registers in tt
