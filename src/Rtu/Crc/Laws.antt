-- ===== src/Rtu/Crc/Laws.antt =====
-- The checksum is a word, vanishes over a frame that carries it, and tells apart contents that
-- differ in one byte.
use mutil_modbus.Prelude.{
  ℕ, zero, suc, ◌+◌, ◌*◌, ◌/◌, ◌%◌, ◌≡◌, ◌≢◌, refl, sym, ap, ◌∙◌, bit_xor, Bool, true, ◌&&◌, [],
  ◌∷◌, ◌++◌, ◌==◌, ==_iff, ltb, if◌then◌else◌, arith, All,
}
use mutil_modbus.Prelude.Bits.{table, table_entry}
use mutil_modbus.Prelude.Xor.{xor-lt, xor_cancel, xor_comm}
use mutil_modbus.Go.{Bytes, IsByte, IsWord}
use mutil_modbus.Rtu.Crc.{crc_round, crc_rounds, crc_loop, crc16_modbus}

-- The round backwards: its result has the top bit exactly if the low bit was set.
unround : ℕ → ℕ
unround c = if ltb c 32768 then c * 2 else bit_xor c 0xA001 * 2 + 1

abbrev round_entry : ℕ → Bool
round_entry c = ltb (crc_round c) 65536 && unround (crc_round c) == c

round_table : table round_entry 65536 ≡ true
unfolding table crc_round unround
round_table = refl

crc_round-IsWord : (c : ℕ) → IsWord c → IsWord (crc_round c)
crc_round-IsWord c h = ground (arith, table_entry round_entry 65536 c round_table h)

unround-crc_round : (c : ℕ) → IsWord c → unround (crc_round c) ≡ c
unround-crc_round c h = ground (arith, table_entry round_entry 65536 c round_table h)

crc_rounds-IsWord : (n c : ℕ) → IsWord c → IsWord (crc_rounds n c)
unfolding crc_rounds
crc_rounds-IsWord zero c h = h
crc_rounds-IsWord (suc n) c h = crc_rounds-IsWord n (crc_round c) (crc_round-IsWord c h)

crc_rounds_inj : (n c d : ℕ) → IsWord c → IsWord d → crc_rounds n c ≡ crc_rounds n d → c ≡ d
unfolding crc_rounds
crc_rounds_inj zero c d h k e = e
crc_rounds_inj (suc n) c d h k e =
    let rounds =
      crc_rounds_inj n (crc_round c) (crc_round d) (crc_round-IsWord c h) (crc_round-IsWord d k)
        e in
    sym (unround-crc_round c h) ∙ ap unround rounds ∙ unround-crc_round d k

xor-IsWord : (c b : ℕ) → IsWord c → IsByte b → IsWord (bit_xor c b)
xor-IsWord c b h k = xor-lt 16 c b h (omega arith)

crc_loop-IsWord : (c : ℕ) (bs : Bytes) → IsWord c → All IsByte bs → IsWord (crc_loop c bs)
unfolding crc_loop
crc_loop-IsWord c [] h k = h
crc_loop-IsWord c (b ∷ bs) h k =
    crc_loop-IsWord (crc_rounds 8 (bit_xor c b)) bs
      (crc_rounds-IsWord 8 (bit_xor c b) (xor-IsWord c b h k.0)) k.1

-- The checksum of bytes is a uint16.
pub crc16_modbus-IsWord : (bs : Bytes) → All IsByte bs → IsWord (crc16_modbus bs)
unfolding crc16_modbus
crc16_modbus-IsWord bs h = crc_loop-IsWord 0xFFFF bs (omega arith) h

pub crc_loop-append : (c : ℕ) (xs ys : Bytes) → crc_loop c (xs ++ ys) ≡ crc_loop (crc_loop c xs) ys
unfolding crc_loop
crc_loop-append c [] ys = refl
crc_loop-append c (x ∷ xs) ys = crc_loop-append (crc_rounds 8 (bit_xor c x)) xs ys

xor_inj_left : (c d b : ℕ) → IsWord c → IsWord d → IsByte b → bit_xor c b ≡ bit_xor d b → c ≡ d
xor_inj_left c d b h k l e = cc (
  xor_cancel 16 b c (omega arith) h,
  xor_cancel 16 b d (omega arith) k,
  xor_comm 16 b c (omega arith) h,
  xor_comm 16 b d (omega arith) k,
)

xor_inj_right : (c a b : ℕ) → IsWord c → IsByte a → IsByte b → bit_xor c a ≡ bit_xor c b → a ≡ b
xor_inj_right c a b h k l e =
    cc (xor_cancel 16 c a h (omega arith), xor_cancel 16 c b h (omega arith))

crc_loop_inj :
    (c d : ℕ) (bs : Bytes)
    → IsWord c
    → IsWord d
    → All IsByte bs
    → crc_loop c bs ≡ crc_loop d bs
    → c ≡ d
unfolding crc_loop
crc_loop_inj c d [] h k l e = e
crc_loop_inj c d (b ∷ bs) h k l e =
    let wc = xor-IsWord c b h l.0 in
    let wd = xor-IsWord d b k l.0 in
    let same =
      crc_loop_inj (crc_rounds 8 (bit_xor c b)) (crc_rounds 8 (bit_xor d b)) bs
        (crc_rounds-IsWord 8 _ wc) (crc_rounds-IsWord 8 _ wd) l.1 e in
    xor_inj_left c d b h k l.0 (crc_rounds_inj 8 _ _ wc wd same)

pub crc16_modbus_one_byte :
    (xs ys : Bytes) (a b : ℕ)
    → All IsByte xs
    → All IsByte ys
    → IsByte a
    → IsByte b
    → crc16_modbus (xs ++ (a ∷ ys)) ≡ crc16_modbus (xs ++ (b ∷ ys))
    → a ≡ b
unfolding crc16_modbus
crc16_modbus_one_byte xs ys a b hx hy ha hb e =
    let c = crc_loop 0xFFFF xs in
    let wc : IsWord c = crc_loop-IsWord 0xFFFF xs (omega arith) hx in
    let wa = xor-IsWord c a wc ha in
    let wb = xor-IsWord c b wc hb in
    let after = sym (crc_loop-append 0xFFFF xs (a ∷ ys)) ∙ e ∙ crc_loop-append 0xFFFF xs (b ∷ ys) in
    let same =
      crc_loop_inj _ _ ys (crc_rounds-IsWord 8 _ wa) (crc_rounds-IsWord 8 _ wb) hy
        (unfold crc_loop in after) in
    xor_inj_right c a b wc ha hb (crc_rounds_inj 8 _ _ wa wb same)

-- Two contents that differ in exactly one byte, wherever it stands, have different checksums: every
-- error in a single byte is detected.
pub crc16_modbus_detects :
    (xs ys : Bytes) (a b : ℕ)
    → All IsByte xs
    → All IsByte ys
    → IsByte a
    → IsByte b
    → a ≢ b
    → crc16_modbus (xs ++ (a ∷ ys)) ≢ crc16_modbus (xs ++ (b ∷ ys))
crc16_modbus_detects xs ys a b hx hy ha hb differ e =
    differ (crc16_modbus_one_byte xs ys a b hx hy ha hb e)

abbrev low_entry : ℕ → Bool
low_entry c = crc_rounds 8 (bit_xor c (c % 256)) == c / 256

low_table : table low_entry 65536 ≡ true
unfolding table crc_rounds crc_round
low_table = refl

abbrev high_entry : ℕ → Bool
high_entry h = crc_rounds 8 (bit_xor h h) == 0

high_table : table high_entry 256 ≡ true
unfolding table crc_rounds crc_round
high_table = refl

-- Over a content with its own checksum behind it, low byte first, the checksum is zero.
pub crc16_modbus_residue :
    (bs : Bytes)
    → All IsByte bs
    → crc16_modbus (bs ++ (crc16_modbus bs % 256 ∷ crc16_modbus bs / 256 ∷ [])) ≡ 0
unfolding crc16_modbus
crc16_modbus_residue bs h =
    let c = crc_loop 0xFFFF bs in
    let w : IsWord c = crc_loop-IsWord 0xFFFF bs (omega arith) h in
    let low = (==_iff _ _).0 (table_entry low_entry 65536 c low_table w) in
    let high = (==_iff _ _).0 (table_entry high_entry 256 (c / 256) high_table (omega arith)) in
    crc_loop-append 0xFFFF bs _ ∙ (unfold crc_loop in rw low high)
