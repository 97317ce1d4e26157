-- ===== src/Mocktty/Stream/Frames.antt =====
-- A whole request on the stream (handleStream of cmd/mocktty/main.go), with its checksum right or
-- with one byte wrong.
use mutil_modbus.Prelude.{
  ℕ, ◌/◌, ◌%◌, ◌≤◌, ◌<◌, ◌≡◌, ◌≢◌, refl, sym, ◌∙◌, ap, true, false, ◌⊎◌, length, ◌&&◌, ◌||◌, [],
  ◌∷◌, ◌++◌, leb, ◌==◌, if◌then◌else◌, arith, Bool-cases, inl, inr, All, All-append, ==_iff,
}
use mutil_modbus.Go.{Bytes, IsByte, read_full-append}
use mutil_modbus.Rtu.Crc.{crc16_modbus}
use mutil_modbus.Rtu.Crc.Laws.{crc16_modbus-IsWord, crc16_modbus_one_byte, crc16_modbus_residue}
use mutil_modbus.Mocktty.Store.{Store}
use mutil_modbus.Mocktty.Pdu.{handle_rtu_pdu}
use mutil_modbus.Mocktty.Stream.{
  le16, sealed, skipped, respond, check, short_frame, long_frame, round,
}

-- The checksum that `sealed` adds.
abbrev pub tail_of : Bytes → Bytes
tail_of body = crc16_modbus body % 256 ∷ crc16_modbus body / 256 % 256 ∷ []

le16-tail_of : (body : Bytes) → All IsByte body → le16 (tail_of body) ≡ crc16_modbus body
le16-tail_of body h = let w : crc16_modbus body < 65536 = crc16_modbus-IsWord body h in omega arith

-- Over a sealed content, its checksum included, the checksum is zero: a peer that checks an answer
-- in this way accepts it.
pub sealed_residue : (body : Bytes) → All IsByte body → crc16_modbus (sealed body) ≡ 0
unfolding sealed
sealed_residue body h =
    let w : crc16_modbus body < 65536 = crc16_modbus-IsWord body h in
    let e : crc16_modbus body / 256 % 256 ≡ crc16_modbus body / 256 = omega arith in
    rw e (crc16_modbus_residue body h)

short_frame_lem :
    (st : Store) (slave address fn a b c d x y : ℕ) (rest : Bytes)
    → short_frame st slave address fn (a ∷ b ∷ c ∷ d ∷ x ∷ y ∷ rest)
      ≡ check st slave address (fn ∷ a ∷ b ∷ c ∷ d ∷ []) (x ∷ y ∷ []) rest
unfolding short_frame
short_frame_lem st slave address fn a b c d x y rest =
    rw (read_full-append (a ∷ b ∷ c ∷ d ∷ x ∷ y ∷ []) rest 6 refl, short_frame) refl

check_lem :
    (st : Store) (slave address : ℕ) (pdu rest : Bytes)
    → All IsByte (address ∷ pdu)
    → check st slave address pdu (tail_of (address ∷ pdu)) rest ≡ (
        if slave == 0 || address == slave
        then respond st address rest (handle_rtu_pdu st pdu)
        else skipped rest)
unfolding check
check_lem st slave address pdu rest h =
    let s : (crc16_modbus (address ∷ pdu) == le16 (tail_of (address ∷ pdu))) ≡ true =
      (==_iff _ _).1 (sym (le16-tail_of (address ∷ pdu) h)) in
    rw s (elim (Bool-cases (slave == 0)) [
      | inl z ↦ rw z refl
      | inr z ↦
          rw z (elim (Bool-cases (address == slave)) [ inl y ↦ rw y refl | inr y ↦ rw y refl ])
    ])

-- A request for one of the functions 1 to 6 with its checksum behind it is handed to the handler and
-- answered when its address is the slave's or the slave is 0, and skipped for any other slave; what
-- follows the frame is left for the next round.
pub round-sealed :
    (st : Store) (slave address fn a b c d : ℕ) (rest : Bytes)
    → All IsByte (address ∷ fn ∷ a ∷ b ∷ c ∷ d ∷ [])
    → 1 ≤ fn
    → fn ≤ 6
    → round st slave (sealed (address ∷ fn ∷ a ∷ b ∷ c ∷ d ∷ []) ++ rest) ≡ (
        if slave == 0 || address == slave
        then respond st address rest (handle_rtu_pdu st (fn ∷ a ∷ b ∷ c ∷ d ∷ []))
        else skipped rest)
unfolding round sealed
round-sealed st slave address fn a b c d rest h lo hi =
    let e : (leb 1 fn && leb fn 6) ≡ true = ground arith in
    rw e (
      short_frame_lem st slave address fn a b c d _ _ rest
      ∙ check_lem st slave address (fn ∷ a ∷ b ∷ c ∷ d ∷ []) rest h)

-- A checked request that differs in one byte from the one that its checksum was made for.
check_corrupted :
    (st : Store) (slave address : ℕ) (pdu xs ys rest : Bytes) (sent got : ℕ)
    → All IsByte xs
    → All IsByte ys
    → IsByte sent
    → IsByte got
    → address ∷ pdu ≡ xs ++ (got ∷ ys)
    → sent ≢ got
    → check st slave address pdu (tail_of (xs ++ (sent ∷ ys))) rest ≡ skipped rest
unfolding check
check_corrupted st slave address pdu xs ys rest sent got hx hy hs hg same differ =
    elim (Bool-cases (crc16_modbus (address ∷ pdu) == le16 (tail_of (xs ++ (sent ∷ ys))))) [
      | inl e ↦ absurd (
          differ (
            sym (
              crc16_modbus_one_byte xs ys got sent hx hy hg hs (
                sym (ap crc16_modbus same)
                ∙ (==_iff _ _).0 e
                ∙ le16-tail_of (xs ++ (sent ∷ ys)) (All-append IsByte xs _ hx (hs, hy))))))
      | inr e ↦ rw e refl
    ]

-- A request as the loop frames it when it arrives: six bytes for the functions 1 to 6, and for 15
-- and 16 as many bytes of payload as its count says.
pub data Framed : Bytes → Type 0 where
  short : (address fn a b c d : ℕ) → 1 ≤ fn → fn ≤ 6 → Framed (address ∷ fn ∷ a ∷ b ∷ c ∷ d ∷ [])
  long :
      (address fn a b c d : ℕ) (payload : Bytes)
      → (fn ≡ 15) ⊎ (fn ≡ 16)
      → Framed (address ∷ fn ∷ a ∷ b ∷ c ∷ d ∷ length payload ∷ payload)

long_frame_lem :
    (st : Store) (slave address fn a b c d x y : ℕ) (payload rest : Bytes)
    → long_frame st slave address fn (a ∷ b ∷ c ∷ d ∷ length payload ∷ (payload ++ (x ∷ y ∷ rest)))
      ≡ check st slave address (fn ∷ a ∷ b ∷ c ∷ d ∷ length payload ∷ payload) (x ∷ y ∷ []) rest
unfolding long_frame
long_frame_lem st slave address fn a b c d x y payload rest =
    rw
      (
        read_full-append (a ∷ b ∷ c ∷ d ∷ length payload ∷ []) (payload ++ (x ∷ y ∷ rest)) 5 refl,
        long_frame,
      )
      (rw (read_full-append payload (x ∷ y ∷ rest) (length payload) refl, long_frame)
        (rw (read_full-append (x ∷ y ∷ []) rest 2 refl, long_frame) refl))

framed_lem :
    (st : Store) (slave : ℕ) (address : ℕ) (pdu : Bytes) (x y : ℕ) (rest : Bytes)
    → Framed (address ∷ pdu)
    → round st slave (address ∷ (pdu ++ (x ∷ y ∷ rest)))
      ≡ check st slave address pdu (x ∷ y ∷ []) rest
unfolding round
framed_lem st slave _ _ x y rest (short address fn a b c d lo hi) =
    let e : (leb 1 fn && leb fn 6) ≡ true = ground arith in
    rw e (short_frame_lem st slave address fn a b c d x y rest)
framed_lem st slave _ _ x y rest (long address fn a b c d payload h) =
    let e : (leb 1 fn && leb fn 6) ≡ false = ground arith in
    let e' : (fn == 15 || fn == 16) ≡ true = ground arith in
    rw (e, e') (long_frame_lem st slave address fn a b c d x y payload rest)

-- A whole request that arrives with a checksum made for content that differs from it in one byte,
-- wherever that byte stands, is skipped up to its end: the registers stay as they are, nothing is
-- written back and the next round starts at the byte behind it. The request is whole as it arrives:
-- its function is 1 to 6, or it is 15 or 16 with as much payload as its count says.
pub round_corrupted :
    (st : Store) (slave address : ℕ) (pdu xs ys rest : Bytes) (sent got : ℕ)
    → Framed (address ∷ pdu)
    → All IsByte xs
    → All IsByte ys
    → IsByte sent
    → IsByte got
    → address ∷ pdu ≡ xs ++ (got ∷ ys)
    → sent ≢ got
    → round st slave (address ∷ (pdu ++ (tail_of (xs ++ (sent ∷ ys)) ++ rest))) ≡ skipped rest
round_corrupted st slave address pdu xs ys rest sent got framed hx hy hs hg same differ =
    framed_lem st slave address pdu _ _ rest framed
    ∙ check_corrupted st slave address pdu xs ys rest sent got hx hy hs hg same differ
