-- ===== src/Rtu/Crc.antt =====
-- The checksum of an RTU frame, crc16Modbus (cmd/mocktty/main.go and, in the same words,
-- cmd/server/main.go).
pub mod Laws
use mutil_modbus.Prelude.{
  ℕ, zero, suc, ◌+◌, ◌*◌, ◌/◌, ◌%◌, ◌<◌, ◌≡◌, refl, bit_and, bit_xor, Bool, true, false, List, [],
  ◌∷◌, ◌++◌, ◌==◌, ltb, if◌then◌else◌, arith,
}
use mutil_modbus.Go.{Bytes}

-- One round of the inner loop.
unfoldable pub crc_round : ℕ → ℕ
crc_round crc = if bit_and crc 1 == 0 then crc / 2 else bit_xor (crc / 2) 0xA001

unfoldable pub crc_rounds : ℕ → ℕ → ℕ
crc_rounds zero crc = crc
crc_rounds (suc n) crc = crc_rounds n (crc_round crc)

unfoldable pub crc_loop : ℕ → Bytes → ℕ
crc_loop crc [] = crc
crc_loop crc (b ∷ bs) = crc_loop (crc_rounds 8 (bit_xor crc b)) bs

unfoldable pub crc16_modbus : Bytes → ℕ
crc16_modbus content = crc_loop 0xFFFF content

-- The check value of the CRC-16/MODBUS catalogue entry, over "123456789".
check_value :
    crc16_modbus (0x31 ∷ 0x32 ∷ 0x33 ∷ 0x34 ∷ 0x35 ∷ 0x36 ∷ 0x37 ∷ 0x38 ∷ 0x39 ∷ []) ≡ 0x4B37
unfolding crc16_modbus crc_loop crc_rounds crc_round
check_value = refl
