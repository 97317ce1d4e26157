-- ===== src/Collector/Point/Decoding.antt =====
-- The byte orders of a value of four bytes (reorder32 and decodeRegisterData of
-- internal/collector/client.go), against the layouts that their names spell.
use mutil_modbus.Prelude.{ℕ, ◌+◌, ◌*◌, ◌≡◌, refl, [], ◌∷◌}
use mutil_modbus.Prelude.Text.{Text, text, to_upper, trim_space}
use mutil_modbus.Prelude.Float.{FloatOps, pos, signed}
use mutil_modbus.Go.{ok, Bytes, be16, index}
use mutil_modbus.Collector.Point.{reorder32, decode_raw, raw_float32, raw_uint32, raw_int32}

-- The orders of the configuration; no order stands for the first one.
pub data Order : Type 0 where
  unnamed abcd dcba badc cdab : Order

abbrev pub name_of : Order → Text
name_of unnamed = []
name_of abcd = text "ABCD"
name_of dcba = text "DCBA"
name_of badc = text "BADC"
name_of cdab = text "CDAB"

-- How a device lays out the bytes `a b c d`, highest first: as the letters of the name stand.
abbrev pub layout : Order → ℕ → ℕ → ℕ → ℕ → Bytes
layout unnamed a b c d = a ∷ b ∷ c ∷ d ∷ []
layout abcd a b c d = a ∷ b ∷ c ∷ d ∷ []
layout dcba a b c d = d ∷ c ∷ b ∷ a ∷ []
layout badc a b c d = b ∷ a ∷ d ∷ c ∷ []
layout cdab a b c d = c ∷ d ∷ a ∷ b ∷ []

-- The word of four bytes, highest first.
abbrev pub word32 : ℕ → ℕ → ℕ → ℕ → ℕ
word32 a b c d = (a * 256 + b) * 65536 + (c * 256 + d)

module _ {F : Type 0} (ops : FloatOps F) where
  decode_raw_lem :
      (p q r s a b c d : ℕ) (order : Text)
      → reorder32 p q r s order ≡ a ∷ b ∷ c ∷ d ∷ []
      → (decode_raw ops (p ∷ q ∷ r ∷ s ∷ []) (text "float32") order
          ≡ ok (raw_float32 (word32 a b c d), ops.of_bits (word32 a b c d)))
        × (decode_raw ops (p ∷ q ∷ r ∷ s ∷ []) (text "uint32") order
            ≡ ok (raw_uint32 (word32 a b c d), ops.of_int (pos (word32 a b c d))))
        × (decode_raw ops (p ∷ q ∷ r ∷ s ∷ []) (text "int32") order
            ≡ ok (
              raw_int32 (signed 2147483648 (word32 a b c d)),
              ops.of_int (signed 2147483648 (word32 a b c d)),
            ))
  unfolding decode_raw index be16
  decode_raw_lem p q r s a b c d order e = (
    rw (e, decode_raw, index, be16) refl,
    rw (e, decode_raw, index, be16) refl,
    rw (e, decode_raw, index, be16) refl,
  )

  -- The bytes `a b c d` of a word, laid out by a device in one of the four orders, decode to that
  -- word for each of the three data types of two registers, when the point's byte order is the name of
  -- this order in any case and with blanks around it; the empty byte order stands for ABCD.
  pub decode_raw-layout :
      (o : Order) (a b c d : ℕ) (order : Text)
      → to_upper (trim_space order) ≡ name_of o
      → (decode_raw ops (layout o a b c d) (text "float32") order
          ≡ ok (raw_float32 (word32 a b c d), ops.of_bits (word32 a b c d)))
        × (decode_raw ops (layout o a b c d) (text "uint32") order
            ≡ ok (raw_uint32 (word32 a b c d), ops.of_int (pos (word32 a b c d))))
        × (decode_raw ops (layout o a b c d) (text "int32") order
            ≡ ok (
              raw_int32 (signed 2147483648 (word32 a b c d)),
              ops.of_int (signed 2147483648 (word32 a b c d)),
            ))
  unfolding reorder32
  decode_raw-layout unnamed a b c d order h =
      decode_raw_lem a b c d a b c d order (rw (h, reorder32) refl)
  decode_raw-layout abcd a b c d order h =
      decode_raw_lem a b c d a b c d order (rw (h, reorder32) refl)
  decode_raw-layout dcba a b c d order h =
      decode_raw_lem d c b a a b c d order (rw (h, reorder32) refl)
  decode_raw-layout badc a b c d order h =
      decode_raw_lem b a d c a b c d order (rw (h, reorder32) refl)
  decode_raw-layout cdab a b c d order h =
      decode_raw_lem c d a b a b c d order (rw (h, reorder32) refl)
