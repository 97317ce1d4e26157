-- ===== src/Mocktty/Pdu/Crash.antt =====
-- The one way to a panic: a write of coils whose payload has fewer bits than its quantity.
use mutil_modbus.Prelude.{
  ℕ, suc, ◌+◌, ◌*◌, ◌/◌, ◌%◌, ◌≤◌, ◌<◌, ◌≡◌, refl, ap, ◌∙◌, Bool, true, false, List, ◌∷◌, length,
  ltb, ◌==◌, arith, get_elem?-some, get_elem?-none,
}
use mutil_modbus.Prelude.Bits.{bit_at}
use mutil_modbus.Go.{assign_loop_panic, ok, panic, Bytes, be16, index, index-eq_ok}
use mutil_modbus.Mocktty.Store.{Store}
use mutil_modbus.Mocktty.Pdu.{
  Error, bad_quantity, coil_value, write_multiple_coils, write_answer, long_request, handle_rtu_pdu,
}

payload_bit_ok :
    (payload : Bytes) (k : ℕ) → k < 8 * length payload → (v : Bool) × (coil_value payload k ≡ ok v)
unfolding coil_value
payload_bit_ok payload k h =
    let (b, e) = get_elem?-some payload (k / 8) (omega arith) in
    (bit_at b (k % 8), rw (index-eq_ok {E = Error} payload (k / 8) e) refl)

payload_bit_panic : (payload : Bytes) → coil_value payload (8 * length payload) ≡ panic
unfolding coil_value index
payload_bit_panic payload =
    rw (get_elem?-none payload (8 * length payload / 8) (omega arith), index) refl

write_multiple_coils_panic :
    (dst : List Bool) (start qty : ℕ) (payload : Bytes)
    → bad_quantity qty 1968 ≡ false
    → start + qty ≤ length dst
    → 8 * length payload < qty
    → write_multiple_coils dst start qty payload ≡ panic
unfolding write_multiple_coils
write_multiple_coils_panic dst start qty payload good fits short =
    let inside : ltb (length dst) (start + qty) ≡ false = ground arith in
    rw (good, inside)
      (assign_loop_panic {E = Error} (coil_value payload) (8 * length payload) qty 0 start dst
        (λ k lo hi. payload_bit_ok payload k (omega arith))
        (ap (coil_value payload) (omega arith) ∙ payload_bit_panic payload) short (ground arith))

-- A request to write coils with a quantity that the quantity check and the range check accept, and
-- a payload of fewer bits than that, makes the handler panic, though its byte count is right.
pub handle_rtu_pdu_panic :
    (st : Store) (a b c d : ℕ) (payload : Bytes)
    → bad_quantity (c * 256 + d) 1968 ≡ false
    → a * 256 + b + (c * 256 + d) ≤ length st.coils
    → 8 * length payload < c * 256 + d
    → handle_rtu_pdu st (15 ∷ a ∷ b ∷ c ∷ d ∷ length payload ∷ payload) ≡ panic
unfolding handle_rtu_pdu long_request be16 index write_answer
handle_rtu_pdu_panic st a b c d payload good fits short =
    let six : ltb (suc (suc (suc (suc (suc (suc (length payload))))))) 6 ≡ false = ground arith in
    let size : (suc (suc (suc (suc (suc (suc (length payload)))))) == 6 + length payload) ≡ true =
      ground arith in
    rw
      (
        six,
        size,
        write_multiple_coils_panic st.coils (a * 256 + b) (c * 256 + d) payload good fits short,
      )
      refl
