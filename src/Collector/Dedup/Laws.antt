-- ===== src/Collector/Dedup/Laws.antt =====
-- The cache gives back what was set until its time is over, and a repeated value is stored once.
use mutil_modbus.Prelude.{
  ℕ, ◌+◌, ◌-◌, ◌≤◌, ◌<◌, ◌≡◌, refl, sym, Bool, true, false, List, none, some, ltb, arith,
}
use mutil_modbus.Prelude.Text.{Text, same_refl}
use mutil_modbus.Collector.Dedup.{
  ValueCache, get_value, set_value, NearOps, floats_equal, Reading, key_of, on_value,
}

-- A value that was set at `t` is read as it was set at every time up to the TTL after `t`, and
-- reading it leaves the cache unchanged.
pub set_value-get_value :
    {F : Type 0} (c : ValueCache F) (key : Text) (v : F) (t now : ℕ)
    → now ≤ t + c.ttl
    → get_value (set_value c key v t) key now ≡ (some v, set_value c key v t)
unfolding get_value set_value
set_value-get_value c key v t now h =
    let live : ltb c.ttl (now - t) ≡ false = ground arith in
    rw (same_refl key, live, get_value) refl

-- A value that was set at `t` is gone at every time later than the TTL after `t`.
pub set_value-expired :
    {F : Type 0} (c : ValueCache F) (key : Text) (v : F) (t now : ℕ)
    → t + c.ttl < now
    → (get_value (set_value c key v t) key now).0 ≡ none
unfolding get_value set_value
set_value-expired c key v t now h =
    let over : ltb c.ttl (now - t) ≡ true = ground arith in rw (same_refl key, over, get_value) refl

-- Once a value is in the cache, a reading of the same point whose value is near to it reaches no
-- storage up to the TTL later: the cache and the stored values stay as they are, with no error.
pub on_value_repeated :
    {F : Type 0} (ops : NearOps F) (store : Reading F → Bool) (c : ValueCache F)
    (stored : List (Reading F)) (first second : Reading F) (t now : ℕ)
    → key_of first ≡ key_of second
    → floats_equal ops first.value second.value ≡ true
    → now ≤ t + c.ttl
    → on_value ops store now (set_value c (key_of first) first.value t) stored second
      ≡ record { cache = set_value c (key_of first) first.value t; stored = stored; failed = false }
unfolding on_value
on_value_repeated ops store c stored first second t now same_key near h =
    rw (sym same_key, set_value-get_value c (key_of first) first.value t now h, near, on_value) refl
