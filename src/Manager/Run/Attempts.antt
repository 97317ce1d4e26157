-- ===== src/Manager/Run/Attempts.antt =====
-- The attempts to listen come to an end (Run of internal/servermgr/manager.go).
use mutil_modbus.Prelude.{
  ℕ, zero, suc, ◌≤◌, ◌<◌, ◌≡◌, ◌⊎◌, refl, Bool, true, false, none, some, Bool-cases, inl, inr,
  arith,
}
use mutil_modbus.Tcp.Server.{new_server}
use mutil_modbus.Manager.Run.{listen_loop}

-- The state of the network behind the first attempts.
abbrev pub after_attempts : {N : Type 0} → (N → Bool × N) → ℕ → N → N
after_attempts listen zero net = net
after_attempts listen (suc k) net = after_attempts listen k (listen net).1

-- The attempt after the first `k` ones.
abbrev pub succeeds : {N : Type 0} → (N → Bool × N) → ℕ → N → Bool
succeeds listen k net = (listen (after_attempts listen k net)).0

-- The first attempt that succeeds gives a new server, at most `left` attempts behind the first; when
-- none does there is no server, after all of them.
abbrev pub Attempted : {N : Type 0} → (N → Bool × N) → ℕ → N → Type 0
Attempted listen left net =
    ((k : ℕ) × (k ≤ left)
      × ((j : ℕ) → j < k → succeeds listen j net ≡ false)
      × (succeeds listen k net ≡ true)
      × (listen_loop listen left net ≡ (some new_server, after_attempts listen (suc k) net)))
    ⊎ (((j : ℕ) → j ≤ left → succeeds listen j net ≡ false)
        × (listen_loop listen left net ≡ (none, after_attempts listen (suc left) net)))

earlier_fail :
    {N : Type 0} (listen : N → Bool × N) (k : ℕ) (net : N)
    → (listen net).0 ≡ false
    → ((j : ℕ) → j < k → succeeds listen j (listen net).1 ≡ false)
    → (j : ℕ) → j < suc k
    → succeeds listen j net ≡ false
earlier_fail listen k net h g zero l = h
earlier_fail listen k net h g (suc j) l = g j (omega (arith, l))

listen_retry :
    {N : Type 0} (listen : N → Bool × N) (left : ℕ) (net : N)
    → (listen net).0 ≡ false
    → Attempted listen left (listen net).1
    → Attempted listen (suc left) net
unfolding listen_loop
listen_retry listen left net h (inl (k, l, g, e, r)) =
    inl (suc k, omega (arith, l), earlier_fail listen k net h g, e, rw (h, r) refl)
listen_retry listen left net h (inr (g, r)) = inr (
  λ j l. earlier_fail listen (suc left) net h (λ i m. g i (omega (arith, m))) j (omega (arith, l)),
  rw (h, r) refl,
)

-- The attempts to listen come to an end: with a retry count of `left` there are at most one more
-- attempts than that, the first one that succeeds ends them with a new server, and when all of them
-- fail there is none.
pub listen_loop-Attempted :
    {N : Type 0} (listen : N → Bool × N) (left : ℕ) (net : N) → Attempted listen left net
unfolding listen_loop
listen_loop-Attempted listen zero net = elim (Bool-cases (listen net).0) [
  | inl e ↦ inl (0, omega arith, λ j l. absurd (omega (arith, l)), e, rw e refl)
  | inr e ↦ inr (
    λ j l. earlier_fail listen 0 net e (λ i m. absurd (omega (arith, m))) j (omega (arith, l)),
    rw e refl,
  )
]
listen_loop-Attempted listen (suc left) net = elim (Bool-cases (listen net).0) [
  | inl e ↦ inl (0, omega arith, λ j l. absurd (omega (arith, l)), e, rw e refl)
  | inr e ↦ listen_retry listen left net e (listen_loop-Attempted listen left (listen net).1)
]
