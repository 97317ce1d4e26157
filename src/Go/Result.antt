-- ===== src/Go/Result.antt =====
-- A Go function's result: a value, an error, or the run-time panic of an index out of range.
use mutil_modbus.Prelude.{Bool, true, false, ◌≡◌, refl}

pub data Go {ℓ κ} (E : Type ℓ) (A : Type κ) : Type (ℓ ⊔ κ) where
  ok : A → Go E A
  fail : E → Go E A
  panic : Go E A

-- The error type of a Go function that returns no error.
abbrev pub NoError : Type 0
NoError = ⊥

infixl 5 ◌>>=◌ ◌>>◌
abbrev pub ◌>>=◌ {ℓ κ ι} : {E : Type ℓ} {A : Type κ} {B : Type ι} → Go E A → (A → Go E B) → Go E B
ok a >>= f = f a
fail e >>= f = fail e
panic >>= f = panic

abbrev pub ◌>>◌ {ℓ κ} : {E : Type ℓ} {B : Type κ} → Go E (Unit {0}) → Go E B → Go E B
m >> k = m >>= λ _. k

-- `if bad { return ..., err }`
abbrev pub fail_if {ℓ} : {E : Type ℓ} → Bool → E → Go E (Unit {0})
fail_if true e = fail e
fail_if false e = ok tt

-- The function runs through, with a value or an error.
abbrev pub Runs {ℓ κ} : {E : Type ℓ} {A : Type κ} → Go E A → Type 0
Runs (ok a) = Unit
Runs (fail e) = Unit
Runs panic = ⊥

-- The function runs through, and a value that it returns is as `P` says.
abbrev pub Ensures {ℓ κ} : {E : Type ℓ} {A : Type κ} → (A → Type 0) → Go E A → Type 0
Ensures P (ok a) = P a
Ensures P (fail e) = Unit
Ensures P panic = ⊥

pub Ensures-bind {ℓ κ ι} :
    {E : Type ℓ} {A : Type κ} {B : Type ι} (P : A → Type 0) (Q : B → Type 0) (m : Go E A)
    (f : A → Go E B)
    → Ensures P m
    → ((a : A) → P a → Ensures Q (f a))
    → Ensures Q (m >>= f)
Ensures-bind P Q (ok a) f h k = k a h
Ensures-bind P Q (fail e) f h k = tt
Ensures-bind P Q panic f h k = h

pub Ensures-imp {ℓ κ} :
    {E : Type ℓ} {A : Type κ} (P Q : A → Type 0) (m : Go E A)
    → ((a : A) → P a → Q a)
    → Ensures P m
    → Ensures Q m
Ensures-imp P Q (ok a) f h = f a h
Ensures-imp P Q (fail e) f h = tt
Ensures-imp P Q panic f h = h

-- The function runs through: a value that it returns is as `P` says, and an error as `Q` says.
abbrev pub Outcome {ℓ κ} : {E : Type ℓ} {A : Type κ} → (A → Type 0) → (E → Type 0) → Go E A → Type 0
Outcome P Q (ok a) = P a
Outcome P Q (fail e) = Q e
Outcome P Q panic = ⊥

pub Outcome-bind {ℓ κ ι} :
    {E : Type ℓ} {A : Type κ} {B : Type ι} (P : A → Type 0) (R : B → Type 0) (Q : E → Type 0)
    (m : Go E A) (f : A → Go E B)
    → Outcome P Q m
    → ((a : A) → P a → Outcome R Q (f a))
    → Outcome R Q (m >>= f)
Outcome-bind P R Q (ok a) f h k = k a h
Outcome-bind P R Q (fail e) f h k = h
Outcome-bind P R Q panic f h k = h

pub Outcome-imp {ℓ κ} :
    {E : Type ℓ} {A : Type κ} (P R : A → Type 0) (Q S : E → Type 0) (m : Go E A)
    → ((a : A) → P a → R a)
    → ((e : E) → Q e → S e)
    → Outcome P Q m
    → Outcome R S m
Outcome-imp P R Q S (ok a) f g h = f a h
Outcome-imp P R Q S (fail e) f g h = g e h
Outcome-imp P R Q S panic f g h = h

-- A sequence that returns a value has had one from its first part.
pub bind_ok {ℓ κ ι} :
    {E : Type ℓ} {A : Type κ} {B : Type ι} (m : Go E A) (f : A → Go E B) (b : B)
    → (m >>= f) ≡ ok b
    → (a : A) × (m ≡ ok a) × (f a ≡ ok b)
bind_ok (ok a) f b h = (a, refl, h)
bind_ok (fail e) f b h = absurd (cc h)
bind_ok panic f b h = absurd (cc h)
