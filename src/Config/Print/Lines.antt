-- ===== src/Config/Print/Lines.antt =====
-- A line `key = value` is read as an assignment of the value to the key (the body of Load's loop in
-- internal/config/config.go).
use mutil_modbus.Prelude.{
  ℕ, ◌≡◌, refl, Bool, true, false, not, ◌&&◌, [], ◌∷◌, ◌++◌, some, ◌==◌, All, arith,
}
use mutil_modbus.Prelude.Text.{
  Text, is_empty, is_space, trim_left, trim_right, trim_space, begins, before, split_at,
}
use mutil_modbus.Config.{Floats}
use mutil_modbus.Config.Parse.{Reader, bare, read_bare, assign}
use mutil_modbus.Config.Print.{entry}

-- The codes that a key is made of here: no space, `#`, `=` or `[`.
abbrev pub is_plain : ℕ → Bool
is_plain c = not (is_space c) && not (c == 35) && not (c == 61) && not (c == 91)

abbrev pub all_plain : Text → Bool
all_plain [] = true
all_plain (c ∷ s) = is_plain c && all_plain s

abbrev pub IsKey : Text → Type 0
IsKey key = (not (is_empty key) && all_plain key) ≡ true

-- A value without spaces around it and without a `#`.
pub record IsValue (s : Text) : Type 0 where
  pub filled : is_empty s ≡ false
  pub left : trim_left s ≡ s
  pub right : trim_right s ≡ s
  pub no_comment : All (λ c. (c == 35) ≡ false) s

pub trim_right-append :
    (xs ys : Text) → is_empty ys ≡ false → trim_right ys ≡ ys → trim_right (xs ++ ys) ≡ xs ++ ys
unfolding trim_right
trim_right-append [] ys e h = h
trim_right-append (x ∷ xs) [] e h = cc
trim_right-append (x ∷ []) (y ∷ ys) e h = rw h refl
trim_right-append (x ∷ z ∷ xs) (y ∷ ys) e h = rw (trim_right-append (z ∷ xs) (y ∷ ys) e h) refl

trim_right-plain : (s : Text) → all_plain s ≡ true → trim_right (s ++ (32 ∷ [])) ≡ s
unfolding trim_right
trim_right-plain [] h = refl
trim_right-plain (c ∷ []) h = let e : is_space c ≡ false = ground (arith, h) in rw e refl
trim_right-plain (c ∷ d ∷ s) h = rw (trim_right-plain (d ∷ s) (ground (arith, h))) refl

before-none : (s : Text) → All (λ c. (c == 35) ≡ false) s → before 35 s ≡ s
unfolding before
before-none [] h = refl
before-none (c ∷ s) h = rw (h.0, before-none s h.1) refl

plain-no_comment :
    (s rest : Text)
    → all_plain s ≡ true
    → All (λ c. (c == 35) ≡ false) rest
    → All (λ c. (c == 35) ≡ false) (s ++ rest)
plain-no_comment [] rest h k = k
plain-no_comment (c ∷ s) rest h k =
    (ground (arith, h), plain-no_comment s rest (ground (arith, h)) k)

split_at-plain :
    (s rest : Text)
    → all_plain s ≡ true
    → split_at 61 (s ++ (32 ∷ 61 ∷ rest)) ≡ some (s ++ (32 ∷ []), rest)
unfolding split_at
split_at-plain [] rest h = refl
split_at-plain (c ∷ s) rest h =
    let e : (c == 61) ≡ false = ground (arith, h) in
    rw (e, split_at-plain s rest (ground (arith, h))) refl

-- A key's first code.
key_head :
    (key rest : Text)
    → IsKey key
    → (trim_left (key ++ rest) ≡ key ++ rest)
      × (begins 35 (key ++ rest) ≡ false)
      × (begins 91 (key ++ rest) ≡ false)
      × (is_empty (key ++ rest) ≡ false)
unfolding trim_left
key_head [] rest h = cc
key_head (c ∷ s) rest h =
    let e : is_space c ≡ false = ground (arith, h) in
    (rw e refl, ground (arith, h), ground (arith, h), refl)

plain_lem : (key : Text) → IsKey key → all_plain key ≡ true
plain_lem [] h = cc
plain_lem (c ∷ s) h = ground (arith, h)

pub bare-entry :
    (key value : Text) → IsKey key → IsValue value → bare (entry (key, value)) ≡ entry (key, value)
unfolding bare entry trim_space
bare-entry key value h v =
    let line : Text = key ++ (32 ∷ 61 ∷ 32 ∷ value) in
    let l : trim_left line ≡ line = (key_head key (32 ∷ 61 ∷ 32 ∷ value) h).0 in
    let r : trim_right line ≡ line =
      trim_right-append key (32 ∷ 61 ∷ 32 ∷ value) refl
        (trim_right-append (32 ∷ 61 ∷ 32 ∷ []) value v.filled v.right) in
    let n : before 35 line ≡ line = before-none line (
      plain-no_comment key (32 ∷ 61 ∷ 32 ∷ value) (plain_lem key h)
        (refl, (refl, (refl, v.no_comment)))) in
    rw (l, r, n, l, r) refl

pub read_bare-entry :
    {F : Type 0} (floats : Floats F) (n : ℕ) (key value : Text) (st : Reader F)
    → IsKey key
    → IsValue value
    → read_bare floats n (entry (key, value)) st ≡ assign floats n key value st
unfolding read_bare entry trim_space trim_left
read_bare-entry floats n key value st h v =
    let k = key_head key (32 ∷ 61 ∷ 32 ∷ value) h in
    let t : trim_left (key ++ (32 ∷ [])) ≡ key ++ (32 ∷ []) = (key_head key (32 ∷ []) h).0 in
    rw
      (
        k.3,
        k.1,
        k.2,
        split_at-plain key (32 ∷ value) (plain_lem key h),
        t,
        trim_right-plain key (plain_lem key h),
        v.left,
        v.right,
      )
      refl
