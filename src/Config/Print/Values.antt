-- ===== src/Config/Print/Values.antt =====
-- Quoted texts and numbers are values that parseString (internal/config/config.go) gives back.
use mutil_modbus.Prelude.{
  ℕ, ◌+◌, ◌≡◌, refl, Bool, true, false, not, ◌&&◌, ◌||◌, [], ◌∷◌, ◌++◌, ◌==◌, All, arith,
}
use mutil_modbus.Prelude.Text.{
  Text, is_empty, is_space, trim_left, trim_right, trim_space, begins, ends, trim_codes, drop_left,
  drop_right,
}
use mutil_modbus.Prelude.Float.{ℤ, pos, negsuc}
use mutil_modbus.Config.{parse_string, unquote, is_quote}
use mutil_modbus.Config.Print.{quoted, print_nat, print_int}
use mutil_modbus.Config.Print.Numbers.{IsDigit, print_nat-IsDigit, nonempty_lem}
use mutil_modbus.Config.Print.Lines.{IsValue, trim_right-append}

-- What a quoted text cannot hold: a quote, a comment sign, a line feed.
abbrev pub IsClean : Text → Type 0
IsClean s = All (λ c. ((c == 34) || (c == 35) || (c == 10)) ≡ false) s

-- A word: no spaces, quotes or comment signs.
abbrev pub is_word_code : ℕ → Bool
is_word_code c = not (is_space c) && not (c == 34) && not (c == 35)

abbrev pub IsWordText : Text → Type 0
IsWordText s = (is_empty s ≡ false) × All (λ c. is_word_code c ≡ true) s

clean-no_comment : (s : Text) → IsClean s → All (λ c. (c == 35) ≡ false) (s ++ (34 ∷ []))
clean-no_comment [] h = (refl, tt)
clean-no_comment (c ∷ s) h = (ground (arith, h.0), clean-no_comment s h.1)

pub quoted-IsValue : (s : Text) → IsClean s → IsValue (quoted s)
unfolding trim_left trim_right
quoted-IsValue s h = record {
  filled = refl;
  left = refl;
  right = trim_right-append (34 ∷ s) (34 ∷ []) refl refl;
  no_comment = (refl, clean-no_comment s h);
}

ends-append : (s : Text) → ends 34 (s ++ (34 ∷ [])) ≡ true
unfolding ends
ends-append [] = refl
ends-append (c ∷ []) = refl
ends-append (c ∷ d ∷ s) = ends-append (d ∷ s)

drop_right-clean : (s : Text) → IsClean s → drop_right is_quote (s ++ (34 ∷ [])) ≡ s
unfolding drop_right
drop_right-clean [] h = refl
drop_right-clean (c ∷ []) h = let e : (c == 34) ≡ false = ground (arith, h.0) in rw e refl
drop_right-clean (c ∷ d ∷ s) h = rw (drop_right-clean (d ∷ s) h.1) refl

trim_codes-quoted : (s : Text) → IsClean s → trim_codes is_quote (quoted s) ≡ s
unfolding trim_codes drop_left drop_right
trim_codes-quoted [] h = refl
trim_codes-quoted (c ∷ s) h =
    let e : (c == 34) ≡ false = ground (arith, h.0) in rw e (drop_right-clean (c ∷ s) h)

pub parse_string-quoted : (s : Text) → IsClean s → parse_string (quoted s) ≡ s
unfolding parse_string unquote trim_space
parse_string-quoted s h =
    let v = quoted-IsValue s h in
    let e : ends 34 (quoted s) ≡ true = ends-append (34 ∷ s) in
    rw (v.left, v.right, e) (trim_codes-quoted s h)

word-trim_right : (s : Text) → All (λ c. is_word_code c ≡ true) s → trim_right s ≡ s
unfolding trim_right
word-trim_right [] h = refl
word-trim_right (c ∷ []) h = let e : is_space c ≡ false = ground (arith, h.0) in rw e refl
word-trim_right (c ∷ d ∷ s) h = rw (word-trim_right (d ∷ s) h.1) refl

word-no_comment : (s : Text) → All (λ c. is_word_code c ≡ true) s → All (λ c. (c == 35) ≡ false) s
word-no_comment [] h = tt
word-no_comment (c ∷ s) h = (ground (arith, h.0), word-no_comment s h.1)

pub word-IsValue : (s : Text) → IsWordText s → IsValue s
unfolding trim_left
word-IsValue [] h = absurd (cc (h.0))
word-IsValue (c ∷ s) h = record {
  filled = refl;
  left = let e : is_space c ≡ false = ground (arith, h.1.0) in rw e refl;
  right = word-trim_right (c ∷ s) h.1;
  no_comment = word-no_comment (c ∷ s) h.1;
}

pub parse_string-word : (s : Text) → IsWordText s → parse_string s ≡ s
unfolding parse_string unquote trim_space
parse_string-word [] h = absurd (cc (h.0))
parse_string-word (c ∷ s) h =
    let v = word-IsValue (c ∷ s) h in
    let q : begins 34 (c ∷ s) ≡ false = ground (arith, h.1.0) in rw (v.left, v.right, q) refl

digits-word : (s : Text) → All IsDigit s → All (λ c. is_word_code c ≡ true) s
digits-word [] h = tt
digits-word (c ∷ s) h = (ground (arith, h.0), digits-word s h.1)

pub print_nat-IsWordText : (n : ℕ) → IsWordText (print_nat n)
print_nat-IsWordText n = (nonempty_lem n, digits-word (print_nat n) (print_nat-IsDigit n))

pub print_int-IsWordText : (z : ℤ) → IsWordText (print_int z)
unfolding print_int
print_int-IsWordText (pos n) = print_nat-IsWordText n
print_int-IsWordText (negsuc n) = (refl, (refl, (print_nat-IsWordText (n + 1)).1))
