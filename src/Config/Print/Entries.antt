-- ===== src/Config/Print/Entries.antt =====
-- The lines of a section are read as the assignments of its entries in order (the loop of Load in
-- internal/config/config.go).
use mutil_modbus.Prelude.{ℕ, suc, ◌+◌, ◌≡◌, refl, List, [], ◌∷◌, ◌++◌, All, arith, length}
use mutil_modbus.Prelude.Text.{Text}
use mutil_modbus.Go.{Go, ok, fail, panic, ◌>>=◌}
use mutil_modbus.Config.{Floats, KeyError}
use mutil_modbus.Config.Parse.{Reader, read_lines, assign, wrapped}
use mutil_modbus.Config.Print.{entries}
use mutil_modbus.Config.Print.Lines.{IsKey, IsValue, bare-entry, read_bare-entry}

abbrev pub IsEntry : Text × Text → Type 0
IsEntry (key, value) = IsKey key × IsValue value

-- One entry behind the other.
abbrev pub assign_all :
    {A : Type 0} → (A → Text → Text → Go KeyError A) → A → List (Text × Text) → Go KeyError A
assign_all assign_to a [] = ok a
assign_all assign_to a ((key, value) ∷ es) =
    assign_to a key value >>= λ b. assign_all assign_to b es

-- In a section whose assignments are `assign_to` on a part of the reader, the lines of entries are
-- read as the assignments in their order.
module _ {F A : Type 0} (floats : Floats F) (put : A → Reader F)
    (assign_to : A → Text → Text → Go KeyError A)
    (law : (n : ℕ) (key value : Text) (a : A)
      → assign floats n key value (put a) ≡ wrapped n (assign_to a key value) put) where
  wrapped-read :
      (n : ℕ) (m : Go KeyError A) (es : List (Text × Text)) (rest : List Text) (b : A)
      → ((c : A)
          → assign_all assign_to c es ≡ ok b
          → read_lines floats n (entries es ++ rest) (put c)
            ≡ read_lines floats (n + length es) rest (put b))
      → (m >>= λ c. assign_all assign_to c es) ≡ ok b
      → (wrapped n m put >>= read_lines floats n (entries es ++ rest))
        ≡ read_lines floats (n + length es) rest (put b)
  wrapped-read n (ok c) es rest b k h = k c h
  wrapped-read n (fail e) es rest b k h = cc
  wrapped-read n panic es rest b k h = cc

  pub read_entries :
      (n : ℕ) (es : List (Text × Text)) (rest : List Text) (a b : A)
      → All IsEntry es
      → assign_all assign_to a es ≡ ok b
      → read_lines floats n (entries es ++ rest) (put a)
        ≡ read_lines floats (n + length es) rest (put b)
  unfolding read_lines
  read_entries n [] rest a b v h =
      let w : n + 0 ≡ n = omega arith in let e : a ≡ b = cc h in rw (w, e) refl
  read_entries n ((key, value) ∷ es) rest a b v h =
      let w : n + suc (length es) ≡ n + 1 + length es = omega arith in
      rw
        (
          bare-entry key value v.0.0 v.0.1,
          read_bare-entry floats (n + 1) key value (put a) v.0.0 v.0.1,
          law (n + 1) key value a,
          w,
        )
        (wrapped-read (n + 1) (assign_to a key value) es rest b
          (λ c. read_entries (n + 1) es rest c b v.1) h)
