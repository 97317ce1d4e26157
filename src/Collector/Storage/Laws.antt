-- ===== src/Collector/Storage/Laws.antt =====
-- Accepted values are written in order and none is lost (internal/collector/storage.go).
use mutil_modbus.Prelude.{
  append_assoc, ℕ, ◌+◌, ◌≡◌, ◌≤◌, refl, sym, ap, subst, ◌∙◌, true, false, List, [], ◌∷◌, ◌++◌, some,
  length, ltb, length-append, if◌then◌else◌, Bool-cases, inl, inr, arith,
}
use mutil_modbus.Go.{Go, ok, fail, panic, bind_ok}
use mutil_modbus.Prelude.Text.{Text}
use mutil_modbus.Prelude.Float.{ℤ, pos, negsuc}
use mutil_modbus.Collector.Point.{PointValue}
use mutil_modbus.Collector.Storage.{
  Error, Outputs, Formats, Files, Storage, Opening, untouched, open_outputs, path_or_default,
  new_storage, select_outputs, max_queue_if_positive, try_send, write_value, flush, Step, accept,
  drop, write, close, finish, Run, start, next, accepted,
}

-- The effect of writing values one behind the other.
abbrev pub write_all :
    {F W : Type 0} → Formats F → Files F W → Outputs → List (PointValue F) → W → W
write_all formats io o [] w = w
write_all formats io o (v ∷ vs) w = write_all formats io o vs (write_value formats io o v w)

write_all-append :
    {F W : Type 0} (formats : Formats F) (io : Files F W) (o : Outputs)
    (xs ys : List (PointValue F)) (w : W)
    → write_all formats io o (xs ++ ys) w ≡ write_all formats io o ys (write_all formats io o xs w)
write_all-append formats io o [] ys w = refl
write_all-append formats io o (x ∷ xs) ys w =
    write_all-append formats io o xs ys (write_value formats io o x w)

-- A send that succeeds found the queue open and with room, and put the value at its end.
pub try_send_lem :
    {F W : Type 0} (s t : Storage F W) (v : PointValue F)
    → try_send s v ≡ ok (some t)
    → (s.queue_closed ≡ false)
      × (length s.queue + 1 ≤ s.capacity)
      × (record s { queue = s.queue ++ (v ∷ []) } ≡ t)
unfolding try_send
try_send_lem s t v e = elim (Bool-cases s.queue_closed) [
  | inl c ↦ absurd (cc (rw (c, try_send) at e))
  | inr c ↦ elim (Bool-cases (ltb (length s.queue) s.capacity)) [
    | inl r ↦ (c, ground (arith, r), cc (rw (c, r, try_send) at e))
    | inr r ↦ absurd (cc (rw (c, r, try_send) at e))
  ]
]

max_queue-pos : (v : ℤ) (def : ℕ) → 1 ≤ def → 1 ≤ max_queue_if_positive v def
unfolding max_queue_if_positive
max_queue-pos (pos v) def h = ground (arith, h)
max_queue-pos (negsuc v) def h = h

-- What NewStorage makes of the outputs that it selects and opens.
pub record Opened {F W : Type 0} (opening : Opening W) (db_path file_type : Text) (w : W)
    (s : Storage F W) : Type 0 where
  pub selected : select_outputs file_type ≡ ok s.enabled
  pub opens : open_outputs opening s.enabled (path_or_default db_path) w ≡ ok s.files
  pub room : 1 ≤ s.capacity
  pub waiting : s.queue ≡ []
  pub running : s.closed ≡ false

untouched_lem : {A W : Type 0} (w : W) (m : Go Error A) (a : A) → untouched w m ≡ ok a → m ≡ ok a
untouched_lem w (ok a) b e = cc e
untouched_lem w (fail x) b e = absurd (cc e)
untouched_lem w panic b e = absurd (cc e)

same_value : {E A : Type 0} (m : Go E A) (x y : A) → m ≡ ok x → m ≡ ok y → x ≡ y
same_value m x y e e' = let h : ok x ≡ ok y = sym e ∙ e' in cc h

new_storage-Opened :
    {F W : Type 0} (opening : Opening W) (db_path file_type : Text) (max_queue : ℤ) (w : W)
    (s : Storage F W)
    → new_storage opening db_path file_type max_queue w ≡ ok s
    → Opened opening db_path file_type w s
unfolding new_storage
new_storage-Opened {F} {W} opening db_path file_type max_queue w s e =
    let (o, selected, rest) = bind_ok (untouched w (select_outputs file_type)) _ s e in
    let (files, opens, made) =
      bind_ok (open_outputs opening o (path_or_default db_path) w) _ s rest in
    let same = same_value _ _ s refl made in
    subst (λ x. Opened opening db_path file_type w x) same
      (record {
        selected = untouched_lem w (select_outputs file_type) o selected;
        opens = opens;
        room = max_queue-pos max_queue 1000 (omega arith);
        waiting = refl;
        running = refl;
      })

module _ {F W : Type 0} (formats : Formats F) (io : Files F W) where
  -- What holds of a storage `t` that a new one, with the files `w`, became: the values that were
  -- accepted are those that are written and those that wait, in this order.
  pub record Keeps (o : Outputs) (capacity : ℕ) (w : W) (t : Storage F W)
      (values : List (PointValue F)) : Type 0 where
    pub enabled : t.enabled ≡ o
    pub room : t.capacity ≡ capacity
    pub written : List (PointValue F)
    pub order : values ≡ written ++ t.queue
    pub files : t.files ≡ (
        if t.closed
        then flush formats io o (write_all formats io o written w)
        else write_all formats io o written w)
    pub bound : length t.queue ≤ capacity
    pub ended : t.closed ≡ true → (t.queue ≡ []) × (t.queue_closed ≡ true)

  step-Keeps :
      (o : Outputs) (capacity : ℕ) (w : W) (s t u : Storage F W) (run : Run formats io s t)
      (step : Step formats io t u)
      → Keeps o capacity w t (accepted formats io s t run)
      → Keeps o capacity w u (accepted formats io s u (next s t u run step))
  unfolding accepted
  step-Keeps o n w s t u run (accept _ _ v e) k =
      let (c, room, same) = try_send_lem t u v e in
      subst (λ x. Keeps o n w x (accepted formats io s t run ++ (v ∷ []))) same
        (record {
          enabled = k.enabled;
          room = k.room;
          written = k.written;
          order = ap (λ vs. vs ++ (v ∷ [])) k.order ∙ append_assoc k.written t.queue (v ∷ []);
          files = k.files;
          bound = omega (arith, room, k.room, length-append t.queue (v ∷ []));
          ended = λ d. absurd (cc (c, (k.ended d).1));
        })
  step-Keeps o n w s t u run (drop _ v e) k = k
  step-Keeps o n w s t _ run (write _ v rest e c) k = record {
    enabled = k.enabled;
    room = k.room;
    written = k.written ++ (v ∷ []);
    order = k.order ∙ ap (λ q. k.written ++ q) e ∙ sym (append_assoc k.written (v ∷ []) rest);
    files =
        let f : t.files ≡ write_all formats io o k.written w = rw c at k.files in
        rw (c, f, k.enabled, write_all-append formats io o k.written (v ∷ []) w) refl;
    bound = omega (arith, k.bound, ap (λ q. length q) e);
    ended = λ d. absurd (cc (c, d));
  }
  step-Keeps o n w s t _ run (close _ e) k = record {
    enabled = k.enabled;
    room = k.room;
    written = k.written;
    order = k.order;
    files = k.files;
    bound = k.bound;
    ended = λ d. ((k.ended d).0, refl);
  }
  step-Keeps o n w s t _ run (finish _ e c d) k = record {
    enabled = k.enabled;
    room = k.room;
    written = k.written;
    order = k.order;
    files =
        let f : t.files ≡ write_all formats io o k.written w = rw d at k.files in
        rw (f, k.enabled) refl;
    bound = k.bound;
    ended = λ _. (e, c);
  }

  run-Keeps :
      (s t : Storage F W) (run : Run formats io s t)
      → s.queue ≡ []
      → s.closed ≡ false
      → Keeps s.enabled s.capacity s.files t (accepted formats io s t run)
  unfolding accepted
  run-Keeps s _ (start _) q c = record {
    enabled = refl;
    room = refl;
    written = [];
    order = sym q;
    files = rw c refl;
    bound = rw q (omega arith);
    ended = λ d. absurd (cc (c, d));
  }
  run-Keeps s u (next _ t _ run step) q c =
      step-Keeps s.enabled s.capacity s.files s t u run step (run-Keeps s t run q c)

  -- When NewStorage returns a storage, its outputs are those of the file type, its files are as
  -- `open_outputs` leaves them, and the queue has room for a value. However Handle, Close and the
  -- writer take their turns from then on, the values that Handle accepted are those that are written,
  -- in the same order, and behind them those in the queue: none is lost or written twice. The outputs
  -- are as the writes in this order leave the opened ones, flushed once the writer has ended; then the
  -- queue is closed and empty. The queue never holds more than its capacity.
  pub new_storage-Keeps :
      (opening : Opening W) (db_path file_type : Text) (max_queue : ℤ) (w : W) (s t : Storage F W)
      (run : Run formats io s t)
      → new_storage opening db_path file_type max_queue w ≡ ok s
      → (select_outputs file_type ≡ ok s.enabled)
        × (open_outputs opening s.enabled (path_or_default db_path) w ≡ ok s.files)
        × (1 ≤ s.capacity)
        × Keeps s.enabled s.capacity s.files t (accepted formats io s t run)
  new_storage-Keeps opening db_path file_type max_queue w s t run e =
      let new = new_storage-Opened opening db_path file_type max_queue w s e in
      (new.selected, new.opens, new.room, run-Keeps s t run new.waiting new.running)
