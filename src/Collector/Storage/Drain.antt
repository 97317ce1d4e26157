-- ===== src/Collector/Storage/Drain.antt =====
-- After Close the writer comes to its end (internal/collector/storage.go).
use mutil_modbus.Prelude.{
  ℕ, ◌+◌, ◌≡◌, ◌≤◌, ◌⊎◌, refl, ◌∙◌, true, false, List, [], ◌∷◌, length, if◌then◌else◌, Bool-cases,
  inl, inr, arith,
}
use mutil_modbus.Collector.Point.{PointValue}
use mutil_modbus.Collector.Storage.{
  Formats, Files, Storage, try_send, flush, Step, accept, drop, write, close, finish, Run, start,
  next,
}
use mutil_modbus.Collector.Storage.Laws.{write_all, try_send_lem}

-- The rounds that the writer has left: one for each value, and the end.
abbrev pub work : {F W : Type 0} → Storage F W → ℕ
work s = length s.queue + (if s.closed then 0 else 1)

module _ {F W : Type 0} (formats : Formats F) (io : Files F W) where
  pub steps : (s t : Storage F W) → Run formats io s t → ℕ
  steps _ _ (start s) = 0
  steps _ _ (next s t _ run step) = steps s t run + 1

  -- The outputs once all that waits is written.
  abbrev pub final : Storage F W → W
  final s =
      if s.closed
      then s.files
      else flush formats io s.enabled (write_all formats io s.enabled s.queue s.files)

  -- The queue of a storage is closed, and when the writer has ended it is empty.
  abbrev IsClosing : Storage F W → Type 0
  IsClosing s = (s.queue_closed ≡ true) × (s.closed ≡ true → s.queue ≡ [])

  step-IsClosing :
      (s t : Storage F W)
      → Step formats io s t
      → IsClosing s
      → IsClosing t × (work s ≡ work t + 1) × (final t ≡ final s)
  unfolding try_send
  step-IsClosing s t (accept _ _ v e) h = absurd (cc ((try_send_lem s t v e).0, h.0))
  step-IsClosing s _ (drop _ v e) h = absurd (cc (rw (h.0, try_send) at e))
  step-IsClosing s _ (write _ v rest e c) h =
      ((h.0, λ d. absurd (cc (c, d))), rw (c, e) (omega arith), rw (c, e) refl)
  step-IsClosing s _ (close _ e) h = absurd (cc (e, h.0))
  step-IsClosing s _ (finish _ e q c) h = ((q, λ _. e), rw (c, e) (omega arith), rw (c, e) refl)

  -- A closing storage whose writer has not ended has a next step.
  ready :
      (s : Storage F W)
      → IsClosing s
      → (s.closed ≡ true) ⊎ ((t : Storage F W) × Step formats io s t)
  ready s h = elim (Bool-cases s.closed) [
    | inl c ↦ inl c
    | inr c ↦ inr (ready_open s.queue s h c refl)
  ]
    where
      ready_open :
          (q : List (PointValue F)) (s : Storage F W)
          → IsClosing s
          → s.closed ≡ false
          → s.queue ≡ q
          → (t : Storage F W) × Step formats io s t
      ready_open [] s h c e = (_, finish s e h.0 c)
      ready_open (v ∷ rest) s h c e = (_, write s v rest e c)

  run-IsClosing :
      (s t : Storage F W) (run : Run formats io s t)
      → IsClosing s
      → IsClosing t × (steps s t run + work t ≡ work s) × (final t ≡ final s)
  unfolding steps
  run-IsClosing s _ (start _) h = (h, omega arith, refl)
  run-IsClosing s u (next _ t _ run step) h =
      let (k, n, f) = run-IsClosing s t run h in
      let (l, m, g) = step-IsClosing t u step k in (l, omega (arith, n, m), g ∙ f)

  -- Once the queue is closed and the writer has not ended, each step from then on is one of the
  -- writer's rounds: as long as one of the values in the queue or the end is left there is a next
  -- step, and after as many steps as the queue had values, and one more, the writer has ended, with
  -- all the values written in their order and the outputs flushed.
  pub run-drains :
      (s t : Storage F W) (run : Run formats io s t)
      → s.queue_closed ≡ true
      → s.closed ≡ false
      → (steps s t run ≤ length s.queue + 1)
        × (((steps s t run ≤ length s.queue) × ((u : Storage F W) × Step formats io t u))
            ⊎ ((steps s t run ≡ length s.queue + 1)
                × (t.closed ≡ true)
                × (t.files
                    ≡ flush formats io s.enabled (write_all formats io s.enabled s.queue s.files))))
  run-drains s t run q c =
      let (k, n, f) = run-IsClosing s t run (q, λ d. absurd (cc (c, d))) in
      let total : steps s t run + work t ≡ length s.queue + 1 = n ∙ rw c refl in
      let files : final t
          ≡ flush formats io s.enabled (write_all formats io s.enabled s.queue s.files) =
        f ∙ rw c refl in
      (
        omega (arith, total),
        elim (Bool-cases t.closed) [
          | inl d ↦
              inr (
                let z : work t ≡ 0 = rw (d, k.1 d) refl in omega (arith, total, z),
                d,
                rw d at files,
              )
          | inr d ↦ inl (
            let z : work t ≡ length t.queue + 1 = rw d refl in omega (arith, total, z),
            elim (ready t k) [ inl e ↦ absurd (cc (d, e)) | inr step ↦ step ],
          )
        ],
      )
