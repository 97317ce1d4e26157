-- ===== src/Collector/Poll/Complete.antt =====
-- A poll hands over the points in order, one value for each.
use mutil_modbus.Prelude.{
  append-nil, sym, ℕ, suc, ◌<◌, ◌≡◌, refl, ap, ◌∙◌, List, [], ◌∷◌, ◌++◌, none, some, map, take,
  length, Bool-cases, inl, inr, arith, if◌then◌else◌,
}
use mutil_modbus.Prelude.Text.{Text, text, same, to_lower, to_upper}
use mutil_modbus.Prelude.Float.{FloatOps}
use mutil_modbus.Go.{Go, ok, fail, panic, ◌>>=◌, Bytes}
use mutil_modbus.Collector.Point.{
  Error, Point, Source, PointValue, Client, blank, quantity_of, decode_raw, decode_register_data,
  decode_coil, read_point,
}
use mutil_modbus.Collector.Poll.{
  Runtime, PollError, Polled, polled, poll_panic, read_retry, poll_once,
}

-- A value that is returned belongs to the point of that name.
abbrev Named : {F : Type 0} → Text → Go Error (PointValue F) → Type 0
Named name (ok v) = v.point_name ≡ name
Named name (fail e) = Unit
Named name panic = Unit

Named-bind :
    {A F : Type 0} (name : Text) (m : Go Error A) (f : A → Go Error (PointValue F))
    → ((a : A) → Named name (f a))
    → Named name (m >>= f)
Named-bind name (ok a) f h = h a
Named-bind name (fail e) f h = tt
Named-bind name panic f h = tt

decode_register_data-Named :
    {F : Type 0} (ops : FloatOps F) (source : Source) (p : Point F) (now : ℕ) (content : Bytes)
    (dt bo : Text)
    → Named p.name (decode_register_data ops (blank ops source p now) content dt bo p)
unfolding decode_register_data blank
decode_register_data-Named {F} ops source p now content dt bo =
    Named-bind {F = F} p.name (decode_raw ops content dt bo) _ (λ decoded. refl)

decode_coil-Named :
    {F : Type 0} (ops : FloatOps F) (source : Source) (p : Point F) (now : ℕ) (content : Bytes)
    → (decode_coil ops (blank ops source p now) content).point_name ≡ p.name
unfolding decode_coil blank
decode_coil-Named ops source p now content = refl

read_point-Named :
    {F W : Type 0} (ops : FloatOps F) (client : Client W) (source : Source) (p : Point F) (now : ℕ)
    (w : W)
    → Named p.name (read_point ops client source p now w).0
unfolding read_point
read_point-Named {F} {W} ops client source p now w =
    let rt = to_lower p.register_type in
    let dt = to_lower p.data_type in
    let bo = to_upper p.byte_order in
    elim (Bool-cases (same rt (text "holding"))) [
      | inl e ↦
          rw (e, read_point)
            (Named-bind {F = F} p.name
              (client.read_holding_registers p.address (quantity_of dt) w).0 _
              (λ c. decode_register_data-Named ops source p now c dt bo))
      | inr e₁ ↦ elim (Bool-cases (same rt (text "input"))) [
        | inl e ↦
            rw (e₁, e, read_point)
              (Named-bind {F = F} p.name
                (client.read_input_registers p.address (quantity_of dt) w).0 _
                (λ c. decode_register_data-Named ops source p now c dt bo))
        | inr e₂ ↦ elim (Bool-cases (same rt (text "coil"))) [
          | inl e ↦
              rw (e₁, e₂, e, read_point)
                (Named-bind {F = F} p.name (client.read_coils p.address 1 w).0 _
                  (λ c. decode_coil-Named ops source p now c))
          | inr e₃ ↦ elim (Bool-cases (same rt (text "discrete"))) [
            | inl e ↦
                rw (e₁, e₂, e₃, e, read_point)
                  (Named-bind {F = F} p.name (client.read_discrete_inputs p.address 1 w).0 _
                    (λ c. decode_coil-Named ops source p now c))
            | inr e ↦ rw (e₁, e₂, e₃, e, read_point) tt
          ]
        ]
      ]
    ]

module _ {F W : Type 0} (ops : FloatOps F) (client : Client W) (runtime : Runtime W)
    (source : Source) where
  retried-Named :
      (p : Point F) (first : Go Error (PointValue F)) (w : W)
      → Named p.name first
      → Named p.name
          (elim first as (λ _. Go Error (PointValue F) × W) [
            | ok v ↦ (ok v, w)
            | fail e ↦
                let (connected, w₂) = runtime.reconnect w in
                if connected
                then read_point ops client source p (runtime.now w₂) w₂
                else (fail e, w₂)
            | panic ↦ (panic, w)
          ]).0
  retried-Named p (ok v) w h = h
  retried-Named p (fail e) w h = elim (Bool-cases (runtime.reconnect w).0) [
    | inl c ↦ rw c (read_point-Named ops client source p _ _)
    | inr c ↦ rw c tt
  ]
  retried-Named p panic w h = tt

  read_retry-Named :
      (p : Point F) (w : W) → Named p.name (read_retry ops client runtime source p w).0
  unfolding read_retry
  read_retry-Named p w =
      retried-Named p (read_point ops client source p (runtime.now w) w).0 _
        (read_point-Named ops client source p (runtime.now w) w)

-- The names of the points that were handed over: all of them when the poll has no error, and else
-- those before the point where it stopped.
abbrev pub HandsOver : {F W : Type 0} → List (Point F) → List (PointValue F) → Polled F W → Type 0
HandsOver ps handed (polled none w out) =
    map (λ v. v.point_name) out ≡ map (λ v. v.point_name) handed ++ map (λ p. p.name) ps
HandsOver ps handed (polled (some e) w out) =
    (k : ℕ) × (k < length ps)
    × (map (λ v. v.point_name) out
        ≡ map (λ v. v.point_name) handed ++ take k (map (λ p. p.name) ps))
HandsOver ps handed poll_panic = Unit

names_snoc :
    {F : Type 0} (handed : List (PointValue F)) (v : PointValue F) (name : Text) (rest : List Text)
    → v.point_name ≡ name
    → map (λ u. u.point_name) (handed ++ (v ∷ [])) ++ rest
      ≡ map (λ u. u.point_name) handed ++ (name ∷ rest)
names_snoc [] v name rest h = ap (λ n. n ∷ rest) h
names_snoc (u ∷ us) v name rest h = ap (λ ns. u.point_name ∷ ns) (names_snoc us v name rest h)

HandsOver-next :
    {F W : Type 0} (p : Point F) (ps : List (Point F)) (handed : List (PointValue F))
    (v : PointValue F) (r : Polled F W)
    → v.point_name ≡ p.name
    → HandsOver ps (handed ++ (v ∷ [])) r
    → HandsOver (p ∷ ps) handed r
HandsOver-next p ps handed v (polled none w out) h k = k ∙ names_snoc handed v p.name _ h
HandsOver-next p ps handed v (polled (some e) w out) h (k, lt, eq) =
    (suc k, omega arith, eq ∙ names_snoc handed v p.name _ h)
HandsOver-next p ps handed v poll_panic h k = tt

module _ {F W : Type 0} (ops : FloatOps F) (client : Client W) (runtime : Runtime W)
    (source : Source) where
  after_read-HandsOver :
      (p : Point F) (ps : List (Point F)) (handed : List (PointValue F))
      (result : Go Error (PointValue F)) (w : W)
      → Named p.name result
      → ((v : PointValue F)
          → HandsOver ps
              (handed ++ (v ∷ []))
              (poll_once ops client runtime source ps w (handed ++ (v ∷ []))))
      → HandsOver (p ∷ ps) handed (elim result as (λ _. Polled F W) [
        | ok v ↦ poll_once ops client runtime source ps w (handed ++ (v ∷ []))
        | fail e ↦ polled (some (PollError.read_error p.name e)) w handed
        | panic ↦ poll_panic
      ])
  after_read-HandsOver p ps handed (ok v) w h k = HandsOver-next p ps handed v _ h (k v)
  after_read-HandsOver p ps handed (fail e) w h k = (0, omega arith, sym (append-nil _))
  after_read-HandsOver p ps handed panic w h k = tt

  -- A poll without an error hands over one value for each point of the device, in the order of the
  -- points; a poll that stops with an error has handed over the points before the one where it
  -- stopped. Nothing is said of a poll in which the client panics.
  pub poll_once-HandsOver :
      (ps : List (Point F)) (w : W) (handed : List (PointValue F))
      → HandsOver ps handed (poll_once ops client runtime source ps w handed)
  unfolding poll_once
  poll_once-HandsOver [] w handed = sym (append-nil _)
  poll_once-HandsOver (p ∷ ps) w handed =
      let w₁ = (runtime.cancelled w).1 in
      elim (Bool-cases (runtime.cancelled w).0) [
        | inl over ↦ rw (over, poll_once) (0, omega arith, sym (append-nil _))
        | inr live ↦
            rw (live, poll_once)
              (after_read-HandsOver p ps handed (read_retry ops client runtime source p w₁).0 _
                (read_retry-Named ops client runtime source p w₁)
                (λ v.
                  poll_once-HandsOver ps (read_retry ops client runtime source p w₁).1
                    (handed ++ (v ∷ []))))
      ]
