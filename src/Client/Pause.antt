-- ===== src/Client/Pause.antt =====
-- The pause of client.go, over the trace of the wire.
use huawei_proxy.Prelude.{
  ℕ, ◌+◌, ◌-◌, ◌≤◌, ◌≡◌, refl, sym, List, [], ◌∷◌, Option, none, some, ltb, arith, inl, inr,
  Bool-cases,
}
use mathlib.Core.Path.{subst}
use huawei_proxy.Bytes.{Bytes}
use huawei_proxy.Errors.{Result}
use huawei_proxy.Platform.{Platform}
use huawei_proxy.Client.{
  Call, Event, exchange, hang_up, World, pause_ns, pause_after, enforce_pause, transact, reconnect,
}

-- Each request begins a full pause after the end of the one before it, unless the connection was
-- closed in between. The trace has the newest event first.
abbrev pub Spaced : ℕ → List Event → Type 0
Spaced pause [] = Unit
Spaced pause (hang_up ∷ wire) = Spaced pause wire
Spaced pause (exchange unit call start finish ∷ []) = Unit
Spaced pause (exchange unit call start finish ∷ hang_up ∷ wire) = Spaced pause wire
Spaced pause (exchange unit call start finish ∷ exchange unit' call' start' finish' ∷ wire) =
    (finish' + pause ≤ start) × Spaced pause (exchange unit' call' start' finish' ∷ wire)

-- `lastRead` is the end of the last request, and is zero where the connection was closed since.
abbrev pub Remembers : Option ℕ → ℕ → List Event → Type 0
Remembers none clock [] = Unit
Remembers none clock (hang_up ∷ wire) = Unit
Remembers none clock (exchange unit call start finish ∷ wire) = ⊥
Remembers (some t) clock [] = ⊥
Remembers (some t) clock (hang_up ∷ wire) = ⊥
Remembers (some t) clock (exchange unit call start finish ∷ wire) = (t ≡ finish) × (t ≤ clock)

Spaced-cons :
    (pause : ℕ) (last : Option ℕ) (clock : ℕ) (wire : List Event) (unit : ℕ) (call : Call)
    (start finish : ℕ)
    → Remembers last clock wire
    → Spaced pause wire
    → ((t : ℕ) → last ≡ some t → t + pause ≤ start)
    → Spaced pause (exchange unit call start finish ∷ wire)
Spaced-cons pause none clock [] unit call start finish r s h = tt
Spaced-cons pause none clock (hang_up ∷ wire) unit call start finish r s h = s
Spaced-cons pause none clock (exchange u c b e ∷ wire) unit call start finish r s h = absurd r
Spaced-cons pause (some t) clock [] unit call start finish r s h = absurd r
Spaced-cons pause (some t) clock (hang_up ∷ wire) unit call start finish r s h = absurd r
Spaced-cons pause (some t) clock (exchange u c b e ∷ wire) unit call start finish r s h =
    (omega (arith, h t refl), s)

module _ {p : Platform} where
  pub record IsPaced (w : World p) : Type 0 where
    pub remembers : Remembers w.last_read w.clock w.wire
    pub spaced : Spaced (pause_ns w.pause_ms) w.wire

  -- The pause changes the clock alone.
  pause_after-eq :
      (last : Option ℕ) (w : World p)
      → pause_after p last w ≡ record w { clock = (pause_after p last w).clock }
  unfolding pause_after
  pause_after-eq none w = refl
  pause_after-eq (some t) w = elim (Bool-cases (ltb 0 (pause_ns w.pause_ms - (w.clock - t)))) [
    | inl e ↦ rw e
    | inr e ↦ rw e
  ]

  -- After the pause, the last request is a full pause ago.
  pause_after-long :
      (t : ℕ) (w : World p)
      → t ≤ w.clock
      → t + pause_ns w.pause_ms ≤ (pause_after p (some t) w).clock
  unfolding pause_after
  pause_after-long t w h =
      let gap = pause_ns w.pause_ms - (w.clock - t) in
      elim (Bool-cases (ltb 0 gap)) [
        | inl e ↦ rw e (omega (arith, p.sleep_long gap w.clock))
        | inr e ↦ rw e (ground arith)
      ]

  remembered : (w : World p) (t : ℕ) → IsPaced w → w.last_read ≡ some t → t ≤ w.clock
  remembered w t i e = go w.wire w.last_read i.remembers e
    where
      go : (wire : List Event) (l : Option ℕ) → Remembers l w.clock wire → l ≡ some t → t ≤ w.clock
      go [] (some s) r q = absurd r
      go (hang_up ∷ wire) (some s) r q = absurd r
      go (exchange u c b e ∷ wire) (some s) r q = ground arith
      go wire none r q = absurd (cc)

  pub enforce_pause-eq :
      (w : World p) → enforce_pause p w ≡ record w { clock = (enforce_pause p w).clock }
  unfolding enforce_pause
  enforce_pause-eq w = pause_after-eq w.last_read w

  enforce_pause-long :
      (w : World p) (t : ℕ)
      → IsPaced w
      → w.last_read ≡ some t
      → t + pause_ns w.pause_ms ≤ (enforce_pause p w).clock
  unfolding enforce_pause
  enforce_pause-long w t i e =
      subst (λ l. t + pause_ns w.pause_ms ≤ (pause_after p l w).clock) (sym e)
        (pause_after-long t w (remembered w t i e))

  pub transact-IsPaced :
      (unit : ℕ) (call : Call) (perform : ℕ → p.modbus.Link → Result Bytes × p.modbus.Link × ℕ)
      (w : World p)
      → IsPaced w
      → IsPaced (transact p unit call perform w).1
  unfolding transact
  transact-IsPaced unit call perform w i =
      let w' = record w { slave_id = unit } in
      rw (enforce_pause-eq w') (record {
        remembers = (refl, omega arith);
        spaced =
            Spaced-cons (pause_ns w.pause_ms) w.last_read w.clock w.wire unit call
              (enforce_pause p w').clock ((enforce_pause p w').clock + (perform unit w.link).2)
              i.remembers i.spaced
              (λ t e.
                enforce_pause-long w' t (record { remembers = i.remembers; spaced = i.spaced }) e);
      })

  pub transact-pause_ms :
      (unit : ℕ) (call : Call) (perform : ℕ → p.modbus.Link → Result Bytes × p.modbus.Link × ℕ)
      (w : World p)
      → (transact p unit call perform w).1.pause_ms ≡ w.pause_ms
  unfolding transact
  transact-pause_ms unit call perform w =
      let w' = record w { slave_id = unit } in rw (enforce_pause-eq w') refl

  pub reconnect-IsPaced : (w : World p) → IsPaced w → IsPaced (reconnect p w)
  unfolding reconnect
  reconnect-IsPaced w i = record { remembers = tt; spaced = i.spaced }

  -- Whoever advances the clock keeps the discipline.
  pub later-IsPaced :
      (w : World p) (c : ℕ) → w.clock ≤ c → IsPaced w → IsPaced (record w { clock = c })
  later-IsPaced w c h i = record {
    remembers = go w.last_read w.wire i.remembers;
    spaced = i.spaced;
  }
    where
      go : (l : Option ℕ) (wire : List Event) → Remembers l w.clock wire → Remembers l c wire
      go none [] r = tt
      go none (hang_up ∷ wire) r = tt
      go none (exchange u k b e ∷ wire) r = absurd r
      go (some t) [] r = absurd r
      go (some t) (hang_up ∷ wire) r = absurd r
      go (some t) (exchange u k b e ∷ wire) r = (r.0, omega (arith, r.1))

  -- A request puts itself on the wire, and leaves the cache alone.
  pub db-transact :
      (unit : ℕ) (call : Call) (perform : ℕ → p.modbus.Link → Result Bytes × p.modbus.Link × ℕ)
      (w : World p)
      → (transact p unit call perform w).1.db ≡ w.db
  unfolding transact
  db-transact unit call perform w = rw (enforce_pause-eq (record w { slave_id = unit }))

  pub wire-transact :
      (unit : ℕ) (call : Call) (perform : ℕ → p.modbus.Link → Result Bytes × p.modbus.Link × ℕ)
      (w : World p)
      → (start finish : ℕ) × ((transact p unit call perform w).1.wire
          ≡ exchange unit call start finish ∷ w.wire)
  unfolding transact
  wire-transact unit call perform w =
      let w' = record w { slave_id = unit } in
      (
        (enforce_pause p w').clock,
        (enforce_pause p w').clock + (perform unit w.link).2,
        rw (enforce_pause-eq w'),
      )
