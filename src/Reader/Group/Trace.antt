-- ===== src/Reader/Group/Trace.antt =====
-- What `readGroup` of reader.go does to the client, step by step.
use huawei_proxy.Prelude.{
  ℕ, zero, suc, ◌+◌, ◌≤◌, ◌≡◌, refl, ap, ◌∙◌, inl, inr, Bool, true, false, ◌||◌, List, [], ◌∷◌,
  ◌++◌, Option, none, some, All, Bool-cases, ltb, if◌then◌else◌, arith,
}
use huawei_proxy.Bytes.{Bytes}
use huawei_proxy.Errors.{GoError, Result, ok, err}
use huawei_proxy.Platform.{Platform, cancelled}
use huawei_proxy.Client.{World, Event, exchange, hang_up, read, read_registers, reconnect}
use huawei_proxy.Client.Pause.{db-transact, wire-transact}
use huawei_proxy.Client.Interleaving.{reads, reconnects, waits, Reach, here, next}
use huawei_proxy.Config.{RegisterGroup}
use huawei_proxy.Reader.Group.{
  Attempts, finished, exhausted, is_busy, is_broken, max_retries, device_busy_backoff,
  reconnect_backoff, wake_cancelled, sleep_ctx, back_off, after_read, attempts, conclude,
  read_group,
}

module _ (p : Platform) (unit : ℕ) (g : RegisterGroup) (P : ℕ → World p → Type 0)
    (reads_once : (n : ℕ) (w : World p)
      → P (suc n) w
      → P n (read_registers p unit g.address g.count w).1)
    (hangs_up : (n : ℕ) (w : World p) → P n w → P n (reconnect p w))
    (goes_on : (n : ℕ) (w : World p) (c : ℕ)
      → w.clock ≤ c
      → P n w
      → P n (record w { clock = c })) where
  -- A property of the state, under a number of requests that may still be made, holds at the end.
  Ends : Attempts p → Type 0
  Ends (finished r w) = (n : ℕ) × P n w
  Ends (exhausted e w) = (n : ℕ) × P n w

  wake_cancelled-le : (t : Option ℕ) (clock : ℕ) → clock ≤ wake_cancelled t clock
  unfolding wake_cancelled
  wake_cancelled-le none clock = omega arith
  wake_cancelled-le (some t) clock = omega arith

  sleep_ctx-keeps : (d n : ℕ) (w : World p) → P n w → P n (sleep_ctx p d w).1
  unfolding sleep_ctx
  sleep_ctx-keeps d n w h = elim (Bool-cases (cancelled p.cancel_at (p.sleep d w.clock))) [
    | inl e ↦ rw e (goes_on n w _ (wake_cancelled-le p.cancel_at w.clock) h)
    | inr e ↦ rw e (goes_on n w _ (omega (arith, p.sleep_long d w.clock)) h)
  ]

  module _ (continue : Option GoError → World p → Attempts p) (n : ℕ)
      (keep : (e : Option GoError) (w : World p) → P n w → Ends (continue e w)) where
    back_off-Ends :
        (e : GoError) (c : Option GoError) (w : World p)
        → P n w
        → Ends (back_off p continue e (c, w))
    unfolding back_off Ends
    back_off-Ends e none w h = keep (some e) w h
    back_off-Ends e (some c) w h = (n, h)

    Ends-if : (b : Bool) (x y : Attempts p) → Ends x → Ends y → Ends (if b then x else y)
    Ends-if true x y hx hy = hx
    Ends-if false x y hx hy = hy

    after_read-Ends :
        (attempt : ℕ) (r : Result Bytes) (w : World p)
        → P n w
        → Ends (after_read p continue attempt (r, w))
    unfolding after_read Ends
    after_read-Ends attempt (ok bytes) w h = (n, h)
    after_read-Ends attempt (err e) w h =
        Ends-if (is_busy (some e)) _ _
          (Ends-if (ltb attempt max_retries) _ _
            (back_off-Ends e _ _ (sleep_ctx-keeps device_busy_backoff n w h)) (keep (some e) w h))
          (Ends-if (is_broken (some e)) _ _
            (Ends-if (ltb attempt max_retries) _ _
              (back_off-Ends e _ _
                (sleep_ctx-keeps reconnect_backoff n (reconnect p w) (hangs_up n w h)))
              (keep (some e) w h))
            (n, h))

  attempts-Ends :
      (left attempt : ℕ) (e : Option GoError) (w : World p)
      → P left w
      → Ends (attempts p left attempt unit g e w)
  unfolding attempts Ends
  attempts-Ends zero attempt e w h = (zero, h)
  attempts-Ends (suc left) attempt e w h =
      after_read-Ends (attempts p left (attempt + 1) unit g) left (attempts-Ends left (attempt + 1))
        attempt _ _ (reads_once left w h)

  conclude-Ends : (a : Attempts p) → Ends a → (n : ℕ) × P n (conclude p g a).1
  unfolding conclude Ends
  conclude-Ends (finished r w) h = h
  conclude-Ends (exhausted e w) (n, h) = elim (Bool-cases (is_busy e || is_broken e)) [
    | inl b ↦ rw b (n, hangs_up n w h)
    | inr b ↦ rw b (n, h)
  ]

  -- The rule for `readGroup`: it makes at most three requests, closes the connection, and waits, and
  -- does nothing else.
  pub read_group-keeps : (w : World p) → P max_retries w → (n : ℕ) × P n (read_group p unit g w).1
  unfolding read_group
  read_group-keeps w h = elim (Bool-cases (cancelled p.cancel_at w.clock)) [
    | inl c ↦ rw c (max_retries, h)
    | inr c ↦ rw c (
        conclude-Ends (attempts p max_retries 1 unit g none w)
          (attempts-Ends max_retries 1 none w h))
  ]

-- `readGroup` is a run of the client's steps, so that all that holds of these holds of it.
pub read_group-Reach :
    (p : Platform) (unit : ℕ) (g : RegisterGroup) (w : World p) → Reach w (read_group p unit g w).1
read_group-Reach p unit g w =
    (read_group-keeps p unit g (λ n v. Reach w v) (λ n v r. next r (reads v unit g.address g.count))
      (λ n v r. next r (reconnects v)) (λ n v c h r. next r (waits v c h)) w here).1

-- The requests among the events.
abbrev pub requests : List Event → ℕ
requests [] = 0
requests (exchange unit call start finish ∷ wire) = suc (requests wire)
requests (hang_up ∷ wire) = requests wire

-- A request for just the registers of the group, or the closing of the connection.
abbrev pub IsReadOf : ℕ → RegisterGroup → Event → Type 0
IsReadOf unit g (exchange u call start finish) = (u ≡ unit) × (call ≡ read g.address g.count)
IsReadOf unit g hang_up = Unit

-- `after` has the cache of `before`, and on its wire no more than `n` requests more, all of them for
-- the group.
pub record Polled {p : Platform} (unit : ℕ) (g : RegisterGroup) (n : ℕ) (before after : World p)
    : Type 0 where
  pub same_db : after.db ≡ before.db
  pub added : List Event
  pub on_wire : after.wire ≡ added ++ before.wire
  pub for_group : All (IsReadOf unit g) added
  pub limited : requests added ≤ n

module _ {p : Platform} (unit : ℕ) (g : RegisterGroup) (s : World p) where
  -- with the number of requests that may still be made
  Allows : ℕ → World p → Type 0
  Allows n w = (m : ℕ) × Polled unit g m s w × (m + n ≤ max_retries)

  reads-Allows :
      (n : ℕ) (w : World p)
      → Allows (suc n) w
      → Allows n (read_registers p unit g.address g.count w).1
  unfolding Allows read_registers
  reads-Allows n w (m, h, k) =
      let (start, finish, e) = wire-transact unit (read g.address g.count) _ w in
      (
        suc m,
        record {
          same_db = db-transact unit _ _ w ∙ h.same_db;
          added = exchange unit (read g.address g.count) start finish ∷ h.added;
          on_wire =
              e
              ∙ ap (λ (t : List Event). exchange unit (read g.address g.count) start finish ∷ t)
                  h.on_wire;
          for_group = ((refl, refl), h.for_group);
          limited = omega (arith, h.limited);
        },
        omega arith,
      )

  hangs_up-Allows : (n : ℕ) (w : World p) → Allows n w → Allows n (reconnect p w)
  unfolding Allows reconnect
  hangs_up-Allows n w (m, h, k) = (
    m,
    record {
      same_db = h.same_db;
      added = hang_up ∷ h.added;
      on_wire = ap (λ (t : List Event). hang_up ∷ t) h.on_wire;
      for_group = (tt, h.for_group);
      limited = h.limited;
    },
    k,
  )

  goes_on-Allows :
      (n : ℕ) (w : World p) (c : ℕ) → w.clock ≤ c → Allows n w → Allows n (record w { clock = c })
  unfolding Allows
  goes_on-Allows n w c l (m, h, k) = (
    m,
    record {
      same_db = h.same_db;
      added = h.added;
      on_wire = h.on_wire;
      for_group = h.for_group;
      limited = h.limited;
    },
    k,
  )

-- `readGroup` makes at most three requests, all of them for its registers, and does not touch the
-- cache.
pub read_group-Polled :
    (p : Platform) (unit : ℕ) (g : RegisterGroup) (w : World p)
    → Polled unit g max_retries w (read_group p unit g w).1
unfolding Allows
read_group-Polled p unit g w =
    let start : Polled unit g 0 w w = record {
      same_db = refl;
      added = [];
      on_wire = refl;
      for_group = tt;
      limited = omega arith;
    } in
    let (n, allowed) =
      read_group-keeps p unit g (Allows unit g w) (reads-Allows unit g w) (hangs_up-Allows unit g w)
        (goes_on-Allows unit g w) w (0, start, omega arith) in
    let (m, h, k) = allowed in
    record {
      same_db = h.same_db;
      added = h.added;
      on_wire = h.on_wire;
      for_group = h.for_group;
      limited = omega (arith, h.limited);
    }
