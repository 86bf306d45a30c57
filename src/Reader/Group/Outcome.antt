-- ===== src/Reader/Group/Outcome.antt =====
-- What `readGroup` of reader.go returns.
use huawei_proxy.Prelude.{
  ℕ, zero, suc, ◌+◌, ◌≡◌, refl, sym, ◌∙◌, ◌⊎◌, inl, inr, Bool, true, false, ◌||◌, List, ◌∷◌, Option,
  none, some, Bool-cases, ltb, if◌then◌else◌, arith,
}
use huawei_proxy.Bytes.{Bytes}
use huawei_proxy.Errors.{GoError, Result, ok, err, canceled}
use mathlib.Core.Path.{subst}
use huawei_proxy.Platform.{Platform, cancelled}
use huawei_proxy.Client.{World, Event, hang_up, read_registers, reconnect}
use huawei_proxy.Client.Interleaving.{reads, reconnects, waits, Reach, here, next, Reach-trans}
use huawei_proxy.Config.{RegisterGroup}
use huawei_proxy.Reader.Group.{
  Attempts, finished, exhausted, is_busy, is_broken, max_retries, sleep_ctx, back_off, after_read,
  attempts, conclude, read_group, wrap, device_busy_backoff, reconnect_backoff, wake_cancelled,
}

module _ (p : Platform) (unit : ℕ) (g : RegisterGroup) (s : World p) where
  -- The inverter's answer to a request for the group that was made on the way from the state `s`.
  pub record Asked (r : Result Bytes) (w' : World p) : Type 0 where
    pub asked : World p
    pub follows : Reach s asked
    pub answered : read_registers p unit g.address g.count asked ≡ (r, w')

  -- An error of such a request, on the way from `s` to `w'`.
  pub record Refused (e : GoError) (w' : World p) : Type 0 where
    pub failed_in : World p
    pub request : Asked (err e) failed_in
    pub leads_to : Reach failed_in w'

  abbrev pub IsCancelled : World p → Type 0
  IsCancelled w = cancelled p.cancel_at w.clock ≡ true

  abbrev pub IsLive : World p → Type 0
  IsLive w = cancelled p.cancel_at w.clock ≡ false

  -- The connection is closed, so that the next request opens a new one.
  abbrev pub IsHungUp : World p → Type 0
  IsHungUp w = (w.last_read ≡ none) × ((wire : List Event) × (w.wire ≡ hang_up ∷ wire))

  -- The error wraps that of a request, and the connection is closed if it is one to retry.
  pub record Failed (e : GoError) (w' : World p) : Type 0 where
    pub cause : GoError
    pub refused : Refused cause w'
    pub same_error : e ≡ wrap g (some cause)
    pub closes : (is_busy (some cause) || is_broken (some cause)) ≡ true → IsHungUp w'

  -- The result of `readGroup`, called in the state `s`, and the state that it leaves.
  abbrev pub Outcome : Result Bytes → World p → Type 0
  Outcome (ok bytes) w' = IsLive s × Asked (ok bytes) w'
  Outcome (err e) w' = ((e ≡ canceled) × IsCancelled w') ⊎ (IsLive s × Failed e w')

  Left : Attempts p → Type 0
  Left (finished (ok bytes) w') = Asked (ok bytes) w'
  Left (finished (err e) w') = (e ≡ canceled) × IsCancelled w'
  Left (exhausted none w') = ⊥
  Left (exhausted (some e) w') = Refused e w'

  Left-if : (b : Bool) (x y : Attempts p) → Left x → Left y → Left (if b then x else y)
  Left-if true x y hx hy = hx
  Left-if false x y hx hy = hy

  Asked-Reach : (r : Result Bytes) (w' : World p) → Asked r w' → Reach s w'
  Asked-Reach r w' a =
      subst (λ (x : Result Bytes × World p). Reach s x.1) a.answered
        (next a.follows (reads a.asked unit g.address g.count))

  Refused-Reach : (e : GoError) (w' : World p) → Refused e w' → Reach s w'
  Refused-Reach e w' h = Reach-trans (Asked-Reach (err e) h.failed_in h.request) h.leads_to

  later-Refused : (e : GoError) (w v : World p) → Reach w v → Refused e w → Refused e v
  later-Refused e w v path h = record {
    failed_in = h.failed_in;
    request = h.request;
    leads_to = Reach-trans h.leads_to path;
  }

  reconnect-Refused : (e : GoError) (w : World p) → Refused e w → Refused e (reconnect p w)
  reconnect-Refused e w = later-Refused e w (reconnect p w) (next here (reconnects w))

  -- What a wait leaves: the error of the context, which is cancelled then, or no error.
  Waited : GoError → Option GoError × World p → Type 0
  Waited e (none, v) = Refused e v
  Waited e (some c, v) = (c ≡ canceled) × IsCancelled v

  -- The context is cancelled by the time at which a wait for its end ends.
  wake_cancelled-cancelled :
      (at : Option ℕ) (wake clock : ℕ)
      → cancelled at wake ≡ true
      → cancelled at (wake_cancelled at clock) ≡ true
  unfolding cancelled wake_cancelled
  wake_cancelled-cancelled none wake clock e = e
  wake_cancelled-cancelled (some t) wake clock e = ground arith

  sleep_ctx-Waited : (e : GoError) (d : ℕ) (w : World p) → Refused e w → Waited e (sleep_ctx p d w)
  unfolding sleep_ctx Waited
  sleep_ctx-Waited e d w h = elim (Bool-cases (cancelled p.cancel_at (p.sleep d w.clock))) [
    | inl c ↦ rw c (refl, wake_cancelled-cancelled p.cancel_at (p.sleep d w.clock) w.clock c)
    | inr c ↦ rw c (
        later-Refused e w _
          (next here (waits w (p.sleep d w.clock) (omega (arith, p.sleep_long d w.clock)))) h)
  ]

  module _ (continue : Option GoError → World p → Attempts p)
      (keep : (e : GoError) (w : World p) → Refused e w → Left (continue (some e) w)) where
    back_off-Left :
        (e : GoError) (c : Option GoError) (v : World p)
        → Waited e (c, v)
        → Left (back_off p continue e (c, v))
    unfolding back_off Left Waited
    back_off-Left e none v h = keep e v h
    back_off-Left e (some c) v h = h

    after_read-Left :
        (attempt : ℕ) (r : Result Bytes) (w' : World p)
        → Asked r w'
        → Left (after_read p continue attempt (r, w'))
    unfolding after_read Left
    after_read-Left attempt (ok bytes) w' h = h
    after_read-Left attempt (err e) w' h =
        let failed : Refused e w' = record { failed_in = w'; request = h; leads_to = here } in
        Left-if (is_busy (some e)) _ _
          (Left-if (ltb attempt max_retries) _ _
            (back_off-Left e _ _ (sleep_ctx-Waited e device_busy_backoff w' failed))
            (keep e w' failed))
          (Left-if (is_broken (some e)) _ _
            (Left-if (ltb attempt max_retries) _ _
              (back_off-Left e _ _ (
                sleep_ctx-Waited e reconnect_backoff (reconnect p w')
                  (reconnect-Refused e w' failed)))
              (keep e w' failed))
            failed)

  Asked-read_registers :
      (w : World p)
      → Reach s w
      → Asked
          (read_registers p unit g.address g.count w).0
          (read_registers p unit g.address g.count w).1
  Asked-read_registers w path = record { asked = w; follows = path; answered = refl }

  attempts-Left :
      (left attempt : ℕ) (e : GoError) (w : World p)
      → Refused e w
      → Left (attempts p left attempt unit g (some e) w)
  unfolding attempts Left
  attempts-Left zero attempt e w h = h
  attempts-Left (suc left) attempt e w h =
      after_read-Left (attempts p left (attempt + 1) unit g) (attempts-Left left (attempt + 1))
        attempt _ _ (Asked-read_registers w (Refused-Reach e w h))

  first_attempt-Left : (left attempt : ℕ) → Left (attempts p (suc left) attempt unit g none s)
  unfolding attempts
  first_attempt-Left left attempt =
      after_read-Left (attempts p left (attempt + 1) unit g) (attempts-Left left (attempt + 1))
        attempt _ _ (Asked-read_registers s here)

  conclude-Outcome :
      (a : Attempts p) → IsLive s → Left a → Outcome (conclude p g a).0 (conclude p g a).1
  unfolding conclude Left
  conclude-Outcome (finished (ok bytes) w) live h = (live, h)
  conclude-Outcome (finished (err e) w) live h = inl h
  conclude-Outcome (exhausted none w) live h = absurd h
  conclude-Outcome (exhausted (some e) w) live h =
      elim (Bool-cases (is_busy (some e) || is_broken (some e))) [
        | inl b ↦ rw b (
            inr (
              live,
              record {
                cause = e;
                refused = reconnect-Refused e w h;
                same_error = refl;
                closes = λ _. unfold reconnect in (refl, (w.wire, refl));
              },
            ))
        | inr b ↦ rw b (
            inr (
              live,
              record {
                cause = e;
                refused = h;
                same_error = refl;
                closes = λ t. absurd (cc (sym b ∙ t));
              },
            ))
      ]

  -- What `readGroup` returns, called in any state. Bytes come only where the context was not
  -- cancelled at the call: they are the inverter's answer to a request for the group that this call
  -- made, in the state right after it. An error is that of the context, which is cancelled by the
  -- return; or the context was not cancelled at the call, and the error names the group and wraps
  -- the error of a request for the group that this call made. Where that is an error to retry, the
  -- connection is closed at the end.
  pub read_group-Outcome : Outcome (read_group p unit g s).0 (read_group p unit g s).1
  unfolding read_group
  read_group-Outcome = elim (Bool-cases (cancelled p.cancel_at s.clock)) [
    | inl c ↦ rw c (inl (refl, c))
    | inr c ↦
        rw c (conclude-Outcome (attempts p max_retries 1 unit g none s) c (first_attempt-Left 2 1))
  ]
