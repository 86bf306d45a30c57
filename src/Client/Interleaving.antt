-- ===== src/Client/Interleaving.antt =====
-- The goroutines that share the client: the reader and one for each connection. The mutex makes each
-- method of client.go one step; between two steps the clock goes on and the cache may change.
use huawei_proxy.Prelude.{ℕ, ◌≤◌, ◌≡◌, refl, ◌∙◌}
use huawei_proxy.Bytes.{Bytes}
use huawei_proxy.Platform.{Platform}
use huawei_proxy.Client.{
  World, read_registers, write_single_register, write_multiple_registers, reconnect,
}
use huawei_proxy.Client.Pause.{
  IsPaced, transact-IsPaced, transact-pause_ms, reconnect-IsPaced, later-IsPaced,
}

module _ {p : Platform} where
  pub data Step : World p → World p → Type 0 where
    reads :
        (w : World p) (unit address count : ℕ) → Step w (read_registers p unit address count w).1
    writes_single :
        (w : World p) (unit address value : ℕ)
        → Step w (write_single_register p unit address value w).1
    writes_multiple :
        (w : World p) (unit address count : ℕ) (bytes : Bytes)
        → Step w (write_multiple_registers p unit address count bytes w).1
    reconnects : (w : World p) → Step w (reconnect p w)
    waits : (w : World p) (later : ℕ) → w.clock ≤ later → Step w (record w { clock = later })
    caches : (w : World p) (db : p.sql.Db) → Step w (record w { db = db })

  pub data Reach (s : World p) : World p → Type 0 where
    here : Reach s s
    next : {w v : World p} → Reach s w → Step w v → Reach s v

  Step-IsPaced : {w v : World p} → Step w v → IsPaced w → IsPaced v
  unfolding read_registers write_single_register write_multiple_registers
  Step-IsPaced (reads w unit address count) i = transact-IsPaced unit _ _ w i
  Step-IsPaced (writes_single w unit address value) i = transact-IsPaced unit _ _ w i
  Step-IsPaced (writes_multiple w unit address count bytes) i = transact-IsPaced unit _ _ w i
  Step-IsPaced (reconnects w) i = reconnect-IsPaced w i
  Step-IsPaced (waits w later h) i = later-IsPaced w later h i
  Step-IsPaced (caches w db) i = record { remembers = i.remembers; spaced = i.spaced }

  -- However the goroutines' calls interleave, from a state that keeps the pause every state that is
  -- reached keeps it: on the wire each request begins `pause_ms` milliseconds or more after the end
  -- of the one before it, unless the connection was closed in between.
  pub Reach-IsPaced : {s w : World p} → IsPaced s → Reach s w → IsPaced w
  Reach-IsPaced i here = i
  Reach-IsPaced i (next r st) = Step-IsPaced st (Reach-IsPaced i r)

  -- No step changes the pause.
  pub Step-pause_ms : {w v : World p} → Step w v → v.pause_ms ≡ w.pause_ms
  unfolding read_registers write_single_register write_multiple_registers reconnect
  Step-pause_ms (reads w unit address count) = transact-pause_ms unit _ _ w
  Step-pause_ms (writes_single w unit address value) = transact-pause_ms unit _ _ w
  Step-pause_ms (writes_multiple w unit address count bytes) = transact-pause_ms unit _ _ w
  Step-pause_ms (reconnects w) = refl
  Step-pause_ms (waits w later h) = refl
  Step-pause_ms (caches w db) = refl

  pub Reach-pause_ms : {s w : World p} → Reach s w → w.pause_ms ≡ s.pause_ms
  Reach-pause_ms here = refl
  Reach-pause_ms (next r st) = Step-pause_ms st ∙ Reach-pause_ms r

  pub Reach-trans : {s v w : World p} → Reach s v → Reach v w → Reach s w
  Reach-trans r here = r
  Reach-trans r (next q st) = next (Reach-trans r q) st
