-- ===== src/Server/Coherence.antt =====
-- The handlers of server.go and the cache: what is cached is served, what is forwarded or written is
-- cached. The engine of the cache is one on which nothing fails.
use huawei_proxy.Prelude.{
  ℕ, ◌*◌, ◌≤◌, ◌<◌, ◌≡◌, refl, ap, ◌∙◌, true, false, List, [], ◌∷◌, none, some, length, arith, ltb,
  ◌==◌, ◌||◌,
}
use mathlib.Core.Option
use huawei_proxy.Bytes.{Bytes, AreBytes, IsWord, word, high_byte, low_byte, uint16_to_bytes}
use huawei_proxy.Platform.{Platform}
use huawei_proxy.Platform.Sqlite.{IsReliable}
use huawei_proxy.Errors.{GoError, ok, err}
use huawei_proxy.Cache.{get_bytes, set_from_bytes}
use huawei_proxy.Cache.Get.{cached_values, get_complete}
use huawei_proxy.Cache.ReadBack.{get_bytes-set_from_bytes}
use huawei_proxy.Client.{World, read_registers}
use huawei_proxy.Client.Pause.{db-transact}
use huawei_proxy.Server.Frames.{send_read_response, send_exception}
use huawei_proxy.Server.Handlers.{Server, handle_read_registers, read_miss, forwarded_read, now}

-- The PDU of a client's read request.
abbrev pub read_request : (fc address count : ℕ) → Bytes
read_request fc address count = fc ∷ uint16_to_bytes (address ∷ count ∷ [])

module _ (p : Platform) (s : Server) (tx_id unit_id fc address count : ℕ) (a : IsWord address)
    (positive : 0 < count) (limit : count ≤ 125) where
  pub handle_read_registers-hit :
      (w : World p) (bytes : Bytes)
      → get_bytes p.sql unit_id address count w.db ≡ some bytes
      → handle_read_registers p s tx_id unit_id fc (read_request fc address count) w
        ≡ (send_read_response tx_id unit_id fc bytes, w)
  unfolding handle_read_registers uint16_to_bytes
  handle_read_registers-hit w bytes e =
      let x : word (high_byte address) (low_byte address) ≡ address = omega arith in
      let y : word (high_byte count) (low_byte count) ≡ count = omega arith in
      let b : (count == 0 || ltb 125 count) ≡ false = ground arith in rw (x, y) (rw b (rw e))

  pub handle_read_registers-miss :
      (w : World p)
      → get_bytes p.sql unit_id address count w.db ≡ none
      → handle_read_registers p s tx_id unit_id fc (read_request fc address count) w
        ≡ read_miss p s tx_id unit_id fc address count w
  unfolding handle_read_registers uint16_to_bytes
  handle_read_registers-miss w e =
      let x : word (high_byte address) (low_byte address) ≡ address = omega arith in
      let y : word (high_byte count) (low_byte count) ≡ count = omega arith in
      let b : (count == 0 || ltb 125 count) ≡ false = ground arith in
      rw (x, y) (rw b (rw e (rw (x, y))))

module _ (p : Platform) (s : Server) where
  module _ (tx_id unit_id fc address count : ℕ) (a : IsWord address) (positive : 0 < count)
      (limit : count ≤ 125) where
    -- Where all the registers asked for are cached, the reply holds their values in order, and
    -- neither the inverter nor the cache is touched.
    pub handle_read_registers-cached :
        (fine : IsReliable p.sql) (w : World p) (vs : List ℕ)
        → cached_values (p.sql.committed w.db unit_id) address count ≡ some vs
        → handle_read_registers p s tx_id unit_id fc (read_request fc address count) w
          ≡ (send_read_response tx_id unit_id fc (uint16_to_bytes vs), w)
    handle_read_registers-cached fine w vs e =
        handle_read_registers-hit p s tx_id unit_id fc address count a positive limit w
          (uint16_to_bytes vs)
          (unfold get_bytes in
            ap (Option.map uint16_to_bytes) (
              get_complete p.sql unit_id address count w.db
                (fine.queries unit_id address count w.db)
              ∙ e))

    db-read_registers : (w : World p) → (read_registers p unit_id address count w).1.db ≡ w.db
    unfolding read_registers
    db-read_registers w = db-transact unit_id _ _ w

    read_miss-ok :
        (w : World p) (bytes : Bytes)
        → s.forward_unknown_reads ≡ true
        → s.attached ≡ true
        → (read_registers p unit_id address count w).0 ≡ ok bytes
        → let w' = (read_registers p unit_id address count w).1 in
          read_miss p s tx_id unit_id fc address count w ≡ (
            send_read_response tx_id unit_id fc bytes,
            record w' { db = set_from_bytes p.sql (now p w') unit_id address bytes w'.db },
          )
    unfolding read_miss forwarded_read
    read_miss-ok w bytes f at answer = rw (f, at, answer, forwarded_read)

    read_miss-err :
        (w : World p) (e : GoError)
        → s.forward_unknown_reads ≡ true
        → s.attached ≡ true
        → (read_registers p unit_id address count w).0 ≡ err e
        → read_miss p s tx_id unit_id fc address count w
          ≡ (send_exception tx_id unit_id fc 0x04, (read_registers p unit_id address count w).1)
    unfolding read_miss forwarded_read
    read_miss-err w e f at answer = rw (f, at, answer, forwarded_read)

    -- A read that the cache misses is forwarded, where that is enabled and a client is attached. If
    -- the inverter answers with the bytes of `count` registers, these are sent to the client and
    -- stored: the same request again is answered with the same bytes, and nothing more is sent to
    -- the inverter.
    pub handle_read_registers-forwarded :
        (fine : IsReliable p.sql) (w : World p) (bytes : Bytes)
        → s.forward_unknown_reads ≡ true
        → s.attached ≡ true
        → get_bytes p.sql unit_id address count w.db ≡ none
        → (read_registers p unit_id address count w).0 ≡ ok bytes
        → AreBytes bytes
        → length bytes ≡ 2 * count
        → let first =
            handle_read_registers p s tx_id unit_id fc (read_request fc address count) w in
          (first.0 ≡ send_read_response tx_id unit_id fc bytes)
          × (handle_read_registers p s tx_id unit_id fc (read_request fc address count) first.1
              ≡ first)
    handle_read_registers-forwarded fine w bytes f at miss answer b l =
        let w' = (read_registers p unit_id address count w).1 in
        let e =
          handle_read_registers-miss p s tx_id unit_id fc address count a positive limit w miss
          ∙ read_miss-ok w bytes f at answer in
        rw e (
          refl,
          handle_read_registers-hit p s tx_id unit_id fc address count a positive limit
              (record w' { db = set_from_bytes p.sql (now p w') unit_id address bytes w'.db }) bytes
              (get_bytes-set_from_bytes p.sql fine (now p w') unit_id address count bytes w'.db b
                l),
        )

    -- A forwarded read that the inverter fails is answered by the exception 0x04 (server device
    -- failure), and the cache is as it was.
    pub handle_read_registers-failed :
        (w : World p) (e : GoError)
        → s.forward_unknown_reads ≡ true
        → s.attached ≡ true
        → get_bytes p.sql unit_id address count w.db ≡ none
        → (read_registers p unit_id address count w).0 ≡ err e
        → let reply =
            handle_read_registers p s tx_id unit_id fc (read_request fc address count) w in
          (reply.0 ≡ send_exception tx_id unit_id fc 0x04) × (reply.1.db ≡ w.db)
    handle_read_registers-failed w e f at miss answer =
        rw
          (handle_read_registers-miss p s tx_id unit_id fc address count a positive limit w miss
            ∙ read_miss-err w e f at answer)
          (refl, db-read_registers w)
