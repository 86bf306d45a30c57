-- ===== src/Server/Accept.antt =====
-- `ListenAndServe` of server.go. The socket is no part of the repository: what its `Accept` gives is a
-- list. A connection is started as a goroutine that runs `handle_connection` on what its client sends.
use huawei_proxy.Prelude.{
  ℕ, ◌≡◌, refl, ap, ◌⊎◌, inl, inr, Bool, true, false, Bool-cases, List, [], ◌∷◌, ◌++◌, Option, All,
  if◌then◌else◌,
}
use huawei_proxy.Bytes.{Bytes}
use huawei_proxy.Platform.{cancelled}

-- What `listener.Accept` returns: a connection, with the bytes that its client will send, or an error.
pub data Accepted : Type 0 where
  connected : (input : Bytes) → Accepted
  accept_failed : Accepted

-- A return of `listener.Accept`, with its time.
pub record Arrival : Type 0 where
  pub time : ℕ
  pub result : Accepted

-- Where the function is: it has returned the error of `net.Listen`, has returned `nil`, or waits.
pub data Listening : Type 0 where
  listen_failed returned accepting : Listening

-- the body of the loop, for one arrival and what comes behind it
unfoldable pub accept_one :
    Option ℕ → ℕ → Accepted → List Bytes × Listening → List Bytes × Listening
accept_one cancel_at time (connected input) (started, end) = (input ∷ started, end)
accept_one cancel_at time accept_failed rest =
    if cancelled cancel_at time then ([], returned) else rest

-- the loop: the connections that it starts, in their order, and where it is then
unfoldable pub accept_loop : Option ℕ → List Arrival → List Bytes × Listening
unfolding accept_one
accept_loop cancel_at [] = ([], accepting)
accept_loop cancel_at (a ∷ arrivals) =
    accept_one cancel_at a.time a.result (accept_loop cancel_at arrivals)

-- `ListenAndServe`; `listens` is whether `net.Listen` succeeds.
unfoldable pub listen_and_serve : Bool → Option ℕ → List Arrival → List Bytes × Listening
listen_and_serve false cancel_at arrivals = ([], listen_failed)
listen_and_serve true cancel_at arrivals = accept_loop cancel_at arrivals

-- all connections among the arrivals
abbrev pub connections : List Arrival → List Bytes
connections [] = []
connections (a ∷ arrivals) = elim a.result [
  | connected input ↦ input ∷ connections arrivals
  | accept_failed ↦ connections arrivals
]

-- An error of `Accept` at a time at which the context is cancelled.
abbrev pub IsStop : Option ℕ → Arrival → Type 0
IsStop cancel_at a = (a.result ≡ accept_failed) × (cancelled cancel_at a.time ≡ true)

-- The loop has started the connections among the arrivals before the first one that stops it, and has
-- returned there; or none stops it, and it waits behind the last.
pub record Serves (cancel_at : Option ℕ) (arrivals : List Arrival) (out : List Bytes × Listening)
    : Type 0 where
  pub served : List Arrival
  pub left : List Arrival
  pub split : arrivals ≡ served ++ left
  pub started : out.0 ≡ connections served
  pub before : All (λ a. IsStop cancel_at a → ⊥) served
  pub stands :
      ((out.1 ≡ accepting) × (left ≡ []))
      ⊎ ((out.1 ≡ returned)
          × ((a : Arrival) × (more : List Arrival) × (left ≡ a ∷ more) × IsStop cancel_at a))

module _ (cancel_at : Option ℕ) where
  accept_one-Serves :
      (a : Arrival) (arrivals : List Arrival) (rest : List Bytes × Listening) (r : Accepted)
      → a.result ≡ r
      → Serves cancel_at arrivals rest
      → Serves cancel_at (a ∷ arrivals) (accept_one cancel_at a.time r rest)
  unfolding accept_one
  accept_one-Serves a arrivals rest (connected input) e h = record {
    served = a ∷ h.served;
    left = h.left;
    split = ap (λ xs. a ∷ xs) h.split;
    started = rw (e, connections) (ap (λ xs. input ∷ xs) h.started);
    before = (λ (failed, late). absurd (cc), h.before);
    stands = h.stands;
  }
  accept_one-Serves a arrivals rest accept_failed e h =
      elim (Bool-cases (cancelled cancel_at a.time)) [
        | inl c ↦ rw c (record {
          served = [];
          left = a ∷ arrivals;
          split = refl;
          started = refl;
          before = tt;
          stands = inr (refl, (a, arrivals, refl, (e, c)));
        })
        | inr c ↦ rw c (record {
          served = a ∷ h.served;
          left = h.left;
          split = ap (λ xs. a ∷ xs) h.split;
          started = rw (e, connections) h.started;
          before = (λ (failed, late). absurd (cc), h.before);
          stands = h.stands;
        })
      ]

  -- An error of `Accept` ends the server only once the context is cancelled: until then it starts every
  -- connection, in the order of their arrival, and goes on waiting for more.
  pub listen_and_serve-Serves :
      (arrivals : List Arrival)
      → Serves cancel_at arrivals (listen_and_serve true cancel_at arrivals)
  unfolding listen_and_serve accept_loop
  listen_and_serve-Serves [] = record {
    served = [];
    left = [];
    split = refl;
    started = refl;
    before = tt;
    stands = inl (refl, refl);
  }
  listen_and_serve-Serves (a ∷ arrivals) =
      accept_one-Serves a arrivals (accept_loop cancel_at arrivals) a.result refl
        (listen_and_serve-Serves arrivals)
