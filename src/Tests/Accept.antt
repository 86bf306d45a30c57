-- ===== src/Tests/Accept.antt =====
-- The accept loop on three arrivals: an error, a connection, and the error of the closed listener.
use huawei_proxy.Prelude.{◌≡◌, refl, true, List, [], ◌∷◌, some}
use huawei_proxy.Platform.{cancelled}
use huawei_proxy.Server.Accept.{
  Arrival, connected, accept_failed, returned, accept_one, accept_loop, listen_and_serve, Serves,
  listen_and_serve-Serves,
}

abbrev arrivals : List Arrival
arrivals =
    record { time = 100; result = accept_failed }
    ∷ record { time = 200; result = connected (0 ∷ 1 ∷ []) }
    ∷ record { time = 3000; result = accept_failed }
    ∷ []

serves_one : listen_and_serve true (some 2000) arrivals ≡ ((0 ∷ 1 ∷ []) ∷ [], returned)
unfolding cancelled accept_one accept_loop listen_and_serve
serves_one = refl

listen_and_serve-Serves_example :
    Serves (some 2000) arrivals (listen_and_serve true (some 2000) arrivals)
listen_and_serve-Serves_example = listen_and_serve-Serves (some 2000) arrivals
