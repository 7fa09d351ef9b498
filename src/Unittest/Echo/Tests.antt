-- ===== src/Unittest/Echo/Tests.antt =====
-- Two connections between the programs of unittest/t_asio.
use cxxprogram.Prelude.{[], refl, ◌*◌, ◌+◌, ◌∷◌, ◌≡◌}
use cxxprogram.Unittest.Echo.{
  request, server_dispatch, client_dispatch, Pair, begin, connects, serves, asks, Reach, here, next,
}
use cxxprogram.Unittest.Echo.Flights.{times, flights, Reach-two}

abbrev exchange : (t : Pair) × Reach (begin 0) t
unfolding server_dispatch client_dispatch
exchange = (
  _,
  next
      (next (next (next (next here (connects 5)) (connects 6)) (serves [] (5, 1) _ refl))
        (asks ((5, 1) ∷ []) (6, 1) _ refl))
      (asks [] (5, 1) _ refl),
)

exchange_sent : exchange.0.to_server ≡ (6, 1) ∷ (6, request) ∷ (5, request) ∷ []
unfolding server_dispatch client_dispatch
exchange_sent = refl

Reach-two_example :
    flights 5 exchange.0.to_server + flights 5 exchange.0.to_client
    ≡ 2 * times 5 exchange.0.sessions
Reach-two_example = Reach-two 0 5 exchange.1
