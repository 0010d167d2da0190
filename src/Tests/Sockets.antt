-- ===== src/Tests/Sockets.antt =====
-- The theorems on sockets at concrete inputs.
use compute_web_app.Prelude.{ℕ, ltb, if◌then◌else◌, ◌≡◌, List, [], ◌∷◌, ◌++◌, some, false, arith}
use compute_web_app.Outcome.{ok, raise, socket_error}
use compute_web_app.Dataset.{Dataset}
use compute_web_app.Supply.{DataSupplyState}
use compute_web_app.Socket.{Asio, Socket, receive_all}
use compute_web_app.Socket.Receive.{receive_all_enough, receive_all_short}
use compute_web_app.Socket.Server.{SocketServer, accept}
use compute_web_app.Socket.Server.Registration.{IsValid, accept-IsValid}
use compute_web_app.Socket.Dispatch.{ServerSupplier}
use compute_web_app.Tests.Fixtures.{
  first_dataset, second_dataset, two_datasets, slow_asio, slow_asio-IsAsio, fresh_socket,
}

abbrev six_bytes : Socket
six_bytes = record { bytes = 1 ∷ 2 ∷ 3 ∷ 4 ∷ 5 ∷ 6 ∷ []; calls = 0 }

receive_all_enough_example :
    (calls : ℕ) × (receive_all slow_asio 6 5 [] six_bytes
      ≡ some (ok (1 ∷ 2 ∷ 3 ∷ 4 ∷ 5 ∷ [], record { bytes = 6 ∷ []; calls = calls })))
receive_all_enough_example =
    receive_all_enough slow_asio slow_asio-IsAsio 6 5 [] six_bytes (omega arith) (omega arith)

receive_all_short_example : receive_all slow_asio 9 8 [] six_bytes ≡ some (raise socket_error)
receive_all_short_example =
    receive_all_short slow_asio slow_asio-IsAsio 9 8 [] six_bytes (omega arith) (omega arith)

abbrev two_sent : List (ℕ × List ℕ)
two_sent = (4, 1 ∷ 2 ∷ 3 ∷ []) ∷ (2, 9 ∷ []) ∷ []

abbrev two_to_push : List (ℕ × Dataset)
two_to_push = (4, first_dataset) ∷ (2, second_dataset) ∷ []

abbrev one_client : SocketServer Socket
one_client = record {
  next_client_id = 4;
  stop_registering = false;
  client_sockets = (3, fresh_socket) ∷ [];
}

accept-IsValid_example :
    let (id, socket, after) = accept (some (λ s. record s { calls = 1 })) one_client six_bytes in
    IsValid after
    × (after.client_sockets ≡ one_client.client_sockets ++ (4, socket) ∷ [])
    × (socket ≡ record six_bytes { calls = 1 })
    × (after.stop_registering ≡ false)
    × (id ≡ 4)
    × (after.next_client_id ≡ 5)
unfolding accept
accept-IsValid_example =
    accept-IsValid (some (λ s. record s { calls = 1 })) one_client six_bytes
      ((omega arith, omega arith, tt), omega arith) (omega arith)

abbrev two_clients : ServerSupplier
two_clients = record {
  server = record {
    next_client_id = 6;
    stop_registering = false;
    client_sockets = (3, fresh_socket) ∷ (5, fresh_socket) ∷ [];
  };
  end_callback = false;
}

abbrev two_queued : DataSupplyState
two_queued = record { source = two_datasets; datasets_to_provide = 0 ∷ 1 ∷ [] }

-- A library that takes at most three bytes.
abbrev three_at_most : Asio
three_at_most = record slow_asio { sent = λ k n. if ltb 3 n then 3 else n }
