-- ===== src/Socket/Client.antt =====
-- data/dataset_socket_client.cpp: a client that registers with a server. `attempts` says how its calls
-- of `connect` go until the timeout, and `opens` whether the push/pull socket then connects and takes
-- its option; the socket holds what the server sends.
pub mod Handshake
use compute_web_app.Prelude.{ℕ, ◌%◌, ◌^◌, List, [], ◌∷◌, Option, Bool, true, false, if◌then◌else◌}
use compute_web_app.Prelude.Words.{u32_max}
use compute_web_app.Prelude.Text.{Text}
use compute_web_app.Outcome.{
  Outcome, ok, raise, exits, fault, socket_error, cannot_connect_to_server, ◌>>=◌,
}
use compute_web_app.Socket.{Asio, Socket, receive_u32}
use compute_web_app.Socket.Url.{client_endpoint}

-- The push/pull socket is connected to this endpoint.
pub record SocketClient (A : Type 0) : Type 0 where
  pub client_id : ℕ
  pub address : A
  pub port : ℕ

-- The loop of Register: until a call succeeds, or the time is over.
unfoldable pub is_connected : List Bool → Bool
is_connected [] = false
is_connected (true ∷ attempts) = true
is_connected (false ∷ attempts) = is_connected attempts

module _ (asio : Asio) {A : Type 0} where
  read_registration : A → Bool → Socket → Outcome (SocketClient A)
  read_registration address opens s = do
    (client_id, s') ← receive_u32 asio u32_max s
    (pull_port, s'') ← receive_u32 asio u32_max s'
    (if opens
        then ok (record { client_id = client_id; address = address; port = pull_port % 2 ^ 16 })
        else raise socket_error)

  unfoldable pub register :
      (Text → Option A) → A → Text → List Bool → Bool → Socket → Outcome (SocketClient A)
  unfolding is_connected read_registration
  register from_string any_address url attempts opens s = do
    (address, port) ← client_endpoint from_string any_address url
    (if is_connected attempts
        then read_registration address opens s
        else raise cannot_connect_to_server)
