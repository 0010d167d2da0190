-- ===== src/Socket/Server.antt =====
-- data/dataset_socket_server.cpp: the registration of clients. A client's push/pull socket is a
-- value of `V`; the map from client ids to sockets is a list in the order of the ids, as `std::map`
-- iterates.
pub mod Registration
use compute_web_app.Prelude.{
  ℕ, suc, ◌+◌, ◌%◌, List, [], ◌∷◌, Option, none, some, Bool, true, false, not, ltb, ◌==◌,
  if◌then◌else◌, map,
}
use compute_web_app.Prelude.Words.{u32_mod, u32_bytes}
use compute_web_app.Socket.{Asio, Socket, send}

module _ {V : Type 0} where
  -- sockets[k] = v
  unfoldable pub insert_socket : ℕ → V → List (ℕ × V) → List (ℕ × V)
  insert_socket k v [] = (k, v) ∷ []
  insert_socket k v ((j, w) ∷ rest) =
      if k == j
      then (k, v) ∷ rest
      else if ltb k j
      then (k, v) ∷ (j, w) ∷ rest
      else (j, w) ∷ insert_socket k v rest

  -- sockets.erase(k)
  unfoldable pub erase_socket : ℕ → List (ℕ × V) → List (ℕ × V)
  erase_socket k [] = []
  erase_socket k ((j, w) ∷ rest) = if j == k then rest else (j, w) ∷ erase_socket k rest

  abbrev pub client_ids : List (ℕ × V) → List ℕ
  client_ids [] = []
  client_ids ((k, v) ∷ rest) = k ∷ client_ids rest

-- `next_client_id` is static: the servers of one process count on.
pub record SocketServer (V : Type 0) : Type 0 where
  pub next_client_id : ℕ
  pub stop_registering : Bool
  pub client_sockets : List (ℕ × V)

abbrev pub new_server : {V : Type 0} → ℕ → SocketServer V
new_server next = record { next_client_id = next; stop_registering = false; client_sockets = [] }

unfoldable pub stop_registration : {V : Type 0} → SocketServer V → SocketServer V
stop_registration server = record server { stop_registering = true }

abbrev pub call_back : {V : Type 0} → Option (V → V) → V → V
call_back none v = v
call_back (some f) v = f v

-- The handler of DoAccept_: the id that the client is sent, its socket, and the server after it. The socket is
-- put into the map only while clients are registered; the callback acts on the same socket.
unfoldable pub accept : {V : Type 0} → Option (V → V) → SocketServer V → V → ℕ × V × SocketServer V
unfolding insert_socket
accept on_client_registered server socket =
    let client_id = server.next_client_id in
    let socket' = call_back on_client_registered socket in
    (
      client_id,
      socket',
      record server {
        client_sockets =
            if not server.stop_registering
            then insert_socket client_id socket' server.client_sockets
            else server.client_sockets;
        next_client_id = (client_id + 1) % u32_mod;
      },
    )

-- What DoAccept_ sends on the socket of a client that registers: its id, and the port of the push/pull
-- socket.
unfoldable pub send_registration : Asio → ℕ → ℕ → Socket → Socket
send_registration asio client_id port s =
    send asio (u32_bytes port) (send asio (u32_bytes client_id) s)

-- The destructor; its Close ends the thread in which clients are accepted.
unfoldable pub destroy_server : {V : Type 0} → SocketServer V → SocketServer V
unfolding stop_registration
destroy_server server = stop_registration server
