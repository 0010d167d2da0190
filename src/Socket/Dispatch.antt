-- ===== src/Socket/Dispatch.antt =====
-- data/dataset_supplier_server_socket.cpp: a supplier that is a server deals its datasets out to the
-- clients that have registered.
pub mod Appends
pub mod Shares
use compute_web_app.Prelude.{
  ℕ, ◌%◌, List, [], ◌∷◌, Option, none, some, Bool, true, false, length, get_elem?, is_empty, ◌==◌,
  if◌then◌else◌,
}
use compute_web_app.Prelude.Words.{u32_mod, u32_max, u32_bytes}
use compute_web_app.Outcome.{Outcome, ok, raise, exits, fault, ◌>>=◌}
use compute_web_app.Dataset.{Files, Dataset, get_size, retrieve_buffer}
use compute_web_app.Supply.Supplier.{DatasetSupplier}
use compute_web_app.Socket.{Asio, Socket, send}
use compute_web_app.Socket.Server.{SocketServer, new_server, accept, client_ids, stop_registration}

-- `end_callback` says that OnClientRegistered was made the registration callback.
pub record ServerSupplier : Type 0 where
  pub server : SocketServer Socket
  pub end_callback : Bool

-- Bind.
unfoldable pub bind : ℕ → ServerSupplier
bind next = record { server = new_server next; end_callback = false }

-- client_sockets[client_id], changed in place.
pub update_socket : ℕ → (Socket → Socket) → List (ℕ × Socket) → List (ℕ × Socket)
update_socket k f [] = []
update_socket k f ((j, s) ∷ rest) =
    if j == k then (j, f s) ∷ rest else (j, s) ∷ update_socket k f rest

module _ (asio : Asio) where
  -- OnClientRegistered: a client that comes too late is told that there is no more dataset.
  unfoldable pub on_client_registered : Socket → Socket
  on_client_registered s = send asio (u32_bytes u32_max) s

  unfoldable pub accept_client : ServerSupplier → Socket → ℕ × Socket × ServerSupplier
  unfolding on_client_registered
  accept_client st socket =
      let (client_id, socket', server) =
        accept (if st.end_callback then some on_client_registered else none) st.server socket in
      (client_id, socket', record st { server = server })

  -- The three sends of PushDataset on one socket.
  unfoldable pub send_frame : ℕ → ℕ → List ℕ → Socket → Socket
  send_frame dataset_id size buffer s =
      send asio buffer (send asio (u32_bytes (size % u32_mod)) (send asio (u32_bytes dataset_id) s))

  -- `client_ids[dataset_id % client_ids.size()]`, and the socket of that client.
  push_to : ServerSupplier → (Socket → Socket) → Option ℕ → Outcome ServerSupplier
  unfolding update_socket
  push_to st f none = fault
  push_to st f (some client_id) = ok (record st {
    server = record st.server {
      client_sockets = update_socket client_id f st.server.client_sockets;
    };
  })

  -- While no client has registered PushDataset waits: `none`.
  push_contents : ℕ → ServerSupplier → Outcome (ℕ × List ℕ) → Option (Outcome ServerSupplier)
  unfolding push_to
  push_contents dataset_id st (ok (size, buffer)) =
      let ids = client_ids st.server.client_sockets in
      if is_empty ids
      then none
      else some
          (push_to st (send_frame dataset_id size buffer) (get_elem? ids (dataset_id % length ids)))
  push_contents dataset_id st (raise e) = some (raise e)
  push_contents dataset_id st exits = some exits
  push_contents dataset_id st fault = some fault

  unfoldable pub push_dataset :
      Files → Dataset → ℕ → ServerSupplier → Option (Outcome ServerSupplier)
  unfolding push_contents
  push_dataset fs dataset dataset_id st =
      push_contents dataset_id st
        (do size ← get_size fs dataset; buffer ← retrieve_buffer fs dataset; ok (size, buffer))

  -- The loop over all clients of PushEndSignal.
  pub send_to_all : List (ℕ × Socket) → List (ℕ × Socket)
  send_to_all [] = []
  send_to_all ((k, s) ∷ rest) = (k, send asio (u32_bytes u32_max) s) ∷ send_to_all rest

  unfoldable pub push_end_signal : ServerSupplier → ServerSupplier
  unfolding stop_registration
  push_end_signal st =
      let stopped = stop_registration st.server in
      record {
        server = record stopped { client_sockets = send_to_all stopped.client_sockets };
        end_callback = true;
      }

  -- Close: a client that is accepted before the server's own Close is told that there is no more
  -- dataset.
  unfoldable pub close : ServerSupplier → ServerSupplier
  unfolding stop_registration
  close st = record { server = stop_registration st.server; end_callback = true }

  after_push :
      ServerSupplier
      → Option (Outcome ServerSupplier)
      → Option (Outcome (Unit {0}) × ServerSupplier)
  after_push st none = none
  after_push st (some (ok st')) = some (ok tt, st')
  after_push st (some (raise e)) = some (raise e, st)
  after_push st (some exits) = some (exits, st)
  after_push st (some fault) = some (fault, st)

  -- The class DatasetSupplierServerSocket, as the supplier's thread calls it.
  unfoldable pub server_supplier : Files → DatasetSupplier ServerSupplier
  unfolding after_push
  server_supplier fs = record {
    push_dataset = λ ds i st. after_push st (push_dataset fs ds i st);
    push_end_signal = λ st. (ok tt, push_end_signal st);
  }
