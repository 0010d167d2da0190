-- ===== src/Socket.antt =====
-- data/dataset_supplier_client_socket.cpp, data/dataset_aggregator_client_socket.cpp and the receiving
-- threads of data/dataset_aggregator_server_socket.cpp: datasets as frames on a byte stream.
pub mod Receive
pub mod Frames
pub mod Stream
pub mod Server
pub mod Dispatch
pub mod Pull
pub mod Url
pub mod Client
use compute_web_app.Prelude.{
  ℕ, zero, suc, ◌+◌, ◌-◌, ◌%◌, ◌≤◌, ◌<◌, ◌≡◌, List, [], ◌∷◌, ◌++◌, Option, none, some, Bool, length,
  take, drop, is_empty, if◌then◌else◌, ◌==◌,
}
use compute_web_app.Prelude.Words.{u32_mod, u32_max, u32_bytes, u32_of_bytes}
use compute_web_app.Prelude.Text.{codes, to_text}
use compute_web_app.Outcome.{Outcome, ok, raise, exits, fault, socket_error, or_exit, ◌>>=◌}
use compute_web_app.Supply.Supplier.{DatasetSupplier}
use compute_web_app.Dataset.{
  Files, Dataset, new_dataset, set_id, retain_buffer, get_size, retrieve_buffer,
}

-- How the calls of the socket library go in a run: how many bytes the k-th call of `send` takes of a
-- buffer of n, and how many the k-th call of `receive` delivers into a room of n when `available` more
-- will arrive.
pub record Asio : Type 0 where
  pub sent : ℕ → ℕ → ℕ
  pub received : ℕ → ℕ → ℕ → ℕ

-- Its documented behaviour: `send` takes no more than there is; `receive` blocks until there is a
-- byte or more, and delivers no more than fits.
pub record IsAsio (asio : Asio) : Type 0 where
  pub sent_le : (k n : ℕ) → asio.sent k n ≤ n
  pub received_le_room : (k room available : ℕ) → asio.received k room available ≤ room
  pub received_le_available : (k room available : ℕ) → asio.received k room available ≤ available
  pub received_pos :
      (k room available : ℕ) → 0 < room → 0 < available → 0 < asio.received k room available

-- A run in which no call is short: each `send` takes the whole buffer, and a `receive` of the four bytes
-- of a number delivers all four. The library promises neither, and the code does not look at the
-- counts, so that this is a condition on the run.
pub record NoShortCall (asio : Asio) : Type 0 where
  pub sent_all : (k n : ℕ) → asio.sent k n ≡ n
  pub received_header : (k available : ℕ) → 4 ≤ available → asio.received k 4 available ≡ 4

-- The two ends of a connection: the bytes that were sent, or that are still to be received up to
-- the peer's close, and the number of calls made.
pub record Socket : Type 0 where
  pub bytes : List ℕ
  pub calls : ℕ

-- What stands in an optional dataset after the bytes of index `dataset_id` arrived.
unfoldable pub fill_dataset : Option Dataset → ℕ → List ℕ → Dataset
unfolding set_id retain_buffer
fill_dataset none dataset_id bytes =
    retain_buffer (set_id new_dataset (codes "dataset_" ++ to_text dataset_id)) bytes
fill_dataset (some dataset) dataset_id bytes =
    retain_buffer (set_id dataset (codes "dataset_" ++ to_text dataset_id)) bytes

module _ (asio : Asio) where
  unfoldable pub send : List ℕ → Socket → Socket
  send buffer s = record {
    bytes = s.bytes ++ take (asio.sent s.calls (length buffer)) buffer;
    calls = s.calls + 1;
  }

  -- The end of the stream is an exception.
  unfoldable pub receive : ℕ → Socket → Outcome (List ℕ × Socket)
  receive room s =
      if is_empty s.bytes
      then raise socket_error
      else (let n = asio.received s.calls room (length s.bytes) in
          ok (take n s.bytes, record { bytes = drop n s.bytes; calls = s.calls + 1 }))

  -- A `receive` into the four bytes of a variable: what it does not deliver stays as it was. The
  -- count that the call returns is not looked at.
  unfoldable pub receive_u32 : ℕ → Socket → Outcome (ℕ × Socket)
  receive_u32 old s = do
    (got, s') ← receive 4 s
    ok (u32_of_bytes (got ++ drop (length got) (u32_bytes old)), s')

  -- while(received_bytes < length): `room` is what is still missing. `none` means that the fuel ran
  -- out.
  pub receive_all : ℕ → ℕ → List ℕ → Socket → Option (Outcome (List ℕ × Socket))
  receive_all zero room got s = none
  receive_all (suc fuel) zero got s = some (ok (got, s))
  receive_all (suc fuel) (suc room) got s = elim (receive (suc room) s) [
    | ok (more, s') ↦ receive_all fuel (suc room - length more) (got ++ more) s'
    | raise e ↦ some (raise e)
    | exits ↦ some exits
    | fault ↦ some fault
  ]

  -- PushDataset of a supplier that is a client. The length is cut to a `uint32_t`, and the buffer
  -- is sent whole.
  unfoldable pub push_dataset : Files → Dataset → ℕ → Socket → Outcome Socket
  push_dataset fs dataset dataset_id s = do
    size ← get_size fs dataset
    buffer ← retrieve_buffer fs dataset
    ok (send buffer (send (u32_bytes (size % u32_mod)) (send (u32_bytes dataset_id) s)))

  unfoldable pub push_end_signal : Socket → Socket
  push_end_signal s = send (u32_bytes u32_max) s

  pulled :
      Option Dataset
      → ℕ
      → Option (Outcome (List ℕ × Socket))
      → Option (Outcome (Option Dataset × ℕ × Socket))
  unfolding fill_dataset
  pulled dataset dataset_id none = none
  pulled dataset dataset_id (some r) =
      some (do (bytes, s) ← r; ok (some (fill_dataset dataset dataset_id bytes), dataset_id, s))

  pull_body :
      Option Dataset → ℕ → Outcome (ℕ × Socket) → Option (Outcome (Option Dataset × ℕ × Socket))
  unfolding pulled
  pull_body dataset dataset_id (ok (size, s)) =
      pulled dataset dataset_id (receive_all (suc size) size [] s)
  pull_body dataset dataset_id (raise e) = some (raise e)
  pull_body dataset dataset_id exits = some exits
  pull_body dataset dataset_id fault = some fault

  pull_after_id :
      Option Dataset → Outcome (ℕ × Socket) → Option (Outcome (Option Dataset × ℕ × Socket))
  unfolding pull_body
  pull_after_id dataset (ok (dataset_id, s)) =
      if dataset_id == u32_max
      then some (ok (dataset, dataset_id, s))
      else pull_body dataset dataset_id (receive_u32 u32_max s)
  pull_after_id dataset (raise e) = some (raise e)
  pull_after_id dataset exits = some exits
  pull_after_id dataset fault = some fault

  -- PullDataset of an aggregator that is a client; `old` is the value that the caller's variable
  -- `dataset_id` has. An exception of the first `receive` is caught and ends the process.
  unfoldable pub pull_dataset :
      ℕ → Option Dataset → Socket → Option (Outcome (Option Dataset × ℕ × Socket))
  unfolding pull_after_id
  pull_dataset old dataset s = pull_after_id dataset (or_exit (receive_u32 old s))

-- An entry of the aggregator server's queue.
pub record DatasetStruct : Type 0 where
  pub client_id : ℕ
  pub id : ℕ
  pub buffer : List ℕ

-- The thread that serves one client, on the server's side: what it put into the queue, and how it
-- ended. An exception that leaves the thread's function ends the process.
pub record Received : Type 0 where
  pub outcome : Outcome (Unit {0})
  pub entries : List DatasetStruct

abbrev pub with_entry : DatasetStruct → Option Received → Option Received
with_entry e none = none
with_entry e (some r) = some (record r { entries = e ∷ r.entries })

module _ (asio : Asio) (client_id : ℕ) where
  entry : ℕ → List ℕ → DatasetStruct
  entry id bytes = record { client_id = client_id; id = id; buffer = bytes }

  -- The variables `dataset.id` and `length` keep their values from one round to the next; `buffer`
  -- is what `std::move` left of the last one. With each frame the next round gets its state.
  after_body :
      ℕ
      → ℕ
      → (ℕ → ℕ → Socket → Option Received)
      → Option (Outcome (List ℕ × Socket))
      → Option Received
  unfolding entry
  after_body id size next none = none
  after_body id size next (some (ok (bytes, s))) = with_entry (entry id bytes) (next id size s)
  after_body id size next (some (raise e)) = some (record { outcome = raise e; entries = [] })
  after_body id size next (some exits) = some (record { outcome = exits; entries = [] })
  after_body id size next (some fault) = some (record { outcome = fault; entries = [] })

  after_length : ℕ → (ℕ → ℕ → Socket → Option Received) → Outcome (ℕ × Socket) → Option Received
  unfolding after_body
  after_length id next (ok (size, s)) =
      after_body id size next (receive_all asio (suc size) size [] s)
  after_length id next (raise e) = some (record { outcome = raise e; entries = [] })
  after_length id next exits = some (record { outcome = exits; entries = [] })
  after_length id next fault = some (record { outcome = fault; entries = [] })

  after_id : ℕ → (ℕ → ℕ → Socket → Option Received) → Outcome (ℕ × Socket) → Option Received
  unfolding after_length
  after_id old_length next (ok (id, s)) =
      if id == u32_max
      then some (record { outcome = ok tt; entries = entry id [] ∷ [] })
      else after_length id next (receive_u32 asio old_length s)
  after_id old_length next (raise e) = some (record { outcome = raise e; entries = [] })
  after_id old_length next exits = some (record { outcome = exits; entries = [] })
  after_id old_length next fault = some (record { outcome = fault; entries = [] })

  -- `none` means that the fuel, one unit a frame, ran out.
  pub serve_client : ℕ → ℕ → ℕ → Socket → Option Received
  unfolding after_id
  serve_client zero old_id old_length s = none
  serve_client (suc fuel) old_id old_length s =
      after_id old_length (λ id size s'. serve_client fuel id size s') (receive_u32 asio old_id s)
