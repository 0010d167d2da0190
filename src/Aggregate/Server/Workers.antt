-- ===== src/Aggregate/Server/Workers.antt =====
-- Several workers and one aggregator server, from the workers' datasets to the data that the server's
-- thread makes of them.
use compute_web_app.Prelude.{ℕ, ◌<◌, ◌≡◌, refl, List, [], ◌∷◌, Option, none, some, map, length}
use compute_web_app.Outcome.{Outcome, ok, raise, exits, fault}
use compute_web_app.Dataset.{Files, Dataset}
use compute_web_app.Socket.{
  Asio, IsAsio, NoShortCall, Socket, DatasetStruct, Received, serve_client,
}
use compute_web_app.Socket.Stream.{
  entries, AreFrames, AreRetrieved, push_all, push_all-serve_client,
}
use compute_web_app.Aggregate.Server.Senders.{Sender, entries_of}

-- A worker that is a client: the id that it has, what it pushes, and the buffers of these datasets.
pub record PushingWorker : Type 0 where
  pub client_id : ℕ
  pub pushed : List (ℕ × Dataset)
  pub buffers : List (ℕ × List ℕ)

-- Its buffers are found, no index is that of the end signal, and each buffer is short enough.
abbrev pub IsReady : Files → ℕ → PushingWorker → Type 0
IsReady fs fuel w =
    AreRetrieved fs w.pushed w.buffers × AreFrames w.buffers × (length w.buffers < fuel)

abbrev pub AllReady : Files → ℕ → List PushingWorker → Type 0
AllReady fs fuel [] = Unit {0}
AllReady fs fuel (w ∷ ws) = IsReady fs fuel w × AllReady fs fuel ws

abbrev pub queued_of : Option Received → List DatasetStruct
queued_of none = []
queued_of (some r) = r.entries

abbrev served : Asio → ℕ → ℕ → Outcome Socket → Option Received
served asio client_id fuel (ok s) =
    serve_client asio client_id fuel 0 0 (record { bytes = s.bytes; calls = 0 })
served asio client_id fuel (raise e) = none
served asio client_id fuel exits = none
served asio client_id fuel fault = none

-- What the server's thread for a worker queues, of what the worker pushes over the connection.
abbrev pub queued : Asio → Files → ℕ → PushingWorker → List DatasetStruct
queued asio fs fuel w =
    queued_of
      (served asio w.client_id fuel (push_all asio fs w.pushed (record { bytes = []; calls = 0 })))

abbrev pub senders : List PushingWorker → List Sender
senders [] = []
senders (w ∷ ws) = (w.client_id, w.buffers) ∷ senders ws

module _ (asio : Asio) (laws : IsAsio asio) (whole : NoShortCall asio) (worker_files : Files)
    (connection_fuel : ℕ) where
  queued-entries :
      (w : PushingWorker)
      → IsReady worker_files connection_fuel w
      → queued asio worker_files connection_fuel w ≡ entries w.client_id w.buffers
  queued-entries w ready =
      let (last, pushed, read) =
        push_all-serve_client asio laws whole worker_files w.pushed w.buffers connection_fuel
          w.client_id 0 0 0 ready.0 ready.1 ready.2 in
      rw (pushed, read) refl

  pub all-entries :
      (ws : List PushingWorker)
      → AllReady worker_files connection_fuel ws
      → map (queued asio worker_files connection_fuel) ws ≡ entries_of (senders ws)
  all-entries [] ready = refl
  all-entries (w ∷ ws) ready = rw (queued-entries w ready.0, all-entries ws ready.1) refl
