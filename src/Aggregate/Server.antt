-- ===== src/Aggregate/Server.antt =====
-- data/dataset_aggregator_server_socket.cpp: the queue that the receiving threads fill (Socket.antt
-- has those), PullDataset and HandleEndSignal.
pub mod Entries
mod Rounds
pub mod Complete
pub mod Merge
pub mod Senders
pub mod Workers
use compute_web_app.Prelude.{
  ℕ, List, [], ◌∷◌, ◌++◌, Option, none, some, is_empty, ◌==◌, if◌then◌else◌,
}
use compute_web_app.Prelude.Words.{u32_max}
use compute_web_app.Outcome.{Outcome, ok, raise, no_more_supplier}
use compute_web_app.Dataset.{Dataset}
use compute_web_app.Socket.{Socket, DatasetStruct, fill_dataset}
use compute_web_app.Socket.Server.{
  SocketServer, new_server, accept, erase_socket, stop_registration,
}
use compute_web_app.Aggregate.{DatasetAggregator}

pub record ServerAggregator : Type 0 where
  pub server : SocketServer Socket
  pub datasets : List DatasetStruct

unfoldable pub bind : ℕ → ServerAggregator
bind next = record { server = new_server next; datasets = [] }

-- A receiving thread queues an entry, under the lock.
unfoldable pub enqueue : ServerAggregator → DatasetStruct → ServerAggregator
enqueue st e = record st { datasets = st.datasets ++ e ∷ [] }

-- The end signal of a client removes it from the clients; the caller's dataset stays as it was.
pull_entry :
    Option Dataset
    → ServerAggregator
    → DatasetStruct
    → Outcome (Option Dataset × ℕ) × ServerAggregator
pull_entry dataset st e =
    if e.id == u32_max
    then (
      ok (dataset, e.id),
      record st {
        server = record st.server {
          client_sockets = erase_socket e.client_id st.server.client_sockets;
        };
      },
    )
    else (ok (some (fill_dataset dataset e.id e.buffer), e.id), st)

pull_front :
    Option Dataset
    → ServerAggregator
    → List DatasetStruct
    → Option (Outcome (Option Dataset × ℕ) × ServerAggregator)
unfolding pull_entry
pull_front dataset st [] = none
pull_front dataset st (e ∷ rest) = some (pull_entry dataset (record st { datasets = rest }) e)

-- While the queue is empty PullDataset waits: `none`.
unfoldable pub pull_dataset :
    Option Dataset → ℕ → ServerAggregator → Option (Outcome (Option Dataset × ℕ) × ServerAggregator)
unfolding pull_front
pull_dataset dataset dataset_id st = pull_front dataset st st.datasets

unfoldable pub handle_end_signal : ServerAggregator → Outcome (Unit {0}) × ServerAggregator
unfolding stop_registration
handle_end_signal st =
    if is_empty st.server.client_sockets
    then (raise no_more_supplier, record st { server = stop_registration st.server })
    else (ok tt, st)

-- Close, once the receiving threads have ended.
unfoldable pub close : ServerAggregator → ServerAggregator
unfolding stop_registration
close st = record st { server = stop_registration st.server }

-- The class DatasetAggregatorServerSocket, as the aggregator's thread calls it.
unfoldable pub server_aggregator : DatasetAggregator ServerAggregator
server_aggregator = record { pull_dataset = pull_dataset; handle_end_signal = handle_end_signal }
