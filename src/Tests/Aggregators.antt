-- ===== src/Tests/Aggregators.antt =====
-- The theorems on the aggregator's thread at concrete inputs.
use compute_web_app.Prelude.{ℕ, ◌≡◌, refl, List, [], ◌∷◌, none, some, true, false, count, arith}
use compute_web_app.Prelude.Text.{codes}
use compute_web_app.Prelude.Words.{u32_max}
use compute_web_app.Outcome.{ok}
use compute_web_app.Dataset.{Dataset, new_data, release_buffer, write_file}
use compute_web_app.Socket.{DatasetStruct}
use compute_web_app.Socket.Server.{client_ids, erase_socket}
use compute_web_app.Aggregate.{Callback, AggregateResult, run}
use compute_web_app.Aggregate.Server.{ServerAggregator, server_aggregator}
use compute_web_app.Aggregate.Server.Entries.{ends, absorbed}
use compute_web_app.Aggregate.Server.Complete.{run-IsClosed, run-early}
use compute_web_app.Aggregate.Server.Workers.{PushingWorker}
use compute_web_app.Tests.Fixtures.{empty_disk, fresh_socket, first_dataset, second_dataset}

abbrev ended : ℕ → DatasetStruct
ended client_id = record { client_id = client_id; id = u32_max; buffer = [] }

-- Two clients whose datasets arrived interleaved.
abbrev full_queue : List DatasetStruct
full_queue =
    record { client_id = 1; id = 0; buffer = 7 ∷ [] }
    ∷ record { client_id = 2; id = 1; buffer = 8 ∷ [] }
    ∷ ended 2
    ∷ record { client_id = 1; id = 2; buffer = 9 ∷ [] }
    ∷ ended 1
    ∷ []

abbrev two_clients : ServerAggregator
two_clients = record {
  server = record {
    next_client_id = 3;
    stop_registering = false;
    client_sockets = (1, fresh_socket) ∷ (2, fresh_socket) ∷ [];
  };
  datasets = full_queue;
}

same_clients :
    (c : ℕ) → count c (ends full_queue) ≡ count c (client_ids two_clients.server.client_sockets)
same_clients c = ground arith

abbrev keep_on_disk : Callback
keep_on_disk ds fs = (release_buffer ds, write_file fs ds.id ds.buffer)

run-IsClosed_example :
    run server_aggregator (some keep_on_disk) 6 two_clients (new_data (codes "out")) empty_disk 0
    ≡ some (record {
      outcome = ok tt;
      world = record {
        server = record two_clients.server { client_sockets = []; stop_registering = true };
        datasets = [];
      };
      target = (absorbed (some keep_on_disk) (new_data (codes "out")) empty_disk full_queue).0;
      files = (absorbed (some keep_on_disk) (new_data (codes "out")) empty_disk full_queue).1;
      total_buffers = 3;
    })
run-IsClosed_example =
    run-IsClosed (some keep_on_disk) two_clients (new_data (codes "out")) empty_disk 6 same_clients
      (omega arith, (omega arith, (tt, (omega arith, (tt, tt))))) (omega arith) (omega arith)

-- Client 1 ended before client 2 was accepted.
abbrev late_queue : List DatasetStruct
late_queue = record { client_id = 2; id = 1; buffer = 8 ∷ [] } ∷ ended 2 ∷ []

abbrev one_client : ServerAggregator
one_client = record {
  server = record {
    next_client_id = 3;
    stop_registering = false;
    client_sockets = (1, fresh_socket) ∷ [];
  };
  datasets = record { client_id = 1; id = 0; buffer = 7 ∷ [] } ∷ ended 1 ∷ late_queue;
}

run-early_example :
    (r : AggregateResult ServerAggregator) × (run server_aggregator none 3 one_client
        (new_data (codes "out"))
        empty_disk
        0
      ≡ some r)
    × (r.outcome ≡ ok tt)
    × (r.world.datasets ≡ late_queue)
    × (r.total_buffers ≡ 1)
unfolding erase_socket
run-early_example =
    run-early none one_client (record { client_id = 1; id = 0; buffer = 7 ∷ [] } ∷ []) (ended 1)
      late_queue (new_data (codes "out")) empty_disk 3 refl (ground arith, tt) refl refl
      (omega arith)

-- Two workers with a dataset each; the second worker's dataset arrives first.
abbrev two_workers : List PushingWorker
two_workers =
    record { client_id = 1; pushed = (0, first_dataset) ∷ []; buffers = (0, 1 ∷ 2 ∷ 3 ∷ []) ∷ [] }
    ∷ record { client_id = 2; pushed = (1, second_dataset) ∷ []; buffers = (1, 9 ∷ []) ∷ [] }
    ∷ []

abbrev two_connections : ServerAggregator
two_connections = record two_clients {
  datasets =
      record { client_id = 2; id = 1; buffer = 9 ∷ [] }
      ∷ record { client_id = 1; id = 0; buffer = 1 ∷ 2 ∷ 3 ∷ [] }
      ∷ ended 1
      ∷ ended 2
      ∷ [];
}
