-- ===== src/Aggregate/Server/Rounds.antt =====
-- One round of the aggregator's loop over an aggregator server, for each kind of entry.
use compute_web_app.Prelude.{
  ℕ, suc, ◌+◌, ◌≡◌, refl, List, [], ◌∷◌, Option, some, true, false, is_empty, ◌==◌,
}
use compute_web_app.Prelude.Words.{u32_max}
use compute_web_app.Outcome.{ok}
use compute_web_app.Dataset.{Files, Data, set_data, push_back, set_id, retain_buffer}
use compute_web_app.Socket.{Socket, DatasetStruct, fill_dataset}
use compute_web_app.Socket.Server.{erase_socket, stop_registration}
use compute_web_app.Aggregate.{Callback, AggregateResult, call_back, run}
use compute_web_app.Aggregate.Server.{
  ServerAggregator, pull_dataset, handle_end_signal, server_aggregator,
}
use compute_web_app.Aggregate.Server.Entries.{dataset_of}

-- The state with these clients and this queue.
abbrev pub state_of : ServerAggregator → List (ℕ × Socket) → List DatasetStruct → ServerAggregator
state_of st cs q = record { server = record st.server { client_sockets = cs }; datasets = q }

module _ (callback : Option Callback) (st : ServerAggregator) where
  abbrev pub agg :
      ℕ
      → List (ℕ × Socket)
      → List DatasetStruct
      → Data
      → Files
      → ℕ
      → Option (AggregateResult ServerAggregator)
  agg fuel cs q = run server_aggregator callback fuel (state_of st cs q)

  -- One round on an entry that is no end signal.
  pub run-data :
      (fuel : ℕ) (cs : List (ℕ × Socket)) (e : DatasetStruct) (q : List DatasetStruct)
      (target : Data) (fs : Files) (total : ℕ)
      → (e.id == u32_max) ≡ false
      → let (ds, fs') = call_back callback (dataset_of target.id e) fs in
        agg (suc fuel) cs (e ∷ q) target fs total
        ≡ agg fuel cs q (push_back target ds) fs' (total + 1)
  unfolding run server_aggregator pull_dataset fill_dataset set_id retain_buffer set_data
  run-data fuel cs e q target fs total h = rw (h, h) refl

  -- One round on the end signal of a client that is not the last.
  pub run-end :
      (fuel : ℕ) (cs : List (ℕ × Socket)) (e : DatasetStruct) (q : List DatasetStruct)
      (target : Data) (fs : Files) (total : ℕ)
      → (e.id == u32_max) ≡ true
      → is_empty (erase_socket e.client_id cs) ≡ false
      → agg (suc fuel) cs (e ∷ q) target fs total
        ≡ agg fuel (erase_socket e.client_id cs) q target fs total
  unfolding run server_aggregator pull_dataset handle_end_signal
  run-end fuel cs e q target fs total h k = rw (h, h, k) refl

  -- The last round.
  pub run-last :
      (fuel : ℕ) (cs : List (ℕ × Socket)) (e : DatasetStruct) (q : List DatasetStruct)
      (target : Data) (fs : Files) (total : ℕ)
      → (e.id == u32_max) ≡ true
      → erase_socket e.client_id cs ≡ []
      → agg (suc fuel) cs (e ∷ q) target fs total
        ≡ some (record {
          outcome = ok tt;
          world = record {
            server = stop_registration (record st.server { client_sockets = [] });
            datasets = q;
          };
          target = target;
          files = fs;
          total_buffers = total;
        })
  unfolding run server_aggregator pull_dataset handle_end_signal
  run-last fuel cs e q target fs total h k = rw (h, h, k) refl

  abbrev pub result : Data × Files → ℕ → List DatasetStruct → AggregateResult ServerAggregator
  result (target, fs) total q = record {
    outcome = ok tt;
    world = record {
      server = stop_registration (record st.server { client_sockets = [] });
      datasets = q;
    };
    target = target;
    files = fs;
    total_buffers = total;
  }
