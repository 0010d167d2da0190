-- ===== src/Tests/Benchmarks.antt =====
-- The theorems on the benchmark's worker and on the ring at concrete inputs.
use compute_web_app.Prelude.{
  ℕ, suc, ◌+◌, ◌≡◌, ◌⊎◌, refl, List, [], ◌∷◌, ◌++◌, none, some, false, map, arith, ◌%◌, length,
  get_elem?,
}
use compute_web_app.Prelude.Text.{Text, codes, to_text}
use compute_web_app.Outcome.{Outcome, ok, exits}
use compute_web_app.Dataset.{Dataset, retrieve_buffer}
use compute_web_app.Supply.{DataSupplyState}
use compute_web_app.Supply.Supplier
use compute_web_app.Socket.Stream.{frames}
use compute_web_app.Socket.Dispatch.{ServerSupplier}
use compute_web_app.Aggregate
use compute_web_app.Aggregate.Server.{ServerAggregator}
use compute_web_app.Process.Definition.{new_definition}
use compute_web_app.Process.Variant.{decimal}
use compute_web_app.Process.Worker.{
  ServerClass, server_type, file_server, socket_server, Worker, process_arguments, thread_arguments,
}
use compute_web_app.Benchmark.{
  ClientClass, choose_clients, new_worker_state, default_options, read_options,
}
use compute_web_app.Benchmark.Main.{
  MainOptions, default_main_options, read_main_options, choose_servers, benchmark_worker,
  input_data,
}
use compute_web_app.Benchmark.Main.Generate.{generate_files}
use compute_web_app.Benchmark.Main.Generate.Found.{retrieve-generate_files}
use compute_web_app.Benchmark.Main.Launch.{
  IsUnknown, client_of, output_of, choose_servers-choose_clients,
}
use compute_web_app.Benchmark.Arguments.{read_options-process_arguments}
use compute_web_app.Benchmark.Product.{element}
use compute_web_app.Benchmark.Round.{State}
use compute_web_app.Tests.Processes.{number}
use compute_web_app.Tests.Fixtures.{empty_disk, two_datasets, fresh_socket}

-- Every byte is counted up by the number of buffers before, and one.
abbrev count_up : ℕ → List ℕ → Outcome (List ℕ × ℕ)
count_up n bytes = ok (map (λ b. suc (n + b)) bytes, suc n)

abbrev two_buffers : List (ℕ × List ℕ)
two_buffers = (4, 1 ∷ 2 ∷ []) ∷ (6, 7 ∷ []) ∷ []

abbrev ready : State count_up
ready =
    new_worker_state 0 0 none empty_disk
      (record { bytes = frames two_buffers ++ 5 ∷ []; calls = 0 }) fresh_socket

abbrev two_clients : ServerSupplier
two_clients = record {
  server = record {
    next_client_id = 6;
    stop_registering = false;
    client_sockets = (3, fresh_socket) ∷ (5, fresh_socket) ∷ [];
  };
  end_callback = false;
}

abbrev two_queued : DataSupplyState
two_queued = record { source = two_datasets; datasets_to_provide = 0 ∷ 1 ∷ [] }

abbrev buffers : List (List ℕ)
buffers = (1 ∷ 2 ∷ 3 ∷ []) ∷ (9 ∷ []) ∷ []

-- What the two workers compute.
abbrev results : List (List (ℕ × List ℕ))
results = ((0, 2 ∷ 3 ∷ 4 ∷ []) ∷ []) ∷ ((1, 10 ∷ []) ∷ []) ∷ []

-- The result of the second worker arrives first.
abbrev aggregator : ServerAggregator
aggregator = record {
  server = record {
    next_client_id = 3;
    stop_registering = false;
    client_sockets = (1, fresh_socket) ∷ (2, fresh_socket) ∷ [];
  };
  datasets =
      record { client_id = 2; id = 1; buffer = 10 ∷ [] }
      ∷ record { client_id = 1; id = 0; buffer = 2 ∷ 3 ∷ 4 ∷ [] }
      ∷ record { client_id = 1; id = 4294967295; buffer = [] }
      ∷ record { client_id = 2; id = 4294967295; buffer = [] }
      ∷ [];
}

-- A worker whose parameter has the name of a flag.
abbrev odd_worker : Worker ℕ
odd_worker = record {
  definition = new_definition (codes "cmd") (codes "-q" ∷ codes "--cwa-agg-info" ∷ []);
  parameter_values = (codes "--cwa-sup-type", decimal 2) ∷ [];
  supplier = record { class = file_server; info = codes "in.json" };
  aggregator = record { class = socket_server; info = codes "--cwa-sup-type" };
}

read_options-process_arguments_example :
    let options =
      read_options {I = Text} (λ t. t) (process_arguments number odd_worker) (default_options []) in
    (options.sup_type, options.sup_info, options.agg_type, options.agg_info)
    ≡ thread_arguments odd_worker
read_options-process_arguments_example =
    read_options-process_arguments number (λ t. t) odd_worker (default_options []) refl refl

-- The main program with `--cwa-agg file`.
abbrev main_options : MainOptions ℕ
main_options =
    read_main_options (λ n. n) (λ t. 4) (codes "--cwa-agg" ∷ codes "file" ∷ [])
      (default_main_options (λ n. n) (λ t. 4))

choose_servers-choose_clients_example :
    ((choose_servers main_options ≡ exits)
      × (IsUnknown main_options.sup_type ⊎ IsUnknown main_options.agg_type))
    ⊎ ((sup_class agg_class : ServerClass) × (sup_url agg_url : Text) × (choose_servers main_options
          ≡ ok ((sup_class, sup_url), (agg_class, agg_url)))
        × (server_type sup_class ≡ codes "socket")
        × (server_type agg_class ≡ codes "file")
        × ((aggregator supplier : ClientClass) × (client_of sup_class ≡ ok aggregator)
            × (client_of agg_class ≡ ok supplier)
            × (choose_clients (
                  read_options {I = Text}
                    (λ t. t)
                    (process_arguments number (
                      benchmark_worker to_text main_options sup_class
                        (codes "127.0.0.1:80")
                        agg_class
                        (codes "aggregator.json")))
                    (default_options []))
                ≡ ok (aggregator, supplier, output_of agg_class))))
unfolding read_main_options
choose_servers-choose_clients_example =
    choose_servers-choose_clients number to_text (λ t. t) main_options (default_options [])
      (codes "127.0.0.1:80") (codes "aggregator.json") refl refl

-- A random engine that counts.
abbrev counted : ℕ → ℕ × ℕ
counted state = (state % 32769, state + 1)

retrieve-generate_files_example :
    let after = generate_files counted 2 3 0 100 empty_disk in
    (ds : Dataset) × (bytes : List ℕ) × (get_elem? (input_data 3).datasets 1 ≡ some ds)
    × (ds.id ≡ codes "dataset_1")
    × (retrieve_buffer after ds ≡ ok bytes)
    × (length bytes ≡ 8)
    × (element 2 bytes 1 0 ≡ 105)
unfolding to_text
retrieve-generate_files_example =
    retrieve-generate_files counted 2 3 1 1 0 100 empty_disk (λ state. omega arith) (omega arith)
      (λ j h. refl) (omega arith) (omega arith) (omega arith)
