-- ===== src/Lib.antt =====
-- The data and process libraries of the Compute Web App, in antt.
--
-- The program computes a process over datasets. A server process has a `Data`, a list of `Dataset`s
-- (src/data/dataset.cpp, src/data/data.cpp). A `DataSupplyState` (src/data/data_supply_state.cpp)
-- holds the queue of the indices to provide; `DataSupplier` threads (src/data/data_supplier.cpp) grab
-- datasets from it and push them through a `DatasetSupplierServer`. Workers pull them with a
-- `DatasetAggregatorClient`, and push their results with a `DatasetSupplierClient`. A
-- `DataAggregator` thread (src/data/data_aggregator.cpp) pulls the results through a
-- `DatasetAggregatorServer` into another `Data`. The servers and clients exist over sockets and over
-- an exchange file.
--
-- Files:
--   Prelude and its children: library names, Boolean tests, lists over native numbers, the bytes of a
--     `uint32_t`, texts as lists of bytes.
--   Outcome: the exceptions of src/data/data_exception.h, and the outcome of a method.
--   Dataset: `Dataset`, `Data` and the files that hold the buffers (GetSize is get_size, and so on).
--   Supply: DataSupplyState. Supply/Supplier: the loop of DataSupplier::Private::Run over any class of
--     suppliers, a record of the virtual methods. Supply/Threads: several such threads on one state;
--     their calls are interleaved by a schedule, in which an action is a call of GrabDataset or of
--     PushDataset.
--   Socket: the frames on a connection: a supplier client (src/data/dataset_supplier_client_socket.cpp),
--     an aggregator client (src/data/dataset_aggregator_client_socket.cpp), and the thread of an
--     aggregator server that receives from one client. Socket/Server: src/data/dataset_socket_server.cpp,
--     the registration. Socket/Dispatch: src/data/dataset_supplier_server_socket.cpp.
--   Aggregate: the loop of DataAggregator::Private::Run over any class of aggregators.
--     Aggregate/Server: src/data/dataset_aggregator_server_socket.cpp. Aggregate/File: the same loop over
--     src/data/dataset_aggregator_server_file.cpp.
--   Socket/Url: Split of src/data/utils.h, and the checks of URLs of the two files above and below.
--     Socket/Client: src/data/dataset_socket_client.cpp. Socket/Pull: what a worker sees of its frames.
--   Peers: the ids and timeouts of suppliers and aggregators (src/data/dataset_supplier.cpp,
--     src/data/dataset_aggregator.cpp and the classes over them).
--   Log: src/log/log.cpp, the levels and the command line; what the logging library writes is left out.
--   Benchmark: src/process/benchmark/benchmark_worker.cpp, a worker process: its command line and its
--     loop. Benchmark/Product: its product of matrices. Benchmark/Main:
--     src/process/benchmark/benchmark_main.cpp, the main program; Benchmark/Main/Generate: the
--     input files it writes. Benchmark/Queues and Benchmark/Ring: workers
--     between a supplier server and an aggregator server. Benchmark/Shared: workers between two exchange
--     files; Schedules: what ends under a fair schedule.
--   Exchange: src/data/dataset_exchange_file.cpp, the file over which servers and clients exchange the
--     names of datasets, and its lock. Exchange/Library: the JSON library. Exchange/Transfer:
--     src/data/dataset_supplier_client_file.cpp, src/data/dataset_aggregator_client_file.cpp and
--     src/data/dataset_aggregator_server_file.cpp. Exchange/Readers:
--     src/data/dataset_supplier_server_file.cpp. Exchange/Clients: the clients in the file. Exchange/Sections: the calls
--     between LockFile and UnlockFile.
--   Process: src/process. Process/TextMap: `std::map` with texts as keys. Process/Variant:
--     src/process/variant.cpp. Process/Definition: src/process/definition.cpp. Process/Worker: the
--     launch of src/process/worker_multi_thread.cpp and src/process/worker_multi_process.cpp.
--   Tests: the theorems at concrete inputs.
--
-- The model. State is passed explicitly, and a method returns an `Outcome`: a value, an exception,
-- `exit(-1)`, or undefined behaviour (`fault`). `uint32_t` and `size_t` are numbers with their
-- wrap-around written out. A call that waits for ever, for a client or for a dataset, is `none`, and
-- so is a loop that has used up its fuel; each theorem on such a loop shows that the fuel it names is
-- enough. Fuel counts rounds: one above the number of datasets, of frames, of queued entries, or of
-- missing bytes.
--
-- Not in src/, and so parameters: the socket library. Record Asio says how many bytes each call of `send`
-- or `receive` of a run moves; IsAsio is what is documented of that. NoShortCall is a condition on the run,
-- that sends and the receipt of four bytes are whole, which the library does not promise and the code
-- does not check; where a theorem has it, its description says so. Streams on files follow the standard
-- library: no file at a path gives the position -1, an unopened output stream writes nothing.
-- The JSON library is a parameter too: record Json has the calls that the code makes, IsJson what is
-- documented of them on nulls, objects, arrays, numbers and texts.
-- Of the type `double` the comparison and the output are parameters (Double), and so is the launch of
-- a process.
-- In the product of matrices the square root, the random matrix and the matrix library are parameters
-- (Libraries), and so are `atoi` in the command lines and a draw of a random number in the files that
-- the main program of the benchmark writes.
--
-- The exchange file: a step of a model is a whole critical section, from LockFile to UnlockFile, which is
-- right only with the lock. LockFile gives up after five seconds and goes on without it; the field
-- `lock_in_time` says that this does not happen, and a write without the lock is `fault`, since others
-- may write at the same time. Exchange/Sections interleaves the calls themselves. A document with a text that is not UTF-8 cannot be written: the library
-- throws, and the theorems ask for names of files that it can write.
--
-- Not modelled: the opening of sockets, what the log writes, the start of the threads and
-- the measurement of time in the main program of the benchmark, the tests, the benchmarks of network
-- libraries, the Python module and the web frontend; plog and the JSON library are copies of other
-- projects. Waits by sleeping are not timed.
pub mod Prelude
pub mod Outcome
pub mod Dataset
pub mod Schedules
pub mod Supply
pub mod Socket
pub mod Aggregate
pub mod Exchange
pub mod Process
pub mod Benchmark
pub mod Peers
pub mod Log
mod Tests
