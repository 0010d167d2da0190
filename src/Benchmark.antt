-- ===== src/Benchmark.antt =====
-- process/benchmark/benchmark_worker.cpp: a worker process. Its clients are records of operations on
-- what they are connected to; the loop has the product of matrices (Benchmark/Product) as a
-- parameter, with its state between rounds.
pub mod Arguments
pub mod Main
pub mod Product
pub mod Round
pub mod Ids
pub mod Queues
mod Counts
pub mod Ring
pub mod Shared
use compute_web_app.Prelude.{ℕ, zero, suc, List, [], ◌∷◌, Option, none, some, ◌==◌, if◌then◌else◌}
use compute_web_app.Prelude.Words.{u32_max}
use compute_web_app.Prelude.Text.{Text, codes, text_eq}
use compute_web_app.Outcome.{Outcome, ok, raise, exits, fault, ◌>>=◌}
use compute_web_app.Dataset.{
  Files, Dataset, new_dataset, points, set_id, set_data, retain_buffer, release_buffer, persist,
}

pub record WorkerOptions (I : Type 0) : Type 0 where
  pub sup_type : Text
  pub agg_type : Text
  pub sup_info : Text
  pub agg_info : Text
  pub algorithm : I

abbrev pub default_options : {I : Type 0} → I → WorkerOptions I
default_options zero_int = record {
  sup_type = codes "socket";
  agg_type = codes "socket";
  sup_info = [];
  agg_info = [];
  algorithm = zero_int;
}

-- if(strcmp(argv[i], flag) == 0) and if(i+1 < argc): `change` with argv[i+1].
abbrev pub on_flag : {O : Type 0} → Text → Text → List Text → (Text → O → O) → O → O
on_flag flag argument [] change o = o
on_flag flag argument (value ∷ rest) change o = if text_eq argument flag then change value o else o

module _ {I : Type 0} (atoi : Text → I) where
  -- The body of the loop over the arguments.
  unfoldable pub read_option : Text → List Text → WorkerOptions I → WorkerOptions I
  read_option argument rest o0 =
      let o1 =
        on_flag (codes "--cwa-sup-type") argument rest (λ value o. record o { sup_type = value })
          o0 in
      let o2 =
        on_flag (codes "--cwa-sup-info") argument rest (λ value o. record o { sup_info = value })
          o1 in
      let o3 =
        on_flag (codes "--cwa-agg-type") argument rest (λ value o. record o { agg_type = value })
          o2 in
      let o4 =
        on_flag (codes "--cwa-agg-info") argument rest (λ value o. record o { agg_info = value })
          o3 in
      on_flag (codes "--algorithm") argument rest (λ value o. record o { algorithm = atoi value })
        o4

  -- The loop, from argv[1] on.
  unfoldable pub read_options : List Text → WorkerOptions I → WorkerOptions I
  unfolding read_option
  read_options [] o = o
  read_options (argument ∷ rest) o = read_options rest (read_option argument rest o)

pub data ClientClass : Type 0 where
  file_client socket_client : ClientClass

-- Any other type ends the process.
unfoldable pub client_class : Text → Outcome ClientClass
client_class type =
    if text_eq type (codes "file")
    then ok file_client
    else (if text_eq type (codes "socket") then ok socket_client else exits)

-- The classes of the aggregator and the supplier, and the id of the output data, if there is one.
unfoldable pub choose_clients :
    {I : Type 0} → WorkerOptions I → Outcome (ClientClass × ClientClass × Option Text)
unfolding client_class
choose_clients o = do
  aggregator ← client_class o.sup_type
  supplier ← client_class o.agg_type
  ok (
    aggregator,
    supplier,
    if text_eq o.agg_type (codes "file") then some (codes "output") else none,
  )

pub record AggregatorClient (A : Type 0) : Type 0 where
  pub pull_dataset : ℕ → Option Dataset → A → Option (Outcome (Option Dataset × ℕ × A))
  pub handle_end_signal : A → A

pub record SupplierClient (S : Type 0) : Type 0 where
  pub push_dataset : Files → Dataset → ℕ → S → Outcome S
  pub push_end_signal : S → Outcome S

-- What the loop works on: `product` is the matrix and the buffer of the results.
pub record WorkerState (A S C : Type 0) : Type 0 where
  pub dataset_in : Option Dataset
  pub dataset_out : Dataset
  pub index : ℕ
  pub product : C
  pub output_id : Option Text
  pub files : Files
  pub input : A
  pub output : S

abbrev pub new_worker_state :
    {A S C : Type 0} → ℕ → C → Option Text → Files → A → S → WorkerState A S C
new_worker_state index product output_id files input output = record {
  dataset_in = none;
  dataset_out = new_dataset;
  index = index;
  product = product;
  output_id = output_id;
  files = files;
  input = input;
  output = output;
}

-- With files, the output data becomes the dataset's data and the buffer goes to the file.
unfoldable pub keep_result : Option Text → Files → Dataset → Outcome (Dataset × Files)
unfolding set_data persist release_buffer
keep_result none fs ds = ok (ds, fs)
keep_result (some data_id) fs ds =
    let owned = set_data ds (points data_id) in
    do fs' ← persist fs owned; ok (release_buffer owned, fs')

module _ {A S C : Type 0} (aggregator : AggregatorClient A) (supplier : SupplierClient S)
    (multiply : C → List ℕ → Outcome (List ℕ × C)) where
  -- The loop's body behind the test of the index; `dataset_in` is read through with no test.
  unfoldable pub work_on : WorkerState A S C → Option Dataset → Outcome (WorkerState A S C)
  unfolding set_id retain_buffer keep_result
  work_on st none = fault
  work_on st (some dataset_in) = do
    (buffer_out, product) ← multiply st.product dataset_in.buffer
    (dataset_out, files) ←
        keep_result st.output_id st.files
          (retain_buffer (set_id st.dataset_out dataset_in.id) buffer_out)
    output ← supplier.push_dataset files dataset_out st.index st.output
    ok (record st {
      dataset_in = some dataset_in;
      dataset_out = dataset_out;
      product = product;
      files = files;
      output = output;
    })

  finish_work : WorkerState A S C → Outcome (WorkerState A S C)
  finish_work st = do
    output ← supplier.push_end_signal st.output
    ok (record st { input = aggregator.handle_end_signal st.input; output = output })

  after_work :
      (WorkerState A S C → Option (Outcome (WorkerState A S C)))
      → Outcome (WorkerState A S C)
      → Option (Outcome (WorkerState A S C))
  after_work next (ok st) = next st
  after_work next (raise e) = some (raise e)
  after_work next exits = some exits
  after_work next fault = some fault

  after_dataset :
      (WorkerState A S C → Option (Outcome (WorkerState A S C)))
      → WorkerState A S C
      → Option (Outcome (Option Dataset × ℕ × A))
      → Option (Outcome (WorkerState A S C))
  unfolding finish_work after_work
  after_dataset next st none = none
  after_dataset next st (some (ok (dataset_in, index, input))) =
      let pulled : WorkerState A S C = record st {
        dataset_in = dataset_in;
        index = index;
        input = input;
      } in
      if index == u32_max
      then some (finish_work pulled)
      else after_work next (work_on pulled dataset_in)
  after_dataset next st (some (raise e)) = some (raise e)
  after_dataset next st (some exits) = some exits
  after_dataset next st (some fault) = some fault

  -- while(true), and PushEndSignal behind it. `none` means that a call waits for ever, or that the
  -- fuel, one unit a round, ran out.
  unfoldable pub work : ℕ → WorkerState A S C → Option (Outcome (WorkerState A S C))
  unfolding after_dataset
  work zero st = none
  work (suc fuel) st =
      after_dataset (λ st'. work fuel st') st
        (aggregator.pull_dataset st.index st.dataset_in st.input)
