-- ===== src/Benchmark/Shared.antt =====
-- Worker processes of process/benchmark/benchmark_worker.cpp that share two exchange files: they pull
-- from the file of a supplier server and push to that of an aggregator server. Their steps are
-- interleaved at will; what happens under one lock of a file is one step. A step is a call of
-- PullDataset, with HandleEndSignal behind it where it is the end signal, as the lock is kept until
-- then; the rest of a round, up to PushDataset; or PushEndSignal.
pub mod Names
pub mod Invariant
mod Written
mod Steps
pub mod All
pub mod Start
pub mod Results
pub mod Finish
pub mod Ring
use compute_web_app.Prelude.{
  ℕ, List, [], ◌∷◌, ◌++◌, Option, none, some, ◌==◌, if◌then◌else◌, get_elem?, set,
}
use compute_web_app.Prelude.Words.{u32_max}
use compute_web_app.Prelude.Text.{Text, codes}
use compute_web_app.Outcome.{Outcome, ok, raise, exits, fault}
use compute_web_app.Dataset.{Files, Dataset, new_dataset}
use compute_web_app.Exchange.Library.{Json}
use compute_web_app.Exchange.{ExchangeFile}
use compute_web_app.Exchange.Transfer.{
  push_as_client, push_end_as_client, pull_from_file, handle_end_as_client,
}
use compute_web_app.Benchmark.{AggregatorClient, SupplierClient, WorkerState, work_on}

-- The classes DatasetAggregatorClientFile and DatasetSupplierClientFile; the latter has the id that
-- Connect gave it.
abbrev pub file_aggregator : {J C : Type 0} → Json J C → Files → AggregatorClient (ExchangeFile C)
file_aggregator json fs = record {
  pull_dataset = λ index dataset st. pull_from_file json fs dataset st;
  handle_end_signal = λ st. handle_end_as_client st;
}

abbrev pub file_supplier : {J C : Type 0} → Json J C → ℕ → SupplierClient (ExchangeFile C)
file_supplier json client_id = record {
  push_dataset = λ fs dataset index st. push_as_client json dataset index st;
  push_end_signal = λ st. push_end_as_client json client_id st;
}

-- Where a worker stands in its loop: before PullDataset, behind it, behind the loop, or at its end. A
-- crashed worker has met an exception.
pub data Phase : Type 0 where
  pulling working ending finished crashed : Phase

-- The variables of a worker. `P` is the state of the product of matrices.
pub record Worker (P : Type 0) : Type 0 where
  pub phase : Phase
  pub client_id : ℕ
  pub dataset_in : Option Dataset
  pub dataset_out : Dataset
  pub index : ℕ
  pub product : P

pub record Shared (C : Type 0) : Type 0 where
  pub input : ExchangeFile C
  pub output : ExchangeFile C
  pub files : Files

pub record Workers (C P : Type 0) : Type 0 where
  pub shared : Shared C
  pub workers : List (Worker P)

abbrev pub new_worker : {P : Type 0} → ℕ → ℕ → P → Worker P
new_worker client_id index product = record {
  phase = pulling;
  client_id = client_id;
  dataset_in = none;
  dataset_out = new_dataset;
  index = index;
  product = product;
}

module _ {C P : Type 0} where
  -- The worker and what it shares, as the state of its loop. Its output data is `output`.
  abbrev pub state_of : Worker P → Shared C → WorkerState (ExchangeFile C) (ExchangeFile C) P
  state_of w s = record {
    dataset_in = w.dataset_in;
    dataset_out = w.dataset_out;
    index = w.index;
    product = w.product;
    output_id = some (codes "output");
    files = s.files;
    input = s.input;
    output = s.output;
  }

  abbrev pub crash : Worker P → Shared C → Worker P × Shared C
  crash w s = (record w { phase = crashed }, s)

  -- While PullDataset waits nothing changes.
  after_pull :
      Worker P
      → Shared C
      → Option (Outcome (Option Dataset × ℕ × ExchangeFile C))
      → Worker P × Shared C
  after_pull w s none = (w, s)
  after_pull w s (some (ok (dataset_in, index, input))) =
      if index == u32_max
      then (
        record w { phase = ending; dataset_in = dataset_in; index = index },
        record s { input = handle_end_as_client input },
      )
      else (
        record w { phase = working; dataset_in = dataset_in; index = index },
        record s { input = input },
      )
  after_pull w s (some (raise e)) = crash w s
  after_pull w s (some exits) = crash w s
  after_pull w s (some fault) = crash w s

  after_work :
      Worker P
      → Shared C
      → Outcome (WorkerState (ExchangeFile C) (ExchangeFile C) P)
      → Worker P × Shared C
  after_work w s (ok st) = (
    record w {
      phase = pulling;
      dataset_in = st.dataset_in;
      dataset_out = st.dataset_out;
      product = st.product;
    },
    record { input = st.input; output = st.output; files = st.files },
  )
  after_work w s (raise e) = crash w s
  after_work w s exits = crash w s
  after_work w s fault = crash w s

  after_end : Worker P → Shared C → Outcome (ExchangeFile C) → Worker P × Shared C
  after_end w s (ok output) = (record w { phase = finished }, record s { output = output })
  after_end w s (raise e) = crash w s
  after_end w s exits = crash w s
  after_end w s fault = crash w s

module _ {J C P : Type 0} (json : Json J C) (multiply : P → List ℕ → Outcome (List ℕ × P)) where
  act_in : Phase → Worker P → Shared C → Worker P × Shared C
  act_in pulling w s =
      after_pull w s ((file_aggregator json s.files).pull_dataset w.index w.dataset_in s.input)
  act_in working w s = after_work w s (
      work_on (file_aggregator json s.files) (file_supplier json w.client_id) multiply
        (state_of w s) w.dataset_in)
  act_in ending w s = after_end w s ((file_supplier json w.client_id).push_end_signal s.output)
  act_in finished w s = (w, s)
  act_in crashed w s = (w, s)

  -- One step of a worker.
  pub act : Worker P → Shared C → Worker P × Shared C
  unfolding act_in
  act w s = act_in w.phase w s

  act_at : Workers C P → ℕ → Option (Worker P) → Workers C P
  act_at r k none = r
  act_at r k (some w) =
      let (w', s') = act w r.shared in record { shared = s'; workers = set r.workers k w' }

  -- The worker at position k acts; a number that is no worker's does nothing.
  pub step : Workers C P → ℕ → Workers C P
  unfolding act_at
  step r k = act_at r k (get_elem? r.workers k)
