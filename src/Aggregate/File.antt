-- ===== src/Aggregate/File.antt =====
-- data/data_aggregator.cpp over data/dataset_aggregator_server_file.cpp: the thread that pulls from an
-- exchange file. The files of the datasets are as they are when the thread starts.
pub mod Finishes
use mathlib.Core.Option.{map as map_option}
use compute_web_app.Prelude.{
  length, ◌+◌, ◌≤◌, ◌≡◌, ◌≢◌, ◌⊎◌, ℕ, List, [], ◌∷◌, ◌++◌, Option, none, some, Bool, true, false,
  ◌==◌, if◌then◌else◌,
}
use compute_web_app.Prelude.Words.{u32_max}
use compute_web_app.Prelude.Text.{Text, codes, to_text}
use compute_web_app.Outcome.{Outcome, ok, raise, exits, fault}
use compute_web_app.Dataset.{Files, Dataset, Data, points}
use compute_web_app.Aggregate.{DatasetAggregator, AggregateResult}
use compute_web_app.Exchange.Library.{Json}
use compute_web_app.Exchange.{Entry, ExchangeFile}
use compute_web_app.Exchange.Transfer.{pull_from_file, handle_end_as_server}

module _ {C : Type 0} where
  -- What stands in the file after an exception is not told; the loop ends there.
  abbrev pull_result :
      ExchangeFile C
      → Outcome (Option Dataset × ℕ × ExchangeFile C)
      → Outcome (Option Dataset × ℕ) × ExchangeFile C
  pull_result st (ok (dataset, dataset_id, st')) = (ok (dataset, dataset_id), st')
  pull_result st (raise e) = (raise e, st)
  pull_result st exits = (exits, st)
  pull_result st fault = (fault, st)

  abbrev end_result :
      ExchangeFile C
      → Outcome (Outcome (Unit {0}) × ExchangeFile C)
      → Outcome (Unit {0}) × ExchangeFile C
  end_result st (ok (r, st')) = (r, st')
  end_result st (raise e) = (raise e, st)
  end_result st exits = (exits, st)
  end_result st fault = (fault, st)

-- The class DatasetAggregatorServerFile.
abbrev pub file_aggregator : {J C : Type 0} → Json J C → Files → DatasetAggregator (ExchangeFile C)
file_aggregator json fs = record {
  pull_dataset = λ dataset _ st. map_option (pull_result st) (pull_from_file json fs dataset st);
  handle_end_signal = λ st. end_result st (handle_end_as_server json st);
}

-- The clients whose end signals stand in a queue, and the datasets that stand there.
abbrev pub end_signals : List Entry → List ℕ
end_signals [] = []
end_signals (e ∷ queue) =
    let rest = end_signals queue in if e.id == u32_max then e.client_id ∷ rest else rest

abbrev pub datasets : List Entry → List Entry
datasets [] = []
datasets (e ∷ queue) = let rest = datasets queue in if e.id == u32_max then rest else e ∷ rest

abbrev pub bytes_of : Option (List ℕ) → List ℕ
bytes_of none = []
bytes_of (some bytes) = bytes

-- The dataset of the data with this id that an entry is pulled into, and those of a queue.
abbrev pub pulled_from : Files → Text → Entry → Dataset
pulled_from fs data_id e = record {
  id = codes "dataset_" ++ to_text e.id;
  owner = points data_id;
  buffer = bytes_of (fs.contents e.filename);
}

abbrev pub pulled_datasets : Files → Text → List Entry → List Dataset
pulled_datasets fs data_id [] = []
pulled_datasets fs data_id (e ∷ queue) =
    let rest = pulled_datasets fs data_id queue in
    if e.id == u32_max then rest else pulled_from fs data_id e ∷ rest

-- An entry is the end signal of one of n clients, or a dataset whose file is there.
abbrev pub IsPullable : Files → ℕ → Entry → Type 0
IsPullable fs n e =
    ((e.id ≡ u32_max) × (1 ≤ e.client_id) × (e.client_id ≤ n))
    ⊎ ((e.id ≢ u32_max) × ((bytes : List ℕ) × (fs.contents e.filename ≡ some bytes)))

abbrev pub ArePullable : Files → ℕ → List Entry → Type 0
ArePullable fs n [] = Unit {0}
ArePullable fs n (e ∷ queue) = IsPullable fs n e × ArePullable fs n queue

-- The loop has ended over these entries, the last of which is an end signal.
abbrev pub ended_result :
    {C : Type 0} → ExchangeFile C → Data → Files → ℕ → List Entry → AggregateResult (ExchangeFile C)
ended_result st target fs total body = record {
  outcome = ok tt;
  world = st;
  target = record target { datasets = target.datasets ++ pulled_datasets fs target.id body };
  files = fs;
  total_buffers = total + length (datasets body);
}
