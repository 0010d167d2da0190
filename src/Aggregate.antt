-- ===== src/Aggregate.antt =====
-- data/data_aggregator.cpp: the loop of an aggregator thread, over any class of dataset aggregators.
pub mod Server
mod Rounds
pub mod File
use compute_web_app.Prelude.{ℕ, zero, suc, ◌+◌, Option, none, some, ◌==◌, if◌then◌else◌}
use compute_web_app.Prelude.Words.{u32_max}
use compute_web_app.Outcome.{Exception, Outcome, ok, raise, exits, fault, no_more_supplier}
use compute_web_app.Dataset.{Files, Dataset, Data, points, new_dataset, set_data, push_back}

-- The virtual methods of DatasetAggregator that the loop calls, over the state `W` that they change.
-- PullDataset gets the caller's two variables, and returns what stands in them; a pull that waits
-- for ever gives `none`.
pub record DatasetAggregator (W : Type 0) : Type 0 where
  pub pull_dataset : Option Dataset → ℕ → W → Option (Outcome (Option Dataset × ℕ) × W)
  pub handle_end_signal : W → Outcome (Unit {0}) × W

-- What the callback does to the dataset and to the files.
abbrev pub Callback : Type 0
Callback = Dataset → Files → Dataset × Files

abbrev pub call_back : Option Callback → Dataset → Files → Dataset × Files
call_back none ds fs = (ds, fs)
call_back (some on_dataset_pulled) ds fs = on_dataset_pulled ds fs

pub record AggregateResult (W : Type 0) : Type 0 where
  pub outcome : Outcome (Unit {0})
  pub world : W
  pub target : Data
  pub files : Files
  pub total_buffers : ℕ

module _ {W : Type 0} (aggregator : DatasetAggregator W) (on_dataset_pulled : Option Callback) where
  abbrev stop : Outcome (Unit {0}) → W → Data → Files → ℕ → Option (AggregateResult W)
  stop r w target fs total =
      some (record { outcome = r; world = w; target = target; files = fs; total_buffers = total })

  abbrev Next : Type 0
  Next = W → Data → Files → ℕ → Option (AggregateResult W)

  -- After HandleEndSignal: the next round, or the end of the loop on NoMoreSupplierException.
  after_end : Next → Data → Files → ℕ → Outcome (Unit {0}) × W → Option (AggregateResult W)
  after_end next target fs total (ok _, w) = next w target fs total
  after_end next target fs total (raise no_more_supplier, w) = stop (ok tt) w target fs total
  after_end next target fs total (raise e, w) = stop (raise e) w target fs total
  after_end next target fs total (exits, w) = stop exits w target fs total
  after_end next target fs total (fault, w) = stop fault w target fs total

  -- AddDataset makes the target the owner, and keeps the pointer; the callback acts on the same
  -- dataset after that.
  absorb : Next → W → Data → Files → ℕ → Option Dataset → Option (AggregateResult W)
  absorb next w target fs total none = stop fault w target fs total
  absorb next w target fs total (some ds) =
      let (ds', fs') = call_back on_dataset_pulled (set_data ds (points target.id)) fs in
      next w (push_back target ds') fs' (total + 1)

  after_pull :
      Next
      → Data
      → Files
      → ℕ
      → Option (Outcome (Option Dataset × ℕ) × W)
      → Option (AggregateResult W)
  unfolding after_end absorb
  after_pull next target fs total none = none
  after_pull next target fs total (some (ok (ds, dataset_id), w)) =
      if dataset_id == u32_max
      then after_end next target fs total (aggregator.handle_end_signal w)
      else absorb next w target fs total ds
  after_pull next target fs total (some (raise e, w)) = stop (raise e) w target fs total
  after_pull next target fs total (some (exits, w)) = stop exits w target fs total
  after_pull next target fs total (some (fault, w)) = stop fault w target fs total

  -- `none` means that the fuel ran out, or that a pull waits for ever.
  unfoldable pub run : ℕ → W → Data → Files → ℕ → Option (AggregateResult W)
  unfolding after_pull
  run zero w target fs total = none
  run (suc fuel) w target fs total =
      after_pull (λ w' target' fs' total'. run fuel w' target' fs' total') target fs total
        (aggregator.pull_dataset (some (set_data new_dataset (points target.id))) 0 w)
