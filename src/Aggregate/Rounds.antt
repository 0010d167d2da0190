-- ===== src/Aggregate/Rounds.antt =====
-- One round of the aggregator's loop without a callback, over any class of aggregators.
use compute_web_app.Prelude.{ℕ, suc, ◌+◌, ◌≡◌, ◌≢◌, refl, Option, none, some, ne→==}
use compute_web_app.Prelude.Words.{u32_max}
use compute_web_app.Outcome.{ok, raise, no_more_supplier}
use compute_web_app.Dataset.{Files, Dataset, Data, points, new_dataset, set_data, push_back}
use compute_web_app.Aggregate.{DatasetAggregator, after_pull, run}

module _ {W : Type 0} (aggregator : DatasetAggregator W) (fuel : ℕ) (w w' : W) (target : Data)
    (fs : Files) (total : ℕ) where
  -- A dataset is pulled.
  pub run-pulled :
      (ds : Dataset) (dataset_id : ℕ)
      → dataset_id ≢ u32_max
      → aggregator.pull_dataset (some (set_data new_dataset (points target.id))) 0 w
        ≡ some (ok (some ds, dataset_id), w')
      → run aggregator none (suc fuel) w target fs total
        ≡ run aggregator none fuel w'
            (push_back target (set_data ds (points target.id)))
            fs
            (total + 1)
  unfolding run
  run-pulled ds dataset_id other pulled =
      rw (pulled, after_pull, ne→== dataset_id u32_max other) refl

  module _ (w'' : W) (dataset : Option Dataset)
      (pulled : aggregator.pull_dataset (some (set_data new_dataset (points target.id))) 0 w
        ≡ some (ok (dataset, u32_max), w')) where
    -- An end signal is pulled, and others are to come.
    pub run-ended :
        aggregator.handle_end_signal w' ≡ (ok tt, w'')
        → run aggregator none (suc fuel) w target fs total
          ≡ run aggregator none fuel w'' target fs total
    unfolding run
    run-ended handled = rw (pulled, after_pull, handled) refl

    -- The last end signal is pulled.
    pub run-stopped :
        aggregator.handle_end_signal w' ≡ (raise no_more_supplier, w'')
        → run aggregator none (suc fuel) w target fs total
          ≡ some (record {
            outcome = ok tt;
            world = w'';
            target = target;
            files = fs;
            total_buffers = total;
          })
    unfolding run
    run-stopped handled = rw (pulled, after_pull, handled) refl
