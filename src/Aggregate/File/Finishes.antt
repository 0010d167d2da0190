-- ===== src/Aggregate/File/Finishes.antt =====
-- The aggregator's thread over an exchange file ends with the last client.
use compute_web_app.Prelude.{ℕ, zero, suc, ◌<◌, ◌≡◌, List, none, some, false, count, range_from}
use compute_web_app.Dataset.{Files, Dataset, Data}
use compute_web_app.Aggregate.{DatasetAggregator, run}
use compute_web_app.Exchange.Library.{Json, IsJson}
use compute_web_app.Exchange.{Entry, ExchangeFile}
use compute_web_app.Exchange.Clients.{Serves}
use compute_web_app.Exchange.Clients.Ordered.{HasAll}
use compute_web_app.Aggregate.File.{file_aggregator, ended_result}

pub HasAll-mono :
    (n : ℕ) (xs ys : List ℕ)
    → ((i : ℕ) → 0 < count i xs → 0 < count i ys)
    → HasAll n xs
    → HasAll n ys
HasAll-mono zero xs ys f h = tt
HasAll-mono (suc n) xs ys f h = (f (suc n) h.0, HasAll-mono n xs ys f h.1)

module _ {J C : Type 0} (json : Json J C) (laws : IsJson json) where
  module _ (fs : Files) (n : ℕ) where
    abbrev agg : DatasetAggregator (ExchangeFile C)
    agg = file_aggregator json fs

    -- The loop ends over a queue.
    abbrev Ends : ℕ → ExchangeFile C → Data → ℕ → List Entry → List Entry → Type 0
    Ends fuel st target total body rest =
        (st' : ExchangeFile C) × (gone : List ℕ) × (run agg none fuel st target fs total
          ≡ some (ended_result st' target fs total body))
        × (st'.locked ≡ false)
        × Serves json laws st' rest (range_from 1 n) gone
