-- ===== src/Benchmark/Shared/Results.antt =====
-- The results that an aggregator pulls from what workers have pushed to its exchange file.
use compute_web_app.Prelude.{
  ℕ, suc, ◌≡◌, refl, ap, inl, inr, List, [], ◌∷◌, ◌++◌, length, map, ne→==,
}
use compute_web_app.Prelude.Words.{u32_max}
use compute_web_app.Dataset.{Files, Dataset, points}
use compute_web_app.Aggregate.File.{datasets, pulled_datasets, ArePullable}
use compute_web_app.Exchange.{Entry}
use compute_web_app.Benchmark.Shared.Names.{dataset_name}
use compute_web_app.Benchmark.Shared.Invariant.{entry_ids, AreOutputs}

-- The dataset of the aggregator's data for a result with its index.
abbrev pub result_dataset : List ℕ → ℕ × List ℕ → Dataset
result_dataset data_id (i, r) = record { id = dataset_name i; owner = points data_id; buffer = r }

abbrev pub result_ids : List (ℕ × List ℕ) → List ℕ
result_ids [] = []
result_ids ((i, r) ∷ results) = i ∷ result_ids results

abbrev pub AreResults : (ℕ → List ℕ → Type 0) → List (ℕ × List ℕ) → Type 0
AreResults IsResult [] = Unit {0}
AreResults IsResult ((i, r) ∷ results) = IsResult i r × AreResults IsResult results

module _ {P : Type 0} (n : ℕ) (ids : List ℕ) (bytes_at : ℕ → List ℕ) (IsReady : P → Type 0)
    (IsResult : ℕ → List ℕ → Type 0) (fs : Files) where
  pub AreOutputs-front :
      (body : List Entry) (e : Entry)
      → AreOutputs n ids bytes_at IsReady IsResult fs (body ++ e ∷ [])
      → AreOutputs n ids bytes_at IsReady IsResult fs body
  AreOutputs-front [] e h = tt
  AreOutputs-front (d ∷ body) e h = (h.0, AreOutputs-front body e h.1)

  pub AreOutputs-ArePullable :
      (body : List Entry)
      → AreOutputs n ids bytes_at IsReady IsResult fs body
      → ArePullable fs n body
  AreOutputs-ArePullable [] h = tt
  AreOutputs-ArePullable (e ∷ body) (inl end, h) = (inl end, AreOutputs-ArePullable body h)
  AreOutputs-ArePullable (e ∷ body) (inr (other, known, named, (r, stands, right)), h) =
      (inr (other, (r, stands)), AreOutputs-ArePullable body h)

  -- What the aggregator pulls are results.
  pub record Collected (data_id : List ℕ) (body : List Entry) : Type 0 where
    pub results : List (ℕ × List ℕ)
    pub right : AreResults IsResult results
    pub pulled : pulled_datasets fs data_id body ≡ map (result_dataset data_id) results
    pub same_ids : result_ids results ≡ entry_ids body
    pub counted : length (datasets body) ≡ length results

  pub collect :
      (data_id : List ℕ) (body : List Entry)
      → AreOutputs n ids bytes_at IsReady IsResult fs body
      → Collected data_id body
  collect data_id [] h = record {
    results = [];
    right = tt;
    pulled = refl;
    same_ids = refl;
    counted = refl;
  }
  collect data_id (e ∷ body) (inl (end, _, _), h) =
      let rest = collect data_id body h in
      record {
        results = rest.results;
        right = rest.right;
        pulled = rw end rest.pulled;
        same_ids = rw end rest.same_ids;
        counted = rw end rest.counted;
      }
  collect data_id (e ∷ body) (inr (other, known, named, (r, stands, right)), h) =
      let rest = collect data_id body h in
      let plain = ne→== e.id u32_max other in
      record {
        results = (e.id, r) ∷ rest.results;
        right = (right, rest.right);
        pulled = rw (plain, stands) (ap (◌∷◌ (result_dataset data_id (e.id, r))) rest.pulled);
        same_ids = rw plain (ap (◌∷◌ e.id) rest.same_ids);
        counted = rw plain (ap suc rest.counted);
      }
