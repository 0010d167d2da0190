-- ===== src/Benchmark/Shared/Ring.antt =====
-- The whole ring over exchange files: a supplier thread, workers and an aggregator thread.
use compute_web_app.Prelude.{ℕ, suc, ◌≡◌, List, [], ◌∷◌, some, false, is_empty}
use compute_web_app.Prelude.Text.{Text, text_eq}
use compute_web_app.Outcome.{Outcome}
use compute_web_app.Dataset.{Files}
use compute_web_app.Supply.Supplier
use compute_web_app.Aggregate
use compute_web_app.Benchmark.Shared.Names.{output_file}

-- The files with these names hold the bytes at the indices from i on; none is empty, or the file of a
-- result.
abbrev pub AreStored : Files → (ℕ → List ℕ) → ℕ → List Text → Type 0
AreStored fs bytes_at i [] = Unit {0}
AreStored fs bytes_at i (name ∷ names) =
    (fs.contents name ≡ some (bytes_at i))
    × (is_empty (bytes_at i) ≡ false)
    × ((j : ℕ) → text_eq name (output_file j) ≡ false)
    × AreStored fs bytes_at (suc i) names
