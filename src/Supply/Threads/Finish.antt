-- ===== src/Supply/Threads/Finish.antt =====
-- All supplier threads end if none is left out for ever.
use compute_web_app.Prelude.{sum_over, ℕ, ◌≡◌, ◌≢◌, some, get_elem?}
use compute_web_app.Dataset.{Dataset, Data}
use compute_web_app.Supply.Threads.{
  finished, PushResult, returns, Thread, Suppliers, sum_over, work_left,
}
use compute_web_app.Supply.Threads.Once.{Inv}

module _ (pushes : Dataset → ℕ → PushResult) where
  module _ (source : Data) (all_return : (ds : Dataset) (i : ℕ) → pushes ds i ≡ returns) where
    -- The invariant with the work that is left.
    abbrev InvLeft : ℕ → Suppliers → Type 0
    InvLeft m p = Inv pushes source p × (work_left p ≡ m)

    abbrev Running : ℕ → Suppliers → Type 0
    Running k p = (t : Thread) × (get_elem? p.threads k ≡ some t) × (t.phase ≢ finished)
