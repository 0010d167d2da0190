-- ===== src/Supply.antt =====
-- data/data_supply_state.cpp: the queue of dataset indices that the supplier threads share. The
-- suppliers themselves are in Supply/Supplier.antt, and their interleavings in Supply/Threads.antt.
pub mod Queue
pub mod Supplier
pub mod Threads
use compute_web_app.Prelude.{
  ℕ, zero, suc, ◌+◌, ◌%◌, List, [], ◌∷◌, ◌++◌, Option, none, some, ltb, length, get_elem?,
  if◌then◌else◌,
}
use compute_web_app.Prelude.Words.{u32_mod}
use compute_web_app.Outcome.{Outcome, ok, raise, fault, no_more_dataset}
use compute_web_app.Dataset.{Dataset, Data}

pub record DataSupplyState : Type 0 where
  pub source : Data
  pub datasets_to_provide : List ℕ

-- The constructor's loop, whose counter is a `uint32_t`; `none` means that the fuel ran out.
pub fill : ℕ → ℕ → ℕ → List ℕ → Option (List ℕ)
fill zero i size queue = none
fill (suc fuel) i size queue =
    let rest = fill fuel ((i + 1) % u32_mod) size (queue ++ i ∷ []) in
    if ltb i size then rest else some queue

with_queue : Data → Option (List ℕ) → Option DataSupplyState
with_queue source none = none
with_queue source (some queue) = some (record { source = source; datasets_to_provide = queue })

unfoldable pub new_supply_state : ℕ → Data → Option DataSupplyState
unfolding fill with_queue
new_supply_state fuel source = with_queue source (fill fuel 0 (length source.datasets) [])

-- `datasets[index]` has no test of its range.
at_index : Option Dataset → ℕ → Outcome (Dataset × ℕ)
at_index none index = fault
at_index (some dataset) index = ok (dataset, index)

grab_from : DataSupplyState → List ℕ → Outcome (Dataset × ℕ) × DataSupplyState
grab_from s [] = (raise no_more_dataset, s)
grab_from s (index ∷ rest) =
    (at_index (get_elem? s.source.datasets index) index, record s { datasets_to_provide = rest })

-- The lock makes the test, the read and the pop one action.
unfoldable pub grab_dataset : DataSupplyState → Outcome (Dataset × ℕ) × DataSupplyState
unfolding grab_from at_index
grab_dataset s = grab_from s s.datasets_to_provide
