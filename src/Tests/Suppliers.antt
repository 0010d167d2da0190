-- ===== src/Tests/Suppliers.antt =====
-- The theorems on the supplier threads at concrete inputs.
use compute_web_app.Prelude.{
  if◌then◌else◌, ◌==◌, ℕ, zero, suc, ◌≡◌, ◌≤◌, refl, ap, List, [], ◌∷◌, none, some, length, arith,
  range_from,
}
use compute_web_app.Prelude.Words.{u32_mod}
use compute_web_app.Outcome.{ok}
use compute_web_app.Dataset.{Dataset}
use compute_web_app.Supply.{DataSupplyState, new_supply_state, grab_dataset}
use compute_web_app.Supply.Queue.{new_supply_state-queue, new_supply_state_diverges}
use compute_web_app.Supply.Supplier.{DatasetSupplier, run, finish, run-Pushes}
use compute_web_app.Supply.Threads.{PushResult, returns, throws, run_schedule, pushed_total, step}
use compute_web_app.Supply.Threads.Once.{start, AllSound, pushed_at_most_once, pushed_exactly_once}
use compute_web_app.Tests.Fixtures.{two_datasets, first_dataset}

abbrev two_queued : DataSupplyState
two_queued = record { source = two_datasets; datasets_to_provide = 0 ∷ 1 ∷ [] }

made : new_supply_state 3 two_datasets ≡ some two_queued
unfolding new_supply_state
made = refl

new_supply_state-queue_example :
    new_supply_state 3 two_datasets
    ≡ some (record { source = two_datasets; datasets_to_provide = range_from 0 2 })
new_supply_state-queue_example = new_supply_state-queue 3 two_datasets (omega arith) (omega arith)

unfoldable copies : ℕ → List Dataset
copies zero = []
copies (suc n) = first_dataset ∷ copies n

length-copies : (n : ℕ) → length (copies n) ≡ n
unfolding copies
length-copies zero = refl
length-copies (suc n) = ap suc (length-copies n)

new_supply_state_diverges_example :
    new_supply_state 1000 (record { id = []; datasets = copies u32_mod }) ≡ none
new_supply_state_diverges_example =
    new_supply_state_diverges 1000 (record { id = []; datasets = copies u32_mod })
      (omega (arith, length-copies u32_mod))

-- A supplier that writes down what is pushed, and counts the end signals.
abbrev log_supplier : DatasetSupplier (List ℕ × ℕ)
log_supplier = record {
  push_dataset = λ ds i w. some (ok tt, (i ∷ w.0, w.1));
  push_end_signal = λ w. (ok tt, (w.0, suc w.1));
}

run-Pushes_example :
    run log_supplier 3 ([], 0) two_queued 0
    ≡ some (
        finish log_supplier
          (1 ∷ 0 ∷ [], 0)
          (record { source = two_datasets; datasets_to_provide = [] })
          2)
run-Pushes_example =
    run-Pushes log_supplier two_datasets two_queued 3 ([], 0) (1 ∷ 0 ∷ [], 0)
      ((0 ∷ [], 0), refl, ((1 ∷ 0 ∷ [], 0), refl, refl)) (omega arith) (omega arith) made

-- Every push returns; and the second dataset's throws.
abbrev all_return : Dataset → ℕ → PushResult
all_return ds i = returns

abbrev second_throws : Dataset → ℕ → PushResult
second_throws ds i = if i == 0 then returns else throws

abbrev some_steps : List ℕ
some_steps = 0 ∷ 1 ∷ 0 ∷ []

abbrev all_steps : List ℕ
all_steps = 0 ∷ 1 ∷ 1 ∷ 0 ∷ 0 ∷ 1 ∷ []

pushed_at_most_once_example :
    (pushed_total 0 (run_schedule second_throws (start two_queued 2) some_steps).threads ≤ 1)
    × AllSound two_datasets (run_schedule second_throws (start two_queued 2) some_steps).threads
pushed_at_most_once_example =
    pushed_at_most_once second_throws two_datasets two_queued 3 2 some_steps (omega arith)
      (omega arith) made 0

pushed_exactly_once_example :
    ((run_schedule all_return (start two_queued 2) all_steps).supply_state.datasets_to_provide ≡ [])
    × (pushed_total 1 (run_schedule all_return (start two_queued 2) all_steps).threads ≡ 1)
unfolding run_schedule step grab_dataset
pushed_exactly_once_example =
    pushed_exactly_once all_return two_datasets two_queued 3 2 all_steps (omega arith) (omega arith)
      made 1 (omega arith) (refl, (refl, tt)) (omega arith)

-- Two threads, of which the second always acts first.
abbrev six_rounds : List (List ℕ)
six_rounds =
    (1 ∷ 0 ∷ []) ∷ (1 ∷ 0 ∷ []) ∷ (1 ∷ 0 ∷ []) ∷ (1 ∷ 0 ∷ []) ∷ (1 ∷ 0 ∷ []) ∷ (1 ∷ 0 ∷ []) ∷ []
