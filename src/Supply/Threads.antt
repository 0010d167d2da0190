-- ===== src/Supply/Threads.antt =====
-- data/data_supplier.cpp: several supplier threads on one DataSupplyState, interleaved at will. The
-- two calls of a round, GrabDataset under its lock and PushDataset, are the actions of a thread. A
-- schedule names the thread that acts next.
pub mod Actions
pub mod Once
pub mod Finish
use compute_web_app.Prelude.{
  sum_over, ℕ, zero, suc, ◌+◌, ◌*◌, ◌≤◌, ◌<◌, ◌≡◌, ◌≢◌, refl, ap, ◌⊎◌, inl, inr, List, [], ◌∷◌,
  Option, none, some, Bool, true, false, length, get_elem?, set, count, range_from, arith,
  count-range_from, count-range_from_above, if◌then◌else◌, ◌==◌, map,
}
use compute_web_app.Prelude.Words.{u32_mod}
use compute_web_app.Outcome.{Outcome, ok, raise, exits, fault, no_more_dataset}
use compute_web_app.Dataset.{Dataset, Data}
use compute_web_app.Supply.{DataSupplyState, grab_dataset, new_supply_state}
use compute_web_app.Supply.Queue.{
  IsValid, AllBelow, grab_dataset-Grabs, range_from-AllBelow, new_supply_state-queue,
}

-- How a call of PushDataset goes. No class of suppliers throws NoMoreDatasetException, which the loop
-- would catch; another exception ends the thread, and with it the process.
pub data PushResult : Type 0 where
  returns throws waits : PushResult

-- A thread between its two calls holds the dataset that it grabbed. What it pushed stands newest
-- first. A crashed thread has met an exception of GrabDataset that its loop does not catch, a failed one
-- an exception of PushDataset.
pub data Phase : Type 0 where
  grabbing : Phase
  holding : Dataset → ℕ → Phase
  finished crashed : Phase
  failed : Dataset → ℕ → Phase

pub record Thread : Type 0 where
  pub phase : Phase
  pub pushed : List (Dataset × ℕ)
  pub total_buffers : ℕ
  pub end_signals : ℕ

abbrev pub new_thread : Thread
new_thread = record { phase = grabbing; pushed = []; total_buffers = 0; end_signals = 0 }

after_grab : Thread → Outcome (Dataset × ℕ) → Thread
after_grab t (ok (ds, i)) = record t { phase = holding ds i }
after_grab t (raise no_more_dataset) = record t {
  phase = finished;
  end_signals = t.end_signals + 1;
}
after_grab t (raise e) = record t { phase = crashed }
after_grab t exits = record t { phase = crashed }
after_grab t fault = record t { phase = crashed }

pub record Suppliers : Type 0 where
  pub supply_state : DataSupplyState
  pub threads : List Thread

pub after_pushing : Dataset → ℕ → Thread → PushResult → Thread
after_pushing ds i t returns = record t {
  phase = grabbing;
  pushed = (ds, i) ∷ t.pushed;
  total_buffers = t.total_buffers + 1;
}
after_pushing ds i t throws = record t { phase = failed ds i }
after_pushing ds i t waits = t

module _ (pushes : Dataset → ℕ → PushResult) where
  act_in : Phase → Thread → DataSupplyState → Thread × DataSupplyState
  act_in grabbing t s = let (r, s') = grab_dataset s in (after_grab t r, s')
  act_in (holding ds i) t s = (after_pushing ds i t (pushes ds i), s)
  act_in finished t s = (t, s)
  act_in crashed t s = (t, s)
  act_in (failed ds i) t s = (t, s)

  -- One action of a thread.
  unfoldable pub act : Thread → DataSupplyState → Thread × DataSupplyState
  unfolding act_in after_grab after_pushing
  act t s = act_in t.phase t s

  pub act_at : Suppliers → ℕ → Option Thread → Suppliers
  unfolding act
  act_at p k none = p
  act_at p k (some t) =
      let (t', s') = act t p.supply_state in
      record { supply_state = s'; threads = set p.threads k t' }

  -- Thread k acts; a number that is no thread's does nothing.
  unfoldable pub step : Suppliers → ℕ → Suppliers
  unfolding act_at
  step p k = act_at p k (get_elem? p.threads k)

  unfoldable pub run_schedule : Suppliers → List ℕ → Suppliers
  run_schedule p [] = p
  run_schedule p (k ∷ ks) = run_schedule (step p k) ks

-- How often index i was pushed by a thread, or is held by it, or was when its push threw.
abbrev pub pushed_count : ℕ → List (Dataset × ℕ) → ℕ
pushed_count i [] = 0
pushed_count i ((ds, j) ∷ rest) = (if j == i then 1 else 0) + pushed_count i rest

abbrev pub held_count : ℕ → Phase → ℕ
held_count i (holding ds j) = if j == i then 1 else 0
held_count i grabbing = 0
held_count i finished = 0
held_count i crashed = 0
held_count i (failed ds j) = if j == i then 1 else 0

-- How often index i was pushed, over all threads; and that together with what is held.
abbrev pub pushed_total : ℕ → List Thread → ℕ
pushed_total i = sum_over (λ t. pushed_count i t.pushed)

abbrev pub claimed_total : ℕ → List Thread → ℕ
claimed_total i = sum_over (λ t. pushed_count i t.pushed + held_count i t.phase)

abbrev pub new_threads : ℕ → List Thread
new_threads zero = []
new_threads (suc k) = new_thread ∷ new_threads k

abbrev pub AllFinished : List Thread → Type 0
AllFinished [] = Unit {0}
AllFinished (t ∷ ts) = (t.phase ≡ finished) × AllFinished ts

-- The actions that a thread can still make before it ends, with `waiting` indices in the queue.
abbrev pub unfinished : Phase → ℕ
unfinished grabbing = 1
unfinished (holding ds i) = 2
unfinished finished = 0
unfinished crashed = 0
unfinished (failed ds i) = 0

abbrev pub work_left : Suppliers → ℕ
work_left p =
    2 * length p.supply_state.datasets_to_provide + sum_over (λ t. unfinished t.phase) p.threads
