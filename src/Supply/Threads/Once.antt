-- ===== src/Supply/Threads/Once.antt =====
-- Every dataset is pushed exactly once, however the supplier threads are scheduled.
use native.Mathlib.Decide.{dec_lt}
use compute_web_app.Prelude.{
  sum_over-set, ℕ, zero, suc, ◌+◌, ◌≤◌, ◌<◌, ◌≡◌, ◌≢◌, refl, ◌∙◌, inl, inr, List, [], ◌∷◌, some,
  length, get_elem?, count, range_from, arith, count-range_from, count-range_from_above,
  Option-cases,
}
use compute_web_app.Prelude.Words.{u32_mod}
use compute_web_app.Dataset.{Dataset, Data}
use compute_web_app.Supply.{DataSupplyState, new_supply_state}
use compute_web_app.Supply.Queue.{IsValid, range_from-AllBelow, new_supply_state-queue}
use compute_web_app.Supply.Threads.{
  PushResult, returns, finished, Thread, act, Suppliers, step, act_at, run_schedule, pushed_count,
  held_count, pushed_total, unfinished, claimed_total, work_left, AllFinished, new_threads,
}
use compute_web_app.Supply.Threads.Actions.{
  Acts, AllThreads, act-Acts, IsSound, IsThread-IsSound, IsThread-empty, AllThreads-other,
  AllThreads-get, AllThreads-set,
}

abbrev weigh : ℕ → Thread → ℕ
weigh i t = pushed_count i t.pushed + held_count i t.phase

-- The suppliers at the start: the threads share what the constructor made for the data.
abbrev pub start : DataSupplyState → ℕ → Suppliers
start s n = record { supply_state = s; threads = new_threads n }

abbrev pub AllSound : Data → List Thread → Type 0
AllSound source [] = Unit {0}
AllSound source (t ∷ ts) = IsSound source t × AllSound source ts

module _ (pushes : Dataset → ℕ → PushResult) where
  -- The invariant of any schedule, for data of n datasets.
  pub record Inv (source : Data) (p : Suppliers) : Type 0 where
    pub same_source : p.supply_state.source ≡ source
    pub valid : IsValid p.supply_state
    pub threads :
        AllThreads pushes p.supply_state.source p.supply_state.datasets_to_provide p.threads
    pub claimed :
        (i : ℕ)
        → claimed_total i p.threads + count i p.supply_state.datasets_to_provide
          ≡ count i (range_from 0 (length source.datasets))

  module _ (source : Data) (p : Suppliers) (k : ℕ) (t : Thread)
      (at : get_elem? p.threads k ≡ some t) (inv : Inv source p) where
    acts : let (t', s') = act pushes t p.supply_state in Acts pushes p.supply_state t t' s'
    acts =
        act-Acts pushes p.supply_state t inv.valid
          (AllThreads-get pushes p.supply_state.source _ p.threads k t at inv.threads)

    act_at-Inv : Inv source (act_at pushes p k (some t))
    unfolding step
    act_at-Inv =
        let (t', s') = act pushes t p.supply_state in
        record {
          same_source = acts.source ∙ inv.same_source;
          valid = acts.valid;
          threads = rw acts.source (
              AllThreads-set pushes p.supply_state.source s'.datasets_to_provide p.threads k t'
                acts.thread
                (AllThreads-other pushes p.supply_state.source _ s'.datasets_to_provide p.threads
                  acts.empty inv.threads));
          claimed = λ i.
              omega (
                arith,
                sum_over-set (weigh i) p.threads k t t' at,
                acts.conserved i,
                inv.claimed i,
              );
        }

    pub act_at-work_left :
        ((ds : Dataset) (i : ℕ) → pushes ds i ≡ returns)
        → t.phase ≢ finished
        → work_left (act_at pushes p k (some t)) < work_left p
    unfolding step
    act_at-work_left all_return ne =
        let (t', s') = act pushes t p.supply_state in
        omega (
          arith,
          sum_over-set (λ t. unfinished t.phase) p.threads k t t' at,
          acts.progress all_return ne,
        )

  pub step-Inv :
      (source : Data) (p : Suppliers) (k : ℕ) → Inv source p → Inv source (step pushes p k)
  unfolding step
  step-Inv source p k inv = elim (Option-cases (get_elem? p.threads k)) [
    | inl missing ↦ rw (missing, act_at) inv
    | inr (t, at) ↦ rw (at, act_at) (act_at-Inv source p k t at inv)
  ]

  pub run_schedule-Inv :
      (source : Data) (p : Suppliers) (schedule : List ℕ)
      → Inv source p
      → Inv source (run_schedule pushes p schedule)
  unfolding run_schedule
  run_schedule-Inv source p [] inv = inv
  run_schedule-Inv source p (k ∷ ks) inv =
      run_schedule-Inv source (step pushes p k) ks (step-Inv source p k inv)

  new_threads-AllThreads :
      (source : Data) (queue : List ℕ) (n : ℕ) → AllThreads pushes source queue (new_threads n)
  new_threads-AllThreads source queue zero = tt
  new_threads-AllThreads source queue (suc n) = (
    record { stand = tt; counted = refl; in_phase = refl },
    new_threads-AllThreads source queue n,
  )

  new_threads-claimed : (i n : ℕ) → claimed_total i (new_threads n) ≡ 0
  new_threads-claimed i zero = refl
  new_threads-claimed i (suc n) = omega (arith, new_threads-claimed i n)

  AllThreads-AllSound :
      (source : Data) (queue : List ℕ) (ts : List Thread)
      → AllThreads pushes source queue ts
      → AllSound source ts
  AllThreads-AllSound source queue [] h = tt
  AllThreads-AllSound source queue (t ∷ ts) h =
      (IsThread-IsSound pushes source queue t h.0, AllThreads-AllSound source queue ts h.1)

  pushed_total-le : (i : ℕ) (ts : List Thread) → pushed_total i ts ≤ claimed_total i ts
  pushed_total-le i [] = omega arith
  pushed_total-le i (t ∷ ts) = omega (arith, pushed_total-le i ts)

  finished-claimed :
      (i : ℕ) (ts : List Thread) → AllFinished ts → claimed_total i ts ≡ pushed_total i ts
  finished-claimed i [] h = refl
  finished-claimed i (t ∷ ts) h = rw h.0 (omega (arith, finished-claimed i ts h.1))

  pub finished-empty :
      (source : Data) (queue : List ℕ) (ts : List Thread)
      → 0 < length ts
      → AllFinished ts
      → AllThreads pushes source queue ts
      → queue ≡ []
  finished-empty source queue [] some_thread h inv = absurd (omega arith)
  finished-empty source queue (t ∷ ts) some_thread h inv =
      IsThread-empty pushes source queue t h.0 inv.0

  module _ (source : Data) (s : DataSupplyState) (fuel n : ℕ) (schedule : List ℕ)
      (small : length source.datasets < u32_mod) (enough : length source.datasets < fuel)
      (made : new_supply_state fuel source ≡ some s) where
    pub start-Inv : Inv source (start s n)
    start-Inv =
        let e : s ≡ record {
          source = source;
          datasets_to_provide = range_from 0 (length source.datasets);
        } =
          cc (new_supply_state-queue fuel source small enough) in
        rw e (record {
          same_source = refl;
          valid =
              range_from-AllBelow (length source.datasets) 0 (length source.datasets) (omega arith);
          threads = new_threads-AllThreads source _ n;
          claimed = λ i. omega (arith, new_threads-claimed i n);
        })

    after : Inv source (run_schedule pushes (start s n) schedule)
    after = run_schedule-Inv source (start s n) schedule start-Inv

    count_le_one : (i : ℕ) → count i (range_from 0 (length source.datasets)) ≤ 1
    count_le_one i = elim (dec_lt i (length source.datasets)) [
      | yes h ↦
          omega (arith, count-range_from i 0 (length source.datasets) (omega arith) (omega arith))
      | no h ↦ omega (arith, count-range_from_above i 0 (length source.datasets) (omega arith))
    ]

    -- For data of fewer than 2^32 datasets, at any time, under any schedule of any number of supplier
    -- threads: no index was pushed twice, also not by two threads; what a thread pushed are the
    -- datasets that stand at these indices, its count of them is right, it has sent one end signal if
    -- it ended and none before, and GrabDataset has met no access out of range and thrown nothing that
    -- the loop does not catch. PushDataset may return, throw or wait for ever.
    pub pushed_at_most_once :
        (i : ℕ)
        → (pushed_total i (run_schedule pushes (start s n) schedule).threads ≤ 1)
          × AllSound source (run_schedule pushes (start s n) schedule).threads
    pushed_at_most_once i =
        let p = run_schedule pushes (start s n) schedule in
        (
          omega (arith, pushed_total-le i p.threads, after.claimed i, count_le_one i),
          rw after.same_source at (
              AllThreads-AllSound p.supply_state.source p.supply_state.datasets_to_provide p.threads
                after.threads),
        )

    -- For data of fewer than 2^32 datasets and any schedule, where PushDataset may return, throw or wait for
    -- ever: once every thread of at least one has ended at the end of its loop, the queue is empty and every dataset was pushed exactly once, counted over all threads.
    pub pushed_exactly_once :
        (i : ℕ)
        → 0 < length (run_schedule pushes (start s n) schedule).threads
        → AllFinished (run_schedule pushes (start s n) schedule).threads
        → i < length source.datasets
        → ((run_schedule pushes (start s n) schedule).supply_state.datasets_to_provide ≡ [])
          × (pushed_total i (run_schedule pushes (start s n) schedule).threads ≡ 1)
    pushed_exactly_once i some_thread done h =
        let p = run_schedule pushes (start s n) schedule in
        let none_left : p.supply_state.datasets_to_provide ≡ [] =
          finished-empty p.supply_state.source _ p.threads some_thread done after.threads in
        let left : count i p.supply_state.datasets_to_provide ≡ 0 = rw none_left refl in
        (
          none_left,
          omega (
            arith,
            after.claimed i,
            finished-claimed i p.threads done,
            count-range_from i 0 (length source.datasets) (omega arith) (omega arith),
          ),
        )
