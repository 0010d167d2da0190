-- ===== src/Supply/Supplier.antt =====
-- data/data_supplier.cpp: the loop of a supplier thread, over any class of dataset suppliers.
use compute_web_app.Prelude.{
  ℕ, zero, suc, ◌+◌, ◌<◌, ◌≡◌, refl, ap, ◌∙◌, List, [], ◌∷◌, Option, none, some, length, get_elem?,
  range_from, arith,
}
use compute_web_app.Prelude.Words.{u32_mod}
use compute_web_app.Outcome.{Exception, Outcome, ok, raise, exits, fault, no_more_dataset}
use compute_web_app.Dataset.{Dataset, Data}
use compute_web_app.Supply.{DataSupplyState, grab_dataset, new_supply_state}
use compute_web_app.Supply.Queue.{new_supply_state-queue}

-- The virtual methods of DatasetSupplier that the loop calls, over the state `W` that they change.
-- What a call changed before it threw stays changed. A push that waits for ever gives `none`.
pub record DatasetSupplier (W : Type 0) : Type 0 where
  pub push_dataset : Dataset → ℕ → W → Option (Outcome (Unit {0}) × W)
  pub push_end_signal : W → Outcome (Unit {0}) × W

pub record RunResult (W : Type 0) : Type 0 where
  pub outcome : Outcome (Unit {0})
  pub world : W
  pub supply_state : DataSupplyState
  pub total_buffers : ℕ

module _ {W : Type 0} (supplier : DatasetSupplier W) where
  with_state :
      DataSupplyState
      → Option (Outcome (Unit {0}) × W)
      → Option (Outcome (Unit {0}) × W × DataSupplyState)
  with_state s none = none
  with_state s (some (r, w)) = some (r, w, s)

  push_grabbed :
      W
      → Outcome (Dataset × ℕ)
      → DataSupplyState
      → Option (Outcome (Unit {0}) × W × DataSupplyState)
  unfolding with_state
  push_grabbed w (ok (dataset, index)) s = with_state s (supplier.push_dataset dataset index w)
  push_grabbed w (raise e) s = some (raise e, w, s)
  push_grabbed w exits s = some (exits, w, s)
  push_grabbed w fault s = some (fault, w, s)

  -- The body of the `try` block.
  unfoldable pub round : W → DataSupplyState → Option (Outcome (Unit {0}) × W × DataSupplyState)
  unfolding push_grabbed
  round w s = let (r, s') = grab_dataset s in push_grabbed w r s'

  -- After the loop: the end signal.
  unfoldable pub finish : W → DataSupplyState → ℕ → RunResult W
  finish w s total =
      let (r, w') = supplier.push_end_signal w in
      record { outcome = r; world = w'; supply_state = s; total_buffers = total }

  -- NoMoreDatasetException ends the loop, whichever call threw it; any other exception leaves the
  -- thread's function at once.
  catch : Exception → W → DataSupplyState → ℕ → RunResult W
  unfolding finish
  catch no_more_dataset w s total = finish w s total
  catch e w s total = record {
    outcome = raise e;
    world = w;
    supply_state = s;
    total_buffers = total;
  }

  -- What follows the `try` block: the count and the next round, or the end of the loop.
  after_round :
      ℕ
      → (W → DataSupplyState → Option (RunResult W))
      → Option (Outcome (Unit {0}) × W × DataSupplyState)
      → Option (RunResult W)
  unfolding catch
  after_round total next none = none
  after_round total next (some (ok _, w, s)) = next w s
  after_round total next (some (raise e, w, s)) = some (catch e w s total)
  after_round total next (some (exits, w, s)) =
      some (record { outcome = exits; world = w; supply_state = s; total_buffers = total })
  after_round total next (some (fault, w, s)) =
      some (record { outcome = fault; world = w; supply_state = s; total_buffers = total })

  -- `none` means that the fuel ran out, or that a push waits for ever.
  unfoldable pub run : ℕ → W → DataSupplyState → ℕ → Option (RunResult W)
  unfolding after_round
  run zero w s total = none
  run (suc fuel) w s total = after_round total (λ w' s'. run fuel w' s' (total + 1)) (round w s)

  -- The reference: the datasets are pushed in order, with their indices upwards from `i`, and each
  -- push succeeds; this leads from the state w to w'.
  abbrev pub Pushes : ℕ → List Dataset → W → W → Type 0
  Pushes i [] w w' = w ≡ w'
  Pushes i (ds ∷ rest) w w' =
      (v : W) × (supplier.push_dataset ds i w ≡ some (ok tt, v)) × Pushes (suc i) rest v w'

-- The datasets `rest` stand in `all` from index i on.
abbrev StandAt : List Dataset → ℕ → List Dataset → Type 0
StandAt all i [] = Unit {0}
StandAt all i (ds ∷ rest) = (get_elem? all i ≡ some ds) × StandAt all (suc i) rest

StandAt-cons :
    (x : Dataset) (all : List Dataset) (i : ℕ) (rest : List Dataset)
    → StandAt all i rest
    → StandAt (x ∷ all) (suc i) rest
StandAt-cons x all i [] h = tt
StandAt-cons x all i (ds ∷ rest) h = (h.0, StandAt-cons x all (suc i) rest h.1)

StandAt-self : (all : List Dataset) → StandAt all 0 all
StandAt-self [] = tt
StandAt-self (ds ∷ rest) = (refl, StandAt-cons ds rest 0 rest (StandAt-self rest))

abbrev state_at : Data → List ℕ → DataSupplyState
state_at source queue = record { source = source; datasets_to_provide = queue }

module _ {W : Type 0} (supplier : DatasetSupplier W) where
  round_at :
      (source : Data) (i : ℕ) (queue : List ℕ) (ds : Dataset) (w w' : W)
      → get_elem? source.datasets i ≡ some ds
      → supplier.push_dataset ds i w ≡ some (ok tt, w')
      → round supplier w (state_at source (i ∷ queue)) ≡ some (ok tt, w', state_at source queue)
  unfolding round grab_dataset
  round_at source i queue ds w w' h k = rw (h, k)

  round_empty :
      (source : Data) (w : W)
      → round supplier w (state_at source []) ≡ some (raise no_more_dataset, w, state_at source [])
  unfolding round grab_dataset
  round_empty source w = refl

  run-StandAt :
      (source : Data) (rest : List Dataset) (fuel i : ℕ) (w w' : W) (total : ℕ)
      → Pushes supplier i rest w w'
      → StandAt source.datasets i rest
      → length rest < fuel
      → run supplier fuel w (state_at source (range_from i (length rest))) total
        ≡ some (finish supplier w' (state_at source []) (total + length rest))
  unfolding run
  run-StandAt source rest zero i w w' total pushes st h = absurd (omega arith)
  run-StandAt source [] (suc fuel) i w w' total pushes st h =
      let n : total ≡ total + 0 = omega arith in
      ap (after_round supplier total (λ v s. run supplier fuel v s (total + 1)))
        (round_empty source w)
      ∙ ap (λ v. some (finish supplier v (state_at source []) total)) pushes
      ∙ ap (λ t. some (finish supplier w' (state_at source []) t)) n
  run-StandAt source (ds ∷ rest) (suc fuel) i w w' total (v, pushed, more) st h =
      let next = λ (v : W) (s : DataSupplyState). run supplier fuel v s (total + 1) in
      let step : total + 1 + length rest ≡ total + suc (length rest) = omega arith in
      ap (after_round supplier total next) (round_at source i _ ds w v st.0 pushed)
      ∙ run-StandAt source rest fuel (suc i) v w' (total + 1) more st.1 (omega arith)
      ∙ ap (λ t. some (finish supplier w' (state_at source []) t)) step

  -- A single supplier thread, where the class pushes the datasets of the data in order: with fuel
  -- above the number of datasets the loop ends, each dataset was pushed once, with its index, and
  -- then the end signal; the queue is empty, and the count is the number of datasets.
  pub run-Pushes :
      (source : Data) (s : DataSupplyState) (fuel : ℕ) (w w' : W)
      → Pushes supplier 0 source.datasets w w'
      → length source.datasets < u32_mod
      → length source.datasets < fuel
      → new_supply_state fuel source ≡ some s
      → run supplier fuel w s 0
        ≡ some (
            finish supplier w'
              (record { source = source; datasets_to_provide = [] })
              (length source.datasets))
  run-Pushes source s fuel w w' pushes small enough made =
      let e : s ≡ state_at source (range_from 0 (length source.datasets)) =
        cc (new_supply_state-queue fuel source small enough) in
      let n : 0 + length source.datasets ≡ length source.datasets = omega arith in
      rw e (
        run-StandAt source source.datasets fuel 0 w w' 0 pushes (StandAt-self source.datasets)
          enough
        ∙ ap (λ t. some (finish supplier w' (state_at source []) t)) n)
