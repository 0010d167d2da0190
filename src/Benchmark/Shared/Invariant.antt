-- ===== src/Benchmark/Shared/Invariant.antt =====
-- What holds between the steps of workers that share two exchange files.
use compute_web_app.Prelude.{
  ℕ, suc, ◌+◌, ◌*◌, ◌≤◌, ◌<◌, ◌≡◌, ◌≢◌, ◌⊎◌, ◌↔◌, List, [], ◌∷◌, ◌++◌, some, true, false, length,
  count, range_from, ◌==◌, if◌then◌else◌,
}
use compute_web_app.Prelude.Words.{u32_max}
use compute_web_app.Prelude.Text.{text_eq}
use compute_web_app.Outcome.{Outcome, ok}
use compute_web_app.Dataset.{Files, DataPointer}
use compute_web_app.Aggregate.File.{end_signals}
use compute_web_app.Exchange.Library.{Json, IsJson}
use compute_web_app.Exchange.{Entry}
use compute_web_app.Exchange.Queue.{Shows}
use compute_web_app.Exchange.Clients.{Serves}
use compute_web_app.Benchmark.Shared.{
  Phase, pulling, working, ending, finished, crashed, Worker, Shared,
}
use compute_web_app.Benchmark.Shared.Names.{dataset_name, output_file}

-- The indices of the datasets of a queue.
abbrev pub entry_ids : List Entry → List ℕ
entry_ids [] = []
entry_ids (e ∷ queue) = let rest = entry_ids queue in if e.id == u32_max then rest else e.id ∷ rest

abbrev pub end_entry : ℕ → Entry
end_entry client_id = record { id = u32_max; filename = []; client_id = client_id }

-- The steps that a worker can still make with nothing left to pull.
abbrev pub left_in : Phase → ℕ
left_in pulling = 2
left_in working = 3
left_in ending = 1
left_in finished = 0
left_in crashed = 0

-- The entries that a worker will still send with nothing left to pull.
abbrev pub unsent_in : Phase → ℕ
unsent_in pulling = 1
unsent_in working = 2
unsent_in ending = 1
unsent_in finished = 0
unsent_in crashed = 0

abbrev pub held_in : ℕ → ℕ → Phase → ℕ
held_in i index working = if index == i then 1 else 0
held_in i index pulling = 0
held_in i index ending = 0
held_in i index finished = 0
held_in i index crashed = 0

-- How often a worker holds index i.
abbrev pub held : {P : Type 0} → ℕ → Worker P → ℕ
held i w = held_in i w.index w.phase

module _ {P : Type 0} (multiply : P → List ℕ → Outcome (List ℕ × P)) (ids : List ℕ)
    (bytes_at : ℕ → List ℕ) (IsReady : P → Type 0) (IsResult : ℕ → List ℕ → Type 0) where
  -- Different indices below 2^32 - 1 and the bytes that stand at them: the product of a worker that is
  -- ready gives one of the results that are right for the index, and the worker is ready again.
  pub record IsJob : Type 0 where
    pub below : (i : ℕ) → 0 < count i ids → i < u32_max
    pub unique : (i : ℕ) → count i ids ≤ 1
    pub computes :
        (product : P) (i : ℕ)
        → IsReady product
        → 0 < count i ids
        → (r : List ℕ) × (next : P) × (multiply product (bytes_at i) ≡ ok (r, next))
          × IsReady next
          × IsResult i r

module _ {P : Type 0} (n : ℕ) (ids : List ℕ) (bytes_at : ℕ → List ℕ) (IsReady : P → Type 0)
    (IsResult : ℕ → List ℕ → Type 0) where
  -- A dataset in the supplier's queue: its file is there, and is not that of a result.
  abbrev pub IsInput : Files → Entry → Type 0
  IsInput fs e =
      (e.id ≢ u32_max)
      × (0 < count e.id ids)
      × (fs.contents e.filename ≡ some (bytes_at e.id))
      × ((j : ℕ) → text_eq e.filename (output_file j) ≡ false)

  abbrev pub AreInputs : Files → List Entry → Type 0
  AreInputs fs [] = Unit {0}
  AreInputs fs (e ∷ queue) = IsInput fs e × AreInputs fs queue

  -- An entry in the aggregator's queue: an end signal of one of the clients 1 to n, or a result.
  abbrev pub IsOutput : Files → Entry → Type 0
  IsOutput fs e =
      ((e.id ≡ u32_max) × (1 ≤ e.client_id) × (e.client_id ≤ n))
      ⊎ ((e.id ≢ u32_max)
          × (0 < count e.id ids)
          × (e.filename ≡ output_file e.id)
          × ((r : List ℕ) × (fs.contents e.filename ≡ some r) × IsResult e.id r))

  abbrev pub AreOutputs : Files → List Entry → Type 0
  AreOutputs fs [] = Unit {0}
  AreOutputs fs (e ∷ queue) = IsOutput fs e × AreOutputs fs queue

  -- What a worker has pulled; once it has met the end signal nothing is left to pull.
  abbrev pub PhaseHolds : List Entry → Worker P → Phase → Type 0
  PhaseHolds waiting w pulling = Unit {0}
  PhaseHolds waiting w working =
      (w.index ≢ u32_max)
      × (0 < count w.index ids)
      × ((owner : DataPointer) × (w.dataset_in
            ≡ some
                (record { id = dataset_name w.index; owner = owner; buffer = bytes_at w.index })))
  PhaseHolds waiting w ending = waiting ≡ []
  PhaseHolds waiting w finished = waiting ≡ []
  PhaseHolds waiting w crashed = ⊥

  -- The worker at position k, which is the client k + 1 and has sent an end signal exactly if it has
  -- finished.
  pub record WorkerInv (waiting sent : List Entry) (k : ℕ) (w : Worker P) : Type 0 where
    pub client : w.client_id ≡ suc k
    pub ready : IsReady w.product
    pub holds : PhaseHolds waiting w w.phase
    pub ended : (w.phase ≡ finished) ↔ (0 < count (suc k) (end_signals sent))

  module _ {J C : Type 0} (json : Json J C) (laws : IsJson json) where
    -- The supplier's file has these datasets and then the end signal, the aggregator's has what was
    -- sent.
    pub record SharedInv (s : Shared C) (waiting sent : List Entry) : Type 0 where
      pub last : Entry
      pub last_ends : last.id ≡ u32_max
      pub shows : Shows json laws s.input (waiting ++ last ∷ [])
      pub inputs : AreInputs s.files waiting
      pub serves : Serves json laws s.output sent (range_from 1 n) []
      pub outputs : AreOutputs s.files sent
      pub writable : (i : ℕ) → s.files.writable (output_file i) ≡ true

    -- A step of the worker at position k.
    pub record Moves (waiting sent : List Entry) (k : ℕ) (w w' : Worker P) (s' : Shared C)
        : Type 0 where
      pub waiting' : List Entry
      pub sent' : List Entry
      pub shared : SharedInv s' waiting' sent'
      pub worker : WorkerInv waiting' sent' k w'
      pub conserved :
          (i : ℕ)
          → count i (entry_ids waiting') + held i w' + count i (entry_ids sent')
            ≡ count i (entry_ids waiting) + held i w + count i (entry_ids sent)
      pub paced :
          length sent' + length waiting' + unsent_in w'.phase
          ≡ length sent + length waiting + unsent_in w.phase
      pub less :
          (w' ≡ w) × (waiting' ≡ waiting) × (w.phase ≡ finished)
          ⊎ (2 * length waiting' + left_in w'.phase < 2 * length waiting + left_in w.phase)
            × (w.phase ≢ finished)
      pub empty : waiting ≡ [] → waiting' ≡ []
      pub others :
          (j : ℕ) → j ≢ k → count (suc j) (end_signals sent') ≡ count (suc j) (end_signals sent)
      pub closes :
          w'.phase ≡ finished
          → (w.phase ≡ finished) × (sent' ≡ sent)
            ⊎ (w.phase ≢ finished) × (sent' ≡ sent ++ end_entry (suc k) ∷ [])
