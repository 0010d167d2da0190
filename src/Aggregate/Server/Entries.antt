-- ===== src/Aggregate/Server/Entries.antt =====
-- The entries of the aggregator server's queue: end signals, and what the data gains by the others.
use compute_web_app.Prelude.{
  ℕ, ◌+◌, ◌<◌, ◌≡◌, ◌≢◌, refl, ap, ◌∙◌, List, [], ◌∷◌, ◌++◌, Option, none, count, arith, append-nil,
  append_assoc, ◌==◌, if◌then◌else◌, Bool-cases, inl, inr,
}
use compute_web_app.Prelude.Words.{u32_max}
use compute_web_app.Prelude.Text.{Text, codes, to_text}
use compute_web_app.Dataset.{Files, Dataset, Data, points, push_back}
use compute_web_app.Socket.{Socket, DatasetStruct}
use compute_web_app.Socket.Server.{erase_socket, client_ids}
use compute_web_app.Aggregate.{Callback, call_back}

-- The clients whose end signals stand in a queue.
abbrev pub ends : List DatasetStruct → List ℕ
ends [] = []
ends (e ∷ q) = if e.id == u32_max then e.client_id ∷ ends q else ends q

-- A client's thread queues its end signal last: behind every dataset stands the end of its client.
abbrev pub IsClosed : List DatasetStruct → Type 0
IsClosed [] = Unit {0}
IsClosed (e ∷ q) =
    (if e.id == u32_max then Unit {0} else (0 < count e.client_id (ends q))) × IsClosed q

abbrev pub data_count : List DatasetStruct → ℕ
data_count [] = 0
data_count (e ∷ q) = (if e.id == u32_max then 0 else 1) + data_count q

-- The dataset that is made of a queue's entry.
abbrev pub dataset_of : Text → DatasetStruct → Dataset
dataset_of owner e = record {
  id = codes "dataset_" ++ to_text e.id;
  owner = points owner;
  buffer = e.buffer;
}

-- The reference: the datasets of a queue join the data in its order, each seen by the callback.
abbrev pub absorbed : Option Callback → Data → Files → List DatasetStruct → Data × Files
absorbed callback target fs [] = (target, fs)
absorbed callback target fs (e ∷ q) =
    if e.id == u32_max
    then absorbed callback target fs q
    else (let (ds, fs') = call_back callback (dataset_of target.id e) fs in
        absorbed callback (push_back target ds) fs' q)

pub count-erase :
    (a c : ℕ) (cs : List (ℕ × Socket))
    → 0 < count c (client_ids cs)
    → count a (client_ids (erase_socket c cs)) + (if c == a then 1 else 0) ≡ count a (client_ids cs)
unfolding erase_socket
count-erase a c [] h = absurd (omega arith)
count-erase a c ((j, s) ∷ cs) h = ground (arith, count-erase a c cs)

pub no_ends : (q : List DatasetStruct) → ((c : ℕ) → count c (ends q) ≡ 0) → IsClosed q → q ≡ []
no_ends [] h closed = refl
no_ends (e ∷ q) h closed = elim (Bool-cases (e.id == u32_max)) [
  | inl end ↦
      let some_end : count e.client_id (e.client_id ∷ ends q) ≡ 0 = rw end at (h e.client_id) in
      ground arith
  | inr other ↦
      let none_left : count e.client_id (ends q) ≡ 0 = rw other at (h e.client_id) in
      let some_end : 0 < count e.client_id (ends q) = rw other at closed.0 in absurd (omega arith)
]

-- The datasets made of a queue's entries, for data with this id.
abbrev pub made : Text → List DatasetStruct → List Dataset
made owner [] = []
made owner (e ∷ q) = if e.id == u32_max then made owner q else dataset_of owner e ∷ made owner q

abbrev pub grown : Data → List Dataset → Data
grown target more = record target { datasets = target.datasets ++ more }

pub absorbed-none :
    (target : Data) (fs : Files) (q : List DatasetStruct)
    → absorbed none target fs q ≡ (grown target (made target.id q), fs)
unfolding push_back
absorbed-none target fs [] = rw append-nil refl
absorbed-none target fs (e ∷ q) = elim (Bool-cases (e.id == u32_max)) [
  | inl end ↦ rw end (absorbed-none target fs q)
  | inr other ↦ rw other (
      absorbed-none (push_back target (dataset_of target.id e)) fs q
      ∙ ap (λ (l : List Dataset). (record target { datasets = l }, fs))
          (append_assoc target.datasets (dataset_of target.id e ∷ []) (made target.id q)))
]

abbrev pub NoEnds : List DatasetStruct → Type 0
NoEnds [] = Unit {0}
NoEnds (e ∷ q) = (e.id ≢ u32_max) × NoEnds q
