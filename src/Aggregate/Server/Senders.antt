-- ===== src/Aggregate/Server/Senders.antt =====
-- Clients that sent frames to an aggregator server: the data that its thread makes of them, in
-- whatever order they arrived.
use compute_web_app.Prelude.{
  ℕ, ◌<◌, ◌≡◌, refl, ap, ◌∙◌, List, [], ◌∷◌, ◌++◌, none, some, map, count, length, arith, ne→==,
  ==_refl, sum_over, ◌==◌, if◌then◌else◌,
}
use compute_web_app.Prelude.Words.{u32_max}
use compute_web_app.Prelude.Text.{Text, codes, to_text}
use compute_web_app.Outcome.{ok}
use compute_web_app.Dataset.{Files, Dataset, Data, points}
use compute_web_app.Socket.{DatasetStruct}
use compute_web_app.Socket.Stream.{entries, AreFrames}
use compute_web_app.Socket.Server.{client_ids}
use compute_web_app.Aggregate.{AggregateResult, run}
use compute_web_app.Aggregate.Server.{ServerAggregator, server_aggregator}
use compute_web_app.Aggregate.Server.Entries.{ends, IsClosed, made, grown, dataset_of}
use compute_web_app.Aggregate.Server.Complete.{run-made}
use compute_web_app.Aggregate.Server.Merge.{
  Merges, AllClosed, Merges-ends, Merges-IsClosed, Merges-made,
}

-- The datasets that an aggregator makes of these buffers, for data with this id.
abbrev pub received : Text → List (ℕ × List ℕ) → List Dataset
received owner [] = []
received owner ((i, b) ∷ more) =
    record { id = codes "dataset_" ++ to_text i; owner = points owner; buffer = b }
    ∷ received owner more

entries-count :
    (a c : ℕ) (sent : List (ℕ × List ℕ))
    → AreFrames sent
    → count a (ends (entries c sent)) ≡ (if c == a then 1 else 0)
entries-count a c [] h = omega arith
entries-count a c ((i, b) ∷ sent) h =
    rw (ne→== i u32_max (omega (arith, h.0))) (entries-count a c sent h.2)

entries-own :
    (c : ℕ) (sent : List (ℕ × List ℕ)) → AreFrames sent → count c (ends (entries c sent)) ≡ 1
entries-own c sent h = rw (==_refl c) at (entries-count c c sent h)

entries-IsClosed : (c : ℕ) (sent : List (ℕ × List ℕ)) → AreFrames sent → IsClosed (entries c sent)
entries-IsClosed c [] h = (tt, tt)
entries-IsClosed c ((i, b) ∷ sent) h =
    rw (ne→== i u32_max (omega (arith, h.0)))
      (omega (arith, entries-own c sent h.2), entries-IsClosed c sent h.2)

queued-made :
    (owner : Text) (c : ℕ) (sent : List (ℕ × List ℕ))
    → AreFrames sent
    → made owner (entries c sent) ≡ received owner sent
queued-made owner c [] h = refl
queued-made owner c ((i, b) ∷ sent) h = rw (ne→== i u32_max (omega (arith, h.0))) (
    ap (◌∷◌ (dataset_of owner (record { client_id = c; id = i; buffer = b })))
      (queued-made owner c sent h.2))

-- A client's id, and what it sent.
abbrev pub Sender : Type 0
Sender = ℕ × List (ℕ × List ℕ)

abbrev pub AllFrames : List Sender → Type 0
AllFrames [] = Unit {0}
AllFrames ((c, sent) ∷ ss) = AreFrames sent × AllFrames ss

abbrev pub ids_of : List Sender → List ℕ
ids_of [] = []
ids_of ((c, sent) ∷ ss) = c ∷ ids_of ss

abbrev pub entries_of : List Sender → List (List DatasetStruct)
entries_of [] = []
entries_of ((c, sent) ∷ ss) = entries c sent ∷ entries_of ss

abbrev pub received_of : Text → List Sender → List (List Dataset)
received_of owner [] = []
received_of owner ((c, sent) ∷ ss) = received owner sent ∷ received_of owner ss

all-ends :
    (a : ℕ) (ss : List Sender)
    → AllFrames ss
    → sum_over (λ es. count a (ends es)) (entries_of ss) ≡ count a (ids_of ss)
all-ends a [] fit = refl
all-ends a ((c, sent) ∷ ss) fit = omega (arith, entries-count a c sent fit.0, all-ends a ss fit.1)

all-closed : (ss : List Sender) → AllFrames ss → AllClosed (entries_of ss)
all-closed [] fit = tt
all-closed ((c, sent) ∷ ss) fit = (entries-IsClosed c sent fit.0, all-closed ss fit.1)

all-made :
    (owner : Text) (ss : List Sender)
    → AllFrames ss
    → map (made owner) (entries_of ss) ≡ received_of owner ss
all-made owner [] fit = refl
all-made owner ((c, sent) ∷ ss) fit =
    rw (queued-made owner c sent fit.0, all-made owner ss fit.1) refl

-- Where the queue is a merge of what the clients sent, and these are at least one and the registered
-- ones: the data gains a merge of the datasets that were sent.
pub run-senders :
    (ss : List Sender) (st : ServerAggregator) (target : Data) (fs : Files) (fuel : ℕ)
    → AllFrames ss
    → client_ids st.server.client_sockets ≡ ids_of ss
    → 0 < length st.server.client_sockets
    → Merges (entries_of ss) st.datasets
    → length st.datasets < fuel
    → (r : AggregateResult ServerAggregator) × (run server_aggregator none fuel st target fs 0
        ≡ some r)
      × (r.outcome ≡ ok tt)
      × ((all : List Dataset) × Merges (received_of target.id ss) all
          × (r.target ≡ grown target all))
run-senders ss st target fs fuel fit clients some_client merged enough =
    let same : (c : ℕ)
        → count c (ends st.datasets) ≡ count c (client_ids st.server.client_sockets) =
      λ c. Merges-ends c st.datasets _ merged ∙ all-ends c ss fit ∙ rw clients refl in
    let closed = Merges-IsClosed st.datasets _ merged (all-closed ss fit) in
    let (r, done, outcome, gained, files) =
      run-made st target fs fuel same closed some_client enough in
    (
      r,
      done,
      outcome,
      (
        made target.id st.datasets,
        rw (all-made target.id ss fit) at (Merges-made target.id st.datasets _ merged),
        gained,
      ),
    )
