-- ===== src/Aggregate/Server/Complete.antt =====
-- An aggregator server ends when all its clients have, with all their datasets.
use compute_web_app.Prelude.{
  ℕ, zero, suc, ◌+◌, ◌<◌, ◌≡◌, refl, ap, ◌∙◌, List, [], ◌∷◌, ◌++◌, Option, none, some, true, false,
  length, count, arith, is_empty, ◌==◌, if◌then◌else◌, ne→==, ==_iff, ==_refl, Bool-cases, inl, inr,
}
use compute_web_app.Prelude.Words.{u32_max}
use compute_web_app.Outcome.{ok}
use compute_web_app.Dataset.{Files, Data, push_back}
use compute_web_app.Socket.{Socket, DatasetStruct}
use compute_web_app.Socket.Server.{erase_socket, client_ids, stop_registration}
use compute_web_app.Aggregate.{Callback, AggregateResult, call_back, run}
use compute_web_app.Aggregate.Server.{ServerAggregator, server_aggregator}
use compute_web_app.Aggregate.Server.Entries.{
  ends, IsClosed, data_count, dataset_of, absorbed, count-erase, no_ends, made, grown,
  absorbed-none, NoEnds,
}
use compute_web_app.Aggregate.Server.Rounds.{state_of, agg, run-data, run-end, run-last, result}

module _ (callback : Option Callback) (st : ServerAggregator) where
  some_left : (cs : List (ℕ × Socket)) → 0 < length cs → (a : ℕ) × (0 < count a (client_ids cs))
  some_left [] h = absurd (omega arith)
  some_left ((a, s) ∷ cs) h = (a, ground arith)

  emptied : (cs : List (ℕ × Socket)) → is_empty cs ≡ true → cs ≡ []
  emptied [] h = refl
  emptied (c ∷ cs) h = cc

  some_remain : (cs : List (ℕ × Socket)) → is_empty cs ≡ false → 0 < length cs
  some_remain [] h = cc
  some_remain (c ∷ cs) h = omega arith

  nothing_left :
      (q : List DatasetStruct) (cs : List (ℕ × Socket))
      → IsClosed q
      → ((a : ℕ) → count a (ends q) ≡ count a (client_ids cs))
      → cs ≡ []
      → q ≡ []
  nothing_left q cs closed same h =
      no_ends q (λ a. same a ∙ ap (λ (l : List (ℕ × Socket)). count a (client_ids l)) h) closed

  -- The end signal of a client: of the last one, behind which nothing is queued, or of another.
  end_cases :
      (fuel : ℕ) (cs : List (ℕ × Socket)) (e : DatasetStruct) (q : List DatasetStruct)
      (target : Data) (fs : Files) (total : ℕ)
      → (e.id == u32_max) ≡ true
      → IsClosed q
      → ((a : ℕ) → count a (ends q) ≡ count a (client_ids (erase_socket e.client_id cs)))
      → (0 < length (erase_socket e.client_id cs)
          → agg callback st fuel (erase_socket e.client_id cs) q target fs total
            ≡ some (result callback st (absorbed callback target fs q) (total + data_count q) []))
      → agg callback st (suc fuel) cs (e ∷ q) target fs total
        ≡ some (result callback st (absorbed callback target fs q) (total + data_count q) [])
  end_cases fuel cs e q target fs total end closed same more =
      elim (Bool-cases (is_empty (erase_socket e.client_id cs))) [
        | inl last ↦
            let gone = emptied (erase_socket e.client_id cs) last in
            let no_more : q ≡ [] = nothing_left q (erase_socket e.client_id cs) closed same gone in
            let n : total ≡ total + 0 = omega arith in
            run-last callback st fuel cs e q target fs total end gone
            ∙ rw no_more (ap (λ t. some (result callback st (target, fs) t [])) n)
        | inr other ↦
            run-end callback st fuel cs e q target fs total end other
            ∙ more (some_remain (erase_socket e.client_id cs) other)
      ]

  -- The state of the server does not change while datasets are pulled, and each end signal removes
  -- its client.
  run_complete :
      (fuel : ℕ) (cs : List (ℕ × Socket)) (q : List DatasetStruct) (target : Data) (fs : Files)
      (total : ℕ)
      → ((c : ℕ) → count c (ends q) ≡ count c (client_ids cs))
      → IsClosed q
      → 0 < length cs
      → length q < fuel
      → agg callback st fuel cs q target fs total
        ≡ some (result callback st (absorbed callback target fs q) (total + data_count q) [])
  run_complete zero cs q target fs total same closed some_client enough = absurd (omega arith)
  run_complete (suc fuel) cs [] target fs total same closed some_client enough =
      let (a, h) = some_left cs some_client in absurd (omega (arith, same a))
  run_complete (suc fuel) cs (e ∷ q) target fs total same closed some_client enough =
      elim (Bool-cases (e.id == u32_max)) [
        | inr other ↦
            let (ds, fs') = call_back callback (dataset_of target.id e) fs in
            let same' : (c : ℕ) → count c (ends q) ≡ count c (client_ids cs) =
              λ c. rw other at (same c) in
            let step : total + 1 + data_count q ≡ total + (1 + data_count q) = omega arith in
            rw other (
              run-data callback st fuel cs e q target fs total other
              ∙ run_complete fuel cs q (push_back target ds) fs' (total + 1) same' closed.1
                  some_client (omega arith)
              ∙ ap
                  (λ t.
                    some (result callback st (absorbed callback (push_back target ds) fs' q) t []))
                  step)
        | inl end ↦
            let c = e.client_id in
            let cs' = erase_socket c cs in
            let ended : (a : ℕ)
                → (if c == a then 1 else 0) + count a (ends q) ≡ count a (client_ids cs) =
              λ a. rw end at (same a) in
            let at_c : 1 + count c (ends q) ≡ count c (client_ids cs) =
              rw (==_refl c) at (ended c) in
            let here : 0 < count c (client_ids cs) = omega arith in
            let same' : (a : ℕ) → count a (ends q) ≡ count a (client_ids cs') =
              λ a. omega (arith, ended a, count-erase a c cs here) in
            let step : total + data_count q ≡ total + (0 + data_count q) = omega arith in
            rw end (
              end_cases fuel cs e q target fs total end closed.1 same' (λ some_client'.
                run_complete fuel cs' q target fs total same' closed.1 some_client' (omega arith))
              ∙ ap (λ t. some (result callback st (absorbed callback target fs q) t [])) step)
      ]

-- The aggregator server's thread with some clients, where each registered client has one end signal
-- in the queue, behind its datasets, and the fuel is above the length of the queue: the loop ends
-- with no exception, the queue is empty, no client is left and registration is stopped; every
-- dataset that a client sent was added to the data once, in the order of the queue and as the
-- callback left it, and was counted.
pub run-IsClosed :
    (callback : Option Callback) (st : ServerAggregator) (target : Data) (fs : Files) (fuel : ℕ)
    → ((c : ℕ) → count c (ends st.datasets) ≡ count c (client_ids st.server.client_sockets))
    → IsClosed st.datasets
    → 0 < length st.server.client_sockets
    → length st.datasets < fuel
    → run server_aggregator callback fuel st target fs 0
      ≡ some (record {
        outcome = ok tt;
        world = record {
          server = record st.server { client_sockets = []; stop_registering = true };
          datasets = [];
        };
        target = (absorbed callback target fs st.datasets).0;
        files = (absorbed callback target fs st.datasets).1;
        total_buffers = data_count st.datasets;
      })
unfolding stop_registration
run-IsClosed callback st target fs fuel same closed some_client enough =
    let n : 0 + data_count st.datasets ≡ data_count st.datasets = omega arith in
    run_complete callback st fuel st.server.client_sockets st.datasets target fs 0 same closed
      some_client enough
    ∙ ap (λ t. some (result callback st (absorbed callback target fs st.datasets) t [])) n

-- The aggregator server's thread with some clients and no callback, where each registered client
-- has one end signal in the queue, behind its datasets, and the fuel is above the length of the
-- queue: the loop ends, the files are as they were, and the data has, behind the datasets that it
-- had, one for each entry of the queue that is no end signal: `dataset_<index>`, owned by the data,
-- with the bytes that were sent.
pub run-made :
    (st : ServerAggregator) (target : Data) (fs : Files) (fuel : ℕ)
    → ((c : ℕ) → count c (ends st.datasets) ≡ count c (client_ids st.server.client_sockets))
    → IsClosed st.datasets
    → 0 < length st.server.client_sockets
    → length st.datasets < fuel
    → (r : AggregateResult ServerAggregator) × (run server_aggregator none fuel st target fs 0
        ≡ some r)
      × (r.outcome ≡ ok tt)
      × (r.target ≡ grown target (made target.id st.datasets))
      × (r.files ≡ fs)
unfolding run
run-made st target fs fuel same closed some_client enough = (
  _,
  run-IsClosed none st target fs fuel same closed some_client enough,
  refl,
  ap (λ (r : Data × Files). r.0) (absorbed-none target fs st.datasets),
  ap (λ (r : Data × Files). r.1) (absorbed-none target fs st.datasets),
)

run_until_last :
    (callback : Option Callback) (st : ServerAggregator) (fuel : ℕ) (cs : List (ℕ × Socket))
    (q : List DatasetStruct) (e : DatasetStruct) (rest : List DatasetStruct) (target : Data)
    (fs : Files) (total : ℕ)
    → NoEnds q
    → e.id ≡ u32_max
    → erase_socket e.client_id cs ≡ []
    → length q < fuel
    → run server_aggregator callback fuel (state_of st cs (q ++ e ∷ rest)) target fs total
      ≡ some (result callback st (absorbed callback target fs q) (total + length q) rest)
run_until_last callback st zero cs q e rest target fs total others end last enough =
    absurd (omega arith)
run_until_last callback st (suc fuel) cs [] e rest target fs total others end last enough =
    let n : total ≡ total + 0 = omega arith in
    run-last callback st fuel cs e rest target fs total ((==_iff e.id u32_max).1 end) last
    ∙ ap (λ t. some (result callback st (target, fs) t rest)) n
run_until_last callback st (suc fuel) cs (d ∷ q) e rest target fs total others end last enough =
    let other = ne→== d.id u32_max others.0 in
    let (ds, fs') = call_back callback (dataset_of target.id d) fs in
    let step : total + 1 + length q ≡ total + suc (length q) = omega arith in
    rw other (
      run-data callback st fuel cs d (q ++ e ∷ rest) target fs total other
      ∙ run_until_last callback st fuel cs q e rest (push_back target ds) fs' (total + 1) others.1
          end last (omega arith)
      ∙ ap (λ t. some (result callback st (absorbed callback (push_back target ds) fs' q) t rest))
          step)

-- The aggregator ends as soon as no client is registered any more, whatever is queued behind: where
-- the end signal of the one registered client follows only datasets, and the fuel is above their
-- number, the entries behind it stay in the queue unread.
pub run-early :
    (callback : Option Callback) (st : ServerAggregator) (q : List DatasetStruct)
    (e : DatasetStruct) (rest : List DatasetStruct) (target : Data) (fs : Files) (fuel : ℕ)
    → st.datasets ≡ q ++ e ∷ rest
    → NoEnds q
    → e.id ≡ u32_max
    → erase_socket e.client_id st.server.client_sockets ≡ []
    → length q < fuel
    → (r : AggregateResult ServerAggregator) × (run server_aggregator callback fuel st target fs 0
        ≡ some r)
      × (r.outcome ≡ ok tt)
      × (r.world.datasets ≡ rest)
      × (r.total_buffers ≡ length q)
run-early callback st q e rest target fs fuel queue others end last enough = (
  result callback st (absorbed callback target fs q) (0 + length q) rest,
  ap
        (λ (l : List DatasetStruct).
          run server_aggregator callback fuel (state_of st st.server.client_sockets l) target fs 0)
        queue
      ∙ run_until_last callback st fuel st.server.client_sockets q e rest target fs 0 others end
          last enough,
  refl,
  refl,
  omega arith,
)
