-- ===== src/Benchmark/Shared/Steps/Works.antt =====
-- A worker that shares two exchange files computes and pushes a result.
use compute_web_app.Prelude.{
  ℕ, ◌<◌, ◌≡◌, ◌≢◌, refl, inr, List, [], ◌∷◌, ◌++◌, some, length-append, count, range_from, arith,
}
use compute_web_app.Prelude.Words.{u32_max}
use compute_web_app.Prelude.Text.{codes, to_text}
use compute_web_app.Outcome.{Outcome, ok}
use compute_web_app.Dataset.{
  Dataset, set_id, retain_buffer, set_data, points, release_buffer, get_filename, write_file,
  DataPointer,
}
use compute_web_app.Exchange.Library.{Json, IsJson}
use compute_web_app.Exchange.{Entry, ExchangeFile}
use compute_web_app.Exchange.Clients.{Serves}
use compute_web_app.Exchange.Clients.Pushes.{push_as_client-Serves}
use compute_web_app.Benchmark.{work_on, keep_result}
use compute_web_app.Benchmark.Shared.Written.{
  entry_ids-data, end_signals-data, AreInputs-write, AreOutputs-write, AreOutputs-last,
  written-IsOutput,
}
use compute_web_app.Benchmark.Shared.{
  state_of, file_aggregator, file_supplier, pulling, working, Worker, Shared, act, after_work,
}
use compute_web_app.Benchmark.Shared.Names.{dataset_name, output_file, output_file-is_ascii}
use compute_web_app.Benchmark.Shared.Invariant.{entry_ids, IsJob, WorkerInv, SharedInv}
use compute_web_app.Benchmark.Shared.Steps.Pulls.{ActsWell}

module _ {J C P : Type 0} (json : Json J C) (laws : IsJson json)
    (multiply : P → List ℕ → Outcome (List ℕ × P)) (n : ℕ) (ids : List ℕ) (bytes_at : ℕ → List ℕ)
    (IsReady : P → Type 0) (IsResult : ℕ → List ℕ → Type 0) where
  abbrev OfWorker : List Entry → List Entry → ℕ → Worker P → Type 0
  OfWorker = WorkerInv n ids bytes_at IsReady IsResult

  abbrev OfShared : Shared C → List Entry → List Entry → Type 0
  OfShared = SharedInv n ids bytes_at IsReady IsResult json laws

  abbrev Acts : List Entry → List Entry → ℕ → Worker P → Shared C → Type 0
  Acts = ActsWell json laws multiply n ids bytes_at IsReady IsResult

  module _ (sent : List Entry) (k : ℕ) (w : Worker P) (s : Shared C) where
    -- The rest of a round: the result is written to its file and pushed.
    module _ (waiting : List Entry) (job : IsJob multiply ids bytes_at IsReady IsResult) where
      -- What the round makes.
      record Worked : Type 0 where
        r : List ℕ
        next : P
        output' : ExchangeFile C
        out : Dataset
        worked :
            work_on
              (file_aggregator json s.files)
              (file_supplier json w.client_id)
              multiply
              (state_of w s)
              w.dataset_in
            ≡ ok (record (state_of w s) {
              dataset_out = out;
              product = next;
              files = write_file s.files (output_file w.index) r;
              output = output';
            })
        ready : IsReady next
        right : IsResult w.index r
        serves :
            Serves json laws output'
              (sent
                ++ record { id = w.index; filename = output_file w.index; client_id = u32_max }
                  ∷ [])
              (range_from 1 n)
              []

      work_on-Worked :
          OfShared s waiting sent
          → IsReady w.product
          → w.index ≢ u32_max
          → 0 < count w.index ids
          → (owner : DataPointer)
          → w.dataset_in
            ≡ some (record { id = dataset_name w.index; owner = owner; buffer = bytes_at w.index })
          → Worked
      unfolding work_on keep_result get_filename set_data set_id retain_buffer release_buffer
          to_text
      work_on-Worked shared ready other known owner pulled =
          let (r, next, made, ready', right) = job.computes w.product w.index ready known in
          let out : Dataset = record {
            id = dataset_name w.index;
            owner = points (codes "output");
            buffer = [];
          } in
          let (output', pushed, _, serves') =
            push_as_client-Serves json laws s.output sent (range_from 1 n) [] shared.serves out
              w.index (output_file w.index) refl
              (laws.plain_ascii (output_file w.index) (output_file-is_ascii w.index)) other in
          record {
            r = r;
            next = next;
            output' = output';
            out = out;
            worked = rw (pulled, made, pushed) refl;
            ready = ready';
            right = right;
            serves = serves';
          }

      act-worked :
          w.phase ≡ working
          → OfShared s waiting sent
          → OfWorker waiting sent k w
          → count w.index (entry_ids sent) ≡ 0
          → w.index ≢ u32_max
          → 0 < count w.index ids
          → Worked
          → Acts waiting sent k w s
      unfolding act after_work write_file
      act-worked at shared worker fresh other known made =
          let e : Entry = record {
            id = w.index;
            filename = output_file w.index;
            client_id = u32_max;
          } in
          let fs' = write_file s.files (output_file w.index) made.r in
          let w' : Worker P = record w {
            phase = pulling;
            dataset_out = made.out;
            product = made.next;
          } in
          let kept = end_signals-data sent e other in
          (
            w',
            record s { output = made.output'; files = fs' },
            rw (at, made.worked) refl,
            record {
              waiting' = waiting;
              sent' = sent ++ e ∷ [];
              shared = record {
                last = shared.last;
                last_ends = shared.last_ends;
                shows = shared.shows;
                inputs =
                    AreInputs-write n ids bytes_at IsReady IsResult s.files waiting w.index made.r
                      shared.inputs;
                serves = made.serves;
                outputs =
                    AreOutputs-last n ids bytes_at IsReady IsResult fs' sent e
                      (AreOutputs-write n ids bytes_at IsReady IsResult s.files sent w.index made.r
                        (omega (arith, job.below w.index known)) job.below fresh shared.outputs)
                      (written-IsOutput n ids bytes_at IsReady IsResult s.files w.index made.r other
                        known (shared.writable w.index) made.right);
                writable = shared.writable;
              };
              worker = record {
                client = worker.client;
                ready = made.ready;
                holds = tt;
                ended = (λ q. cc, λ h. absurd (ground (arith, worker.ended.1 (rw kept at h))));
              };
              conserved = λ i. rw at (omega (arith, entry_ids-data i sent e other));
              paced = rw at (omega (arith, length-append sent (e ∷ [])));
              less = inr (rw at (omega arith), λ q. cc);
              empty = λ q. q;
              others = λ j ne. rw kept refl;
              closes = λ q. cc;
            },
          )

      -- No other worker has sent the result that this one is at.
      pub act-works :
          w.phase ≡ working
          → OfShared s waiting sent
          → OfWorker waiting sent k w
          → count w.index (entry_ids sent) ≡ 0
          → Acts waiting sent k w s
      act-works at shared worker fresh =
          let (other, known, (owner, pulled)) = rw at at worker.holds in
          act-worked at shared worker fresh other known
            (work_on-Worked shared worker.ready other known owner pulled)
